-- ===== src/Lib.antt =====
-- bleps: a Bluetooth Low Energy host with a GATT server, for controllers behind an HCI byte stream.
--
-- The program. `Ble` (bleps/src/lib.rs) sends HCI commands and polls the controller: it reads events
-- (bleps/src/event.rs) and ACL packets (bleps/src/acl.rs), and joins the fragments of an L2CAP packet.
-- `AttributeServer` (bleps/src/attribute_server.rs) polls `Ble`, takes the L2CAP frame apart
-- (bleps/src/l2cap.rs), decodes the ATT request (bleps/src/att.rs), runs its handler on the attributes
-- (bleps/src/attribute.rs), and sends the response back through the same layers. With the feature
-- `crypto` it hands the packets of channel 6 to `SecurityManager` (bleps/src/sm.rs), which computes with
-- the toolbox of bleps/src/crypto.rs. All of them pass `Data`, a buffer of 256 bytes with a length.
--
-- The files, and the code that they model:
--   Common       numbers, tests, lists, bytes, and `Run`, the ways a call ends: a value, a panic, a wait
--                without end; `stuck` marks a loop of the model that ran out of fuel
--   Data         `Data` of bleps/src/lib.rs; Data/Buffer relates a buffer to the string that it holds
--   Hci          the trait `HciConnection`: the bytes still to read, the clock, the bytes written
--   Acl, L2cap   `AclPacket` and `L2capPacket`, read and encode
--   Event        `EventType::read` and `check_command_completed`
--   Command      bleps/src/command.rs
--   Ble          `poll`, `wait_for_command_complete` and the commands of `Ble`
--   Att          `Uuid`, `Att::decode` and, in Att/Response, the responses
--   Attribute    `AttData` for arrays, slices, values and closures, and `Attribute`
--   Server       `AttributeServer` without the feature `crypto`: Server/State, Server/Setup (the
--                constructor), Server/Handlers and Server/Work (`do_work_with_notification`)
--   AdStructure  bleps/src/ad_structure.rs
--   Crypto       bleps/src/crypto.rs: the toolbox of LE Secure Connections, over AES-CMAC and P-256
--   Sm           bleps/src/sm.rs: the security manager, which answers the pairing of a peer
--   Secure       `AttributeServer` with the feature `crypto`: the server with a security manager
--   Asynch       the module `asynch` of bleps/src/lib.rs: the asynchronous `Ble`, over chunks of bytes
--   Notifier     bleps/src/async_attribute_server.rs: `run`, which sends the application's notifications
--   Dedup        bleps-dedup/src/lib.rs: the macro that writes a blocking and an asynchronous copy
--   Gatt         bleps-macros/src/lib.rs: the macro `gatt!`; Gatt/Parse reads the call, Gatt/Generate writes
--                the code, Gatt/Code has the statements, Gatt/Cccd the closures that the code contains,
--                Gatt/Stored what they are as the data of an attribute;
--                Gatt/Running is what Rust does with the statements, Gatt/Plan what the call asks for
--   Examples     a small device on which the theorems are applied
--
-- State and effects. A panic of the source (an index, an `unwrap`, an overflow in a build with overflow
-- checks) is `panic`. Code that talks to the controller is a function of `Hci`. A handler takes the
-- server and gives the server after it. The closures of an application are functions on a state `S`
-- that they share. A `&mut` buffer is passed in and handed back.
--
-- Bounds and fuel. Integers are natural numbers, cut to their width where the source casts or shifts.
-- `Data` keeps its 256 bytes. The loop that joins fragments runs on one more round than there are bytes
-- left to read, which is enough, since each round takes at least one; the loop that waits for a command
-- takes its fuel as an argument. The asynchronous loops run on one more round than there are bytes and
-- chunks to come. Inputs that the theorems need small (a handle of 12 bits, an MTU of at
-- most 247) are their hypotheses.
--
-- Parameters. AES-CMAC and the curve P-256 are other crates': `Crypto.Primitives` stands for them, and
-- `Crypto.IsReliable` says what the code relies on. A random generator is the sequence of its answers.
-- The macro `dedup` works on the streams of tokens that `proc_macro` gives it, and `gatt!` on the
-- expressions that `syn` gives it; `Gatt.Code.Crates` stands for `Uuid::parse_str` and for the test whether
-- a text is an identifier. A number in a name has 20 digits at most, as a `usize` has.
--
-- Interleavings. `run` of the asynchronous server is a relation on rounds: the notifier is ready before
-- the worker starts, or while the worker waits for a byte of the controller, of a header or behind it,
-- or the worker ends first. The worker polls as `Asynch` does; its writes are taken whole.
--
-- Not modelled: an asynchronous worker that waits for a write; the asynchronous copies of the handlers,
-- which are the same code with awaits; logging; the examples for boards.
pub mod Common
pub mod Data
pub mod Hci
pub mod Acl
pub mod L2cap
pub mod Att
pub mod Attribute
pub mod Server
pub mod Event
pub mod Command
pub mod Ble
pub mod AdStructure
pub mod Crypto
pub mod Sm
pub mod Secure
pub mod Asynch
pub mod Notifier
pub mod Dedup
pub mod Gatt
pub mod Examples
