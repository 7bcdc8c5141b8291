-- ===== src/Examples/Notified.antt =====
-- The theorems on the asynchronous server, on the small device.
use bleps.Common.{
  ℕ, zero, suc, ◌≡◌, refl, subst, true, false, some, List, [], ◌∷◌, arith, get_elem?, done, ok,
}
use bleps.Data
use bleps.Data.Buffer.{Represents}
use bleps.Asynch
use bleps.Asynch.Wire
use bleps.Asynch.Wire.{Wire, read_data}
use bleps.Att.{uuid16}
use bleps.Attribute.{Attribute, array, array_mut}
use bleps.Gatt.Stored.{StoredIn, generated, cccd_data}
use bleps.Asynch.Waiting.{read_data_overruns}
use bleps.Event
use bleps.Server
use bleps.Server.{Server, NotificationData}
use bleps.Server.Invariant.{Invariant, table}
use bleps.Notifier.{running, LastRound, Rounds, filtered, prepared, async_poll, finish_work}
use bleps.Notifier.Filter.{is_cccd, filtered_lem}
use bleps.Notifier.Served.{Finished, run-Finished}
use bleps.Examples.{data_of, silent, device, device_on}

abbrev subscribed_device : Server (Unit {0})
subscribed_device = device_on silent (7 ∷ 8 ∷ 9 ∷ []) (1 ∷ 0 ∷ [])

abbrev news : NotificationData
news = record { handle = 2; payload = data_of (5 ∷ []) }

-- The same device with the CCCD of `gatt!`, whose static array is the state.
abbrev declared : Attribute (List ℕ)
declared = record {
  uuid = uuid16 0x2800;
  handle = 1;
  content = array (0x0a ∷ 0x18 ∷ []);
  last_handle_in_group = 3;
}

abbrev measured : Attribute (List ℕ)
measured = record {
  uuid = uuid16 0x2a00;
  handle = 2;
  content = array_mut (7 ∷ 8 ∷ 9 ∷ []);
  last_handle_in_group = 3;
}

abbrev configured : Attribute (List ℕ)
configured = record {
  uuid = uuid16 0x2902;
  handle = 3;
  content = cccd_data (λ s. s) (λ backing s. backing);
  last_handle_in_group = 3;
}

abbrev generated_device : Server (List ℕ)
generated_device = record {
  mtu = 23;
  src_handle = 0;
  attributes = declared ∷ measured ∷ configured ∷ [];
  app = 1 ∷ 0 ∷ [];
  hci = silent;
  max_mtu = 128;
}

stored_here :
    (i : ℕ) (att : Attribute (List ℕ))
    → get_elem? generated_device.attributes i ≡ some att
    → is_cccd att ≡ true
    → StoredIn generated_device.app att.content (1 ∷ 0 ∷ [])
stored_here zero att e c =
    let same : att ≡ declared = cc in
    let other : false ≡ true = subst (λ a. is_cccd a ≡ true) same c in cc
stored_here (suc zero) att e c =
    let same : att ≡ measured = cc in
    let other : false ≡ true = subst (λ a. is_cccd a ≡ true) same c in cc
stored_here (suc (suc zero)) att e c =
    let same : configured ≡ att = cc in
    subst (λ a. StoredIn generated_device.app a.content (1 ∷ 0 ∷ [])) same
      (generated (λ s. s) (λ backing s. backing) (1 ∷ 0 ∷ []) refl)
stored_here (suc (suc (suc i))) att e c = cc

filtered_lem_example : filtered generated_device (some news) ≡ done (some news, generated_device)
filtered_lem_example =
    filtered_lem generated_device (λ i. 1 ∷ 0 ∷ []) (refl, (refl, (refl, tt))) (omega arith)
      stored_here news

-- The controller reports the end of the connection, in two parts.
abbrev leaving : List (List ℕ)
leaving = (0x04 ∷ []) ∷ (0x05 ∷ 4 ∷ 0 ∷ 64 ∷ 0 ∷ 0x13 ∷ []) ∷ []

run-Finished_example :
    Invariant (table device.attributes) 128 subscribed_device × Finished (ok tt) subscribed_device
unfolding prepared filtered finish_work async_poll Asynch.poll Wire.read_byte Wire.read_buffer
    Wire.read Wire.read_event Wire.read_data Wire.read_loop Data.zeros Data.new Data.copy_at
    Event.decode Event.decode_disconnect_complete Data.as_slice Data.slice_to Data.slice Data.index
    Event.u16_at Event.error_code_of Server.handle_poll_result Server.handle_event
run-Finished_example =
    run-Finished (table device.attributes) 128 (omega arith) subscribed_device leaving
      (running subscribed_device leaving) (ok tt) subscribed_device
      (record { same_table = refl; same_limit = refl; bounded = omega arith }) Rounds.start
      (LastRound.disconnected {server = subscribed_device} refl refl)

abbrev wire : Wire
wire = record {
  chunks = (1 ∷ 2 ∷ []) ∷ (3 ∷ 4 ∷ 0x04 ∷ []) ∷ [];
  clock = λ n. n;
  ticks = 0;
  accepts = λ n. 256;
  writes = 0;
  written = [];
}

read_data_overruns_example :
    (d : Data.Data) × (read_data 4 wire ≡ done (d, record wire { chunks = [] }))
    × Represents d (1 ∷ 2 ∷ 3 ∷ 4 ∷ [])
read_data_overruns_example =
    read_data_overruns 4 (1 ∷ 2 ∷ []) (3 ∷ 4 ∷ 0x04 ∷ []) [] wire (omega arith) (omega arith)
      (omega arith) (omega arith) (omega arith)
