-- ===== src/Notifier.antt =====
-- bleps/src/async_attribute_server.rs: the asynchronous server, which serves a client and sends the
-- notifications of the application, until the client disconnects.
pub mod Filter
pub mod Served
use bleps.Common.{
  ℕ, ◌+◌, ◌%◌, ◌^◌, ◌≡◌, Bool, false, ◌&&◌, Option, none, some, List, [], ◌∷◌, ◌++◌, length,
  get_elem?, Run, done, hang, ◌>>=◌, Result, ok, err, ◌==◌, if◌then◌else◌,
}
use bleps.Hci.{Hci}
use bleps.Att.{uuid_eq, uuid16}
use bleps.Attribute.{Attribute}
use bleps.Asynch
use bleps.Asynch.Wire.{Wire}
use bleps.Ble.{PollResult}
use bleps.Server
use bleps.Server.{
  Server, NotificationData, WorkResult, AttributeServerError, did_work, got_disconnected,
  find_first, has_handle, new_server, get_characteristic_value, send_notification,
  handle_poll_result,
}

-- A connection of which only the reading side is used.
abbrev pub listening : List (List ℕ) → Wire
listening chunks = record {
  chunks = chunks;
  clock = λ n. 0;
  ticks = 0;
  accepts = λ n. 0;
  writes = 0;
  written = [];
}

-- `if let Some(1) = cccd_len { cccd[0] == 1 } else { false }`.
unfoldable pub is_one : Option ℕ → List ℕ → Bool
is_one none cccd = false
is_one (some n) [] = false
is_one (some n) (b ∷ bs) = (n == 1) && (b == 1)

-- `poll` of the asynchronous `Ble`, on the chunks that have arrived: its result, and the chunks that it
-- leaves. It waits, at any byte of a packet, when they run out.
unfoldable pub async_poll : List (List ℕ) → Run (Option PollResult × List (List ℕ))
async_poll chunks = Asynch.poll (listening chunks) >>= λ (packet, wire). done (packet, wire.chunks)

-- `self` and `notification_to_send`. What has arrived from the controller is apart from the server,
-- whose `hci` is only written to: a write is taken whole.
pub record Runner (S : Type 0) : Type 0 where
  pub server : Server S
  pub chunks : List (List ℕ)
  pub notification_to_send : Option NotificationData

module _ {S : Type 0} where
  -- The constructor, which numbers the attributes as the blocking server's does.
  unfoldable pub new_async : Hci → List (Attribute S) → S → ℕ → Run (Server S)
  new_async hci attributes app max_mtu = new_server hci attributes app max_mtu

  -- `run` starts with no notification to send.
  abbrev pub running : Server S → List (List ℕ) → Runner S
  running server chunks = record { server = server; chunks = chunks; notification_to_send = none }

  -- Whether the attribute behind the one with the handle is a CCCD that enables notifications.
  unfoldable pub enabled : Server S → ℕ → Run (Bool × Server S)
  enabled server handle = elim (find_first (has_handle handle) server.attributes) [
    | none ↦ done (false, server)
    | some (before, attr, after) ↦
        let idx = length before in
        elim (get_elem? server.attributes (idx + 1)) [
          | none ↦ done (false, server)
          | some next ↦
              if uuid_eq next.uuid (uuid16 0x2902)
              then (do
                (cccd_len, cccd, server) ←
                    get_characteristic_value server ((idx + 2) % 2 ^ 16) 0 (0 ∷ [])
                done (is_one cccd_len cccd, server))
              else done (false, server)
        ]
  ]

  unfoldable pub filtered :
      Server S → Option NotificationData → Run (Option NotificationData × Server S)
  filtered server none = done (none, server)
  filtered server (some notification) = do
    (enabled, server) ← enabled server notification.handle
    done (if enabled then some notification else none, server)

  -- The worker up to the point at which it waits for the controller.
  unfoldable pub prepared : Server S → Option NotificationData → Run (Server S)
  prepared server notification = do
    (notification, server) ← filtered server notification
    elim notification [ some n ↦ send_notification server n | none ↦ done server ]

  unfoldable pub finish_work :
      Server S
      → List (List ℕ)
      → Run (Result {0, 0} AttributeServerError WorkResult × Server S × List (List ℕ))
  finish_work server chunks = do
    (packet, chunks) ← async_poll chunks
    (result, server) ← handle_poll_result server packet
    done (result, server, chunks)

  -- A round of the loop of `run` that is not its last. `select` asks the notifier first: it may be
  -- ready at once, and the worker does not start; or it is ready while the worker waits for a byte,
  -- of a header or behind it, and the worker is dropped with all that it has read; or the worker
  -- ends first.
  pub data Round : Runner S → Runner S → Type 0 where
    notified :
        {r : Runner S} (n : NotificationData) → Round r (record r { notification_to_send = some n })
    interrupted :
        {r : Runner S} {server : Server S} (n : NotificationData)
        → prepared r.server r.notification_to_send ≡ done server
        → async_poll r.chunks ≡ hang
        → Round r (record { server = server; chunks = []; notification_to_send = some n })
    worked :
        {r : Runner S} {server server' : Server S} {chunks : List (List ℕ)}
        → prepared r.server r.notification_to_send ≡ done server
        → finish_work server r.chunks ≡ done (ok did_work, server', chunks)
        → Round r (record { server = server'; chunks = chunks; notification_to_send = none })
    -- More bytes from the controller.
    arrival : {r : Runner S} (c : List ℕ) → Round r (record r { chunks = r.chunks ++ (c ∷ []) })

  -- The last round, with the result of `run`.
  pub data LastRound
      : Runner S → Result {0, 0} AttributeServerError (Unit {0}) → Server S → Type 0 where
    disconnected :
        {r : Runner S} {server server' : Server S} {chunks : List (List ℕ)}
        → prepared r.server r.notification_to_send ≡ done server
        → finish_work server r.chunks ≡ done (ok got_disconnected, server', chunks)
        → LastRound r (ok tt) server'
    failed :
        {r : Runner S} {server server' : Server S} {chunks : List (List ℕ)}
        (e : AttributeServerError)
        → prepared r.server r.notification_to_send ≡ done server
        → finish_work server r.chunks ≡ done (err e, server', chunks)
        → LastRound r (err e) server'

  -- `run`: rounds from an empty slot on, and a last one.
  pub data Rounds : Runner S → Runner S → Type 0 where
    start : {r : Runner S} → Rounds r r
    next : {r r' r'' : Runner S} → Rounds r r' → Round r' r'' → Rounds r r''
