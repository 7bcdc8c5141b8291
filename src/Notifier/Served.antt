-- ===== src/Notifier/Served.antt =====
-- What `run` of bleps/src/async_attribute_server.rs (119-193) keeps, and how it ends.
use bleps.Common.{
  ◌%◌, ◌^◌, length, option-Ends, ℕ, ◌+◌, ◌≤◌, ◌≡◌, refl, Option, none, some, List, [], ◌∷◌,
  get_elem?, Result, ok, err, ◌==◌, Ends, done-Ends, if-Ends, bind-Ends, bind-any, result-Ends,
}
use bleps.L2cap
use bleps.L2cap.{sm_channel}
use bleps.Att
use bleps.Att.{Uuid, uuid_eq, uuid16}
use bleps.Event.{
  EventType, command_complete, disconnect_complete, number_of_completed_packets,
  connection_complete, long_term_key_request,
}
use bleps.Ble.{PollResult, event, async_data}
use bleps.Server
use bleps.Server.{
  Server, NotificationData, WorkResult, AttributeServerError, did_work, got_disconnected, base_mtu,
  get_characteristic_value, find_first, has_handle, handle_poll_result,
}
use bleps.Server.Invariant.{Invariant}
use bleps.Server.Invariant.Handlers.{get_characteristic_value-Kept}
use bleps.Server.Invariant.Rounds.{Outcome, notified-Kept, handle_poll_result-Kept}
use bleps.Notifier.{
  enabled, filtered, prepared, async_poll, finish_work, running, Runner, Round, LastRound, Rounds,
}

-- After a disconnect the MTU is the one of a new connection.
abbrev Released : {S : Type 0} → Outcome × Server S → Type 0
Released (ok got_disconnected, server) = server.mtu ≡ base_mtu
Released (ok did_work, server) = Unit
Released (err e, server) = Unit

abbrev pub Finished :
    {S : Type 0} → Result {0, 0} AttributeServerError (Unit {0}) → Server S → Type 0
Finished (ok u) server = server.mtu ≡ base_mtu
Finished (err e) server = Unit

module _ {S : Type 0} where
  handle_att-Released :
      (server : Server S) (src : ℕ) (packet : L2cap.L2capPacket)
      → Ends Released (Server.handle_att server src packet)
  unfolding Server.handle_att
  handle_att-Released server src packet = bind-any (Att.decode packet) _ λ request.
      result-Ends request _ _ (λ e. done-Ends _ tt)
        λ att. bind-any (Server.dispatch server src att) _ λ server'. done-Ends _ tt

  poll_result-Released :
      (server : Server S) (packet : Option PollResult)
      → Ends Released (handle_poll_result server packet)
  unfolding handle_poll_result Server.handle_event Server.handle_packet
  poll_result-Released server none = done-Ends _ tt
  poll_result-Released server (some (event (disconnect_complete handle status reason))) =
      done-Ends _ refl
  poll_result-Released server (some (event (connection_complete c))) = done-Ends _ tt
  poll_result-Released server (some (event (long_term_key_request x y z))) = done-Ends _ tt
  poll_result-Released server (some (event (command_complete n code payload))) = done-Ends _ tt
  poll_result-Released server (some (event (number_of_completed_packets n x y))) = done-Ends _ tt
  poll_result-Released server (some (event EventType.unknown)) = done-Ends _ tt
  poll_result-Released server (some (async_data packet)) =
      bind-any (L2cap.decode packet) _ λ decoded.
        result-Ends decoded _ _ (λ e. done-Ends _ tt)
          λ (src, l2cap).
            if-Ends (l2cap.channel == sm_channel) _ _ (done-Ends _ tt)
              (handle_att-Released server src l2cap)

  finish_work-Released :
      (server : Server S) (chunks : List (List ℕ))
      → Ends (λ (r, server', _). Released (r, server')) (finish_work server chunks)
  unfolding finish_work
  finish_work-Released server chunks = bind-any (async_poll chunks) _ λ (packet, chunks').
      bind-Ends (handle_poll_result server packet) _ (poll_result-Released server packet)
        λ r released. done-Ends _ released

module _ {S : Type 0} (t : List (Uuid × ℕ × ℕ)) (limit : ℕ) (at_least : base_mtu ≤ limit) where
  abbrev Held : Server S → Type 0
  Held server = Invariant t limit server

  finish_work-Kept :
      (server : Server S) (chunks : List (List ℕ))
      → Held server
      → Ends (λ r. Held r.1) (finish_work server chunks)
  unfolding finish_work
  finish_work-Kept server chunks h = bind-any (async_poll chunks) _ λ (packet, chunks').
      bind-Ends (handle_poll_result server packet) _
        (handle_poll_result-Kept t limit at_least server packet h) λ r kept. done-Ends _ kept

  enabled-Kept :
      (server : Server S) (handle : ℕ) → Held server → Ends (λ r. Held r.1) (enabled server handle)
  unfolding enabled
  enabled-Kept server handle h =
      option-Ends (find_first (has_handle handle) server.attributes) _ _ (done-Ends _ h)
        λ (before, attr, after).
          option-Ends (get_elem? server.attributes (length before + 1)) _ _ (done-Ends _ h) λ next.
            if-Ends (uuid_eq next.uuid (uuid16 0x2902)) _ _
              (bind-Ends (get_characteristic_value server ((length before + 2) % 2 ^ 16) 0 (0 ∷ []))
                _ (get_characteristic_value-Kept t limit server h _ 0 (0 ∷ []))
                λ r h'. done-Ends _ h')
              (done-Ends _ h)

  filtered-Kept :
      (server : Server S) (notification : Option NotificationData)
      → Held server
      → Ends (λ r. Held r.1) (filtered server notification)
  unfolding filtered
  filtered-Kept server none h = done-Ends _ h
  filtered-Kept server (some n) h =
      bind-Ends (enabled server n.handle) _ (enabled-Kept server n.handle h) λ r h'. done-Ends _ h'

  prepared-Kept :
      (server : Server S) (notification : Option NotificationData)
      → Held server
      → Ends Held (prepared server notification)
  unfolding prepared
  prepared-Kept server notification h =
      bind-Ends (filtered server notification) _ (filtered-Kept server notification h)
        λ (n, server') h'. notified-Kept t limit at_least server' n h'

  one-Kept : {r r' : Runner S} → Round r r' → Held r.server → Held r'.server
  one-Kept (Round.notified n) h = h
  one-Kept {r} (Round.interrupted {server = server} n prepared stopped) h =
      (prepared-Kept r.server r.notification_to_send h).ends server prepared
  one-Kept {r} (Round.worked {server = server} prepared finished) h =
      (finish_work-Kept server r.chunks
          ((prepared-Kept r.server r.notification_to_send h).ends server prepared)).ends
        _ finished
  one-Kept (Round.arrival c) h = h

  all-Kept : {r r' : Runner S} → Rounds r r' → Held r.server → Held r'.server
  all-Kept Rounds.start h = h
  all-Kept (Rounds.next before round) h = one-Kept round (all-Kept before h)

  -- Whatever the controller sends and wherever the notifier interrupts the worker while it waits for a
  -- byte of the controller, inside a packet or before one, `run` keeps the table of the attributes and
  -- the MTU within its limit; and when it returns without an error, the MTU is the one of a new
  -- connection.
  pub run-Finished :
      (s₀ : Server S) (chunks : List (List ℕ)) (r : Runner S)
      (result : Result {0, 0} AttributeServerError (Unit {0})) (server : Server S)
      → Invariant t limit s₀
      → Rounds (running s₀ chunks) r
      → LastRound r result server
      → Invariant t limit server × Finished result server
  run-Finished s₀ chunks r result server h rounds
        (LastRound.disconnected {server = s} before last) =
      let k = (prepared-Kept r.server r.notification_to_send (all-Kept rounds h)).ends s before in
      ((finish_work-Kept s r.chunks k).ends _ last, (finish_work-Released s r.chunks).ends _ last)
  run-Finished s₀ chunks r result server h rounds (LastRound.failed {server = s} e before last) =
      let k = (prepared-Kept r.server r.notification_to_send (all-Kept rounds h)).ends s before in
      ((finish_work-Kept s r.chunks k).ends _ last, tt)
