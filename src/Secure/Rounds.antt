-- ===== src/Secure/Rounds.antt =====
-- What every round of the server with a security manager keeps.
use bleps.Common.{
  ℕ, ◌≤◌, Option, none, some, List, Run, done, ◌==◌, Ends, done-Ends, if-Ends, bind-Ends, bind-any,
  result-Ends, Bool-cases, inl, inr, unwrap_ok,
}
use bleps.Acl.{AclPacket}
use bleps.L2cap
use bleps.L2cap.{L2capPacket, sm_channel}
use bleps.Att.{Uuid}
use bleps.Event.{
  EventType, ConnectionComplete, command_complete, disconnect_complete, number_of_completed_packets,
  connection_complete, long_term_key_request,
}
use bleps.Ble
use bleps.Ble.{PollResult, event, async_data}
use bleps.Crypto.{Primitives}
use bleps.Sm
use bleps.Sm.Consistent.{Consistent, handle-Consistent}
use bleps.Server
use bleps.Server.{NotificationData, base_mtu}
use bleps.Server.Invariant.{Invariant}
use bleps.Server.Invariant.Rounds.{handle_att-Kept, notified-Kept, with_hci}
use bleps.Secure.{
  SecureServer, Outcome, world_of, connected, reply_with_key, handle_event, handle_security,
  handle_att, handle_packet, handle_poll_result, do_work_with_notification,
}

module _ {S : Type 0} (p : Primitives) (t : List (Uuid × ℕ × ℕ)) (limit : ℕ) where
  -- The attribute server's invariant, beside the security manager's.
  pub record Holds (s : SecureServer S) : Type 0 where
    pub serves : Invariant t limit s.server
    pub secures : Consistent p s.manager

  abbrev Kept : Run (Outcome S) → Type 0
  Kept m = Ends (λ r. Holds r.1) m

  handle_security-Kept :
      (s : SecureServer S) (src : ℕ) (packet : L2capPacket)
      → Holds s
      → Kept (handle_security p s src packet)
  unfolding handle_security
  handle_security-Kept s src packet h =
      bind-Ends (Sm.handle p (world_of s) src packet.payload) _
        (handle-Consistent p (world_of s) src packet.payload h.secures)
        λ (r, w) c.
          let i = h.serves in
          let kept : Invariant t limit (record s.server { hci = w.hci; app = w.app }) = record {
            same_table = i.same_table;
            same_limit = i.same_limit;
            bounded = i.bounded;
          } in
          result-Ends r _ _ (λ e. done-Ends _ (record { serves = kept; secures = c.0 }))
            λ u. done-Ends _ (record { serves = kept; secures = c.0 })

  handle_packet-Kept :
      (s : SecureServer S) (packet : AclPacket) → Holds s → Kept (handle_packet p s packet)
  unfolding handle_packet handle_att
  handle_packet-Kept s packet h = bind-any (L2cap.decode packet) _ λ decoded.
      result-Ends decoded _ _ (λ e. done-Ends _ h)
        λ (src, l2cap).
          if-Ends (l2cap.channel == sm_channel) _ _ (handle_security-Kept s src l2cap h) (
            bind-Ends (Server.handle_att s.server src l2cap) _
              (handle_att-Kept t limit s.server src l2cap h.serves)
              λ r i. done-Ends _ (record { serves = i; secures = h.secures }))

  reply_with_key-Holds :
      (fuel : ℕ) (s : SecureServer S) (handle : ℕ) (ltk : Option ℕ)
      → Holds s
      → Ends (λ s'. Holds s') (reply_with_key fuel s handle ltk)
  unfolding reply_with_key
  reply_with_key-Holds fuel s handle none h = done-Ends _ h
  reply_with_key-Holds fuel s handle (some ltk) h =
      bind-any (Ble.cmd_long_term_key_request_reply fuel handle ltk s.server.hci) _ λ (r, hci).
        bind-any (unwrap_ok r) _ λ e.
          done-Ends _
            (record { serves = with_hci t limit s.server hci h.serves; secures = h.secures })

  connected-Holds : (s : SecureServer S) (c : ConnectionComplete) → Holds s → Holds (connected s c)
  unfolding connected
  connected-Holds s c h = elim (Bool-cases (c.status == 0)) [
    | inl good ↦ rw good (record { serves = h.serves; secures = h.secures })
    | inr bad ↦ rw bad h
  ]

  module _ (at_least : base_mtu ≤ limit) (fuel : ℕ) where
    handle_event-Kept :
        (s : SecureServer S) (e : EventType)
        → Holds s
        → Ends (λ r. Holds r.1) (handle_event fuel s e)
    unfolding handle_event
    handle_event-Kept s (disconnect_complete handle status reason) h =
        let i = h.serves in
        done-Ends _ (record {
          serves = record {
            same_table = i.same_table;
            same_limit = i.same_limit;
            bounded = at_least;
          };
          secures = h.secures;
        })
    handle_event-Kept s (connection_complete c) h = done-Ends _ (connected-Holds s c h)
    handle_event-Kept s (long_term_key_request handle x y) h =
        bind-Ends (reply_with_key fuel s handle s.manager.ltk) _
          (reply_with_key-Holds fuel s handle s.manager.ltk h) λ s' h'. done-Ends _ h'
    handle_event-Kept s (command_complete n code payload) h = done-Ends _ h
    handle_event-Kept s (number_of_completed_packets n x y) h = done-Ends _ h
    handle_event-Kept s EventType.unknown h = done-Ends _ h

    handle_poll_result-Kept :
        (s : SecureServer S) (packet : Option PollResult)
        → Holds s
        → Kept (handle_poll_result p fuel s packet)
    unfolding handle_poll_result
    handle_poll_result-Kept s none h = done-Ends _ h
    handle_poll_result-Kept s (some (event e)) h =
        bind-Ends (handle_event fuel s e) _ (handle_event-Kept s e h) λ r h'. done-Ends _ h'
    handle_poll_result-Kept s (some (async_data packet)) h = handle_packet-Kept s packet h

    -- Whatever the controller sends, a round of the server with a security manager that returns
    -- keeps the attribute server's invariant, and leaves the security manager consistent.
    pub do_work_with_notification-Holds :
        (s : SecureServer S) (notification : Option NotificationData)
        → Holds s
        → Ends (λ r. Holds r.1) (do_work_with_notification p fuel s notification)
    unfolding do_work_with_notification
    do_work_with_notification-Holds s notification h =
        bind-Ends
          (elim notification [
            | some n ↦ Server.send_notification s.server n
            | none ↦ done s.server
          ])
          _ (notified-Kept t limit at_least s.server notification h.serves)
          λ server i. bind-any (Ble.poll server.hci) _ λ r.
            handle_poll_result-Kept _ r.0
              (record { serves = with_hci t limit server r.1 i; secures = h.secures })
