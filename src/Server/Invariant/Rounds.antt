-- ===== src/Server/Invariant/Rounds.antt =====
-- A round of `do_work_with_notification` of bleps/src/attribute_server.rs (132-297) keeps the
-- invariant.
use bleps.Common.{
  result-Ends, Ends, done-Ends, if-Ends, bind-Ends, bind-any, ℕ, ◌≤◌, Option, none, some, List,
  done, Result, ◌==◌,
}
use bleps.Data.{as_slice, append, checked_sub, limit_len}
use bleps.Att
use bleps.Att.{
  Uuid, Att, AttDecodeError, read_by_group_type_req, read_by_type_req, read_req, write_req,
  write_cmd, exchange_mtu, find_by_type_value, find_information, prepare_write_req,
  execute_write_req, read_blob_req,
}
use bleps.Att.Response.{new_att_value_ntf}
use bleps.Acl.{AclPacket}
use bleps.L2cap
use bleps.L2cap.{L2capPacket, L2capDecodeError, sm_channel}
use bleps.Event.{
  EventType, command_complete, disconnect_complete, number_of_completed_packets,
  connection_complete, long_term_key_request,
}
use bleps.Hci.{Hci}
use bleps.Ble
use bleps.Ble.{PollResult, event, async_data}
use bleps.Server
use bleps.Server.{
  Server, WorkResult, did_work, AttributeServerError, att_error, l2cap_error, NotificationData,
}
use bleps.Server.Invariant.{Invariant, Kept, write_att-Kept, respond-Kept}
use bleps.Server.Invariant.Handlers.{
  handle_read_by_group_type_req-Kept, handle_read_by_type_req-Kept,
}
use bleps.Server.Invariant.Requests.{
  Second, handle_write_cmd-Kept, handle_write_req-Kept, handle_read_req-Kept, handle_read_blob-Kept,
  handle_exchange_mtu-Kept, handle_find_information-Kept, handle_prepare_write-Kept,
}

abbrev pub Outcome : Type 0
Outcome = Result {0, 0} AttributeServerError WorkResult

module _ {S : Type 0} (t : List (Uuid × ℕ × ℕ)) (limit : ℕ) where
  with_src :
      (server : Server S) (src : ℕ)
      → Invariant t limit server
      → Invariant t limit (record server { src_handle = src })
  with_src server src h = record {
    same_table = h.same_table;
    same_limit = h.same_limit;
    bounded = h.bounded;
  }

  pub with_hci :
      (server : Server S) (hci : Hci)
      → Invariant t limit server
      → Invariant t limit (record server { hci = hci })
  with_hci server hci h = record {
    same_table = h.same_table;
    same_limit = h.same_limit;
    bounded = h.bounded;
  }

  dispatch-Kept :
      (server : Server S) (src : ℕ) (att : Att)
      → Invariant t limit server
      → Kept t limit (Server.dispatch server src att)
  unfolding Server.dispatch Server.handle_find_type_value Server.handle_execute_write
  dispatch-Kept server src (read_by_group_type_req start end u) h =
      handle_read_by_group_type_req-Kept t limit server h src start end u
  dispatch-Kept server src (read_by_type_req start end u) h =
      handle_read_by_type_req-Kept t limit server h src start end u
  dispatch-Kept server src (read_req handle) h = handle_read_req-Kept t limit server h src handle
  dispatch-Kept server src (write_cmd handle payload) h =
      handle_write_cmd-Kept t limit _ (with_src server src h) src handle payload
  dispatch-Kept server src (write_req handle payload) h =
      handle_write_req-Kept t limit _ (with_src server src h) src handle payload
  dispatch-Kept server src (exchange_mtu mtu) h = handle_exchange_mtu-Kept t limit server h src mtu
  dispatch-Kept server src (find_by_type_value start end u v) h =
      respond-Kept t limit server src _ h
  dispatch-Kept server src (find_information start end) h =
      handle_find_information-Kept t limit server h src start end
  dispatch-Kept server src (prepare_write_req handle offset payload) h =
      handle_prepare_write-Kept t limit server h src handle offset payload
  dispatch-Kept server src (execute_write_req flags) h = respond-Kept t limit server src _ h
  dispatch-Kept server src (read_blob_req handle offset) h =
      handle_read_blob-Kept t limit server h src handle offset

  pub handle_att-Kept :
      (server : Server S) (src : ℕ) (packet : L2capPacket)
      → Invariant t limit server
      → Ends (Second Outcome t limit) (Server.handle_att server src packet)
  unfolding Server.handle_att
  handle_att-Kept server src packet h = bind-any (Att.decode packet) _ λ request.
      result-Ends request _ _ (λ e. done-Ends _ h)
        λ att.
          bind-Ends (Server.dispatch server src att) _ (dispatch-Kept server src att h)
            λ server' h'. done-Ends _ h'

  handle_packet-Kept :
      (server : Server S) (packet : AclPacket)
      → Invariant t limit server
      → Ends (Second Outcome t limit) (Server.handle_packet server packet)
  unfolding Server.handle_packet
  handle_packet-Kept server packet h = bind-any (L2cap.decode packet) _ λ decoded.
      result-Ends decoded _ _ (λ e. done-Ends _ h)
        λ (src, l2cap).
          if-Ends (l2cap.channel == sm_channel) _ _ (done-Ends _ h)
            (handle_att-Kept server src l2cap h)

  module _ (at_least : Server.base_mtu ≤ limit) where
    pub handle_poll_result-Kept :
        (server : Server S) (packet : Option PollResult)
        → Invariant t limit server
        → Ends (Second Outcome t limit) (Server.handle_poll_result server packet)
    unfolding Server.handle_poll_result Server.handle_event
    handle_poll_result-Kept server none h = done-Ends _ h
    handle_poll_result-Kept server (some (event (disconnect_complete handle status reason))) h =
        done-Ends _
          (record { same_table = h.same_table; same_limit = h.same_limit; bounded = at_least })
    handle_poll_result-Kept server (some (event (connection_complete c))) h = done-Ends _ h
    handle_poll_result-Kept server (some (event (long_term_key_request x y z))) h = done-Ends _ h
    handle_poll_result-Kept server (some (event (command_complete n code payload))) h =
        done-Ends _ h
    handle_poll_result-Kept server (some (event (number_of_completed_packets n x y))) h =
        done-Ends _ h
    handle_poll_result-Kept server (some (event EventType.unknown)) h = done-Ends _ h
    handle_poll_result-Kept server (some (async_data packet)) h = handle_packet-Kept server packet h

    send_notification-Kept :
        (server : Server S) (n : NotificationData)
        → Invariant t limit server
        → Kept t limit (Server.send_notification server n)
    unfolding Server.send_notification
    send_notification-Kept server n h = bind-any (checked_sub server.mtu 3) _ λ room.
        bind-any (new_att_value_ntf n.handle) _ λ d.
          bind-any (as_slice (limit_len n.payload room)) _ λ bytes.
            bind-any (append d bytes) _ λ d'. write_att-Kept t limit server server.src_handle d' h

    pub notified-Kept :
        (server : Server S) (notification : Option NotificationData)
        → Invariant t limit server
        → Kept t limit
            (elim notification [ some n ↦ Server.send_notification server n | none ↦ done server ])
    notified-Kept server none h = done-Ends _ h
    notified-Kept server (some n) h = send_notification-Kept server n h

    -- Whatever the controller sends, and with or without a notification, a round of the server that
    -- returns leaves the table of the attributes (their UUIDs, handles and groups) and the limit of
    -- the MTU as they were, and the MTU within that limit.
    pub do_work_with_notification-Kept :
        (server : Server S) (notification : Option NotificationData)
        → Invariant t limit server
        → Ends (Second Outcome t limit) (Server.do_work_with_notification server notification)
    unfolding Server.do_work_with_notification
    do_work_with_notification-Kept server notification h =
        bind-Ends
          (elim notification [ some n ↦ Server.send_notification server n | none ↦ done server ]) _
          (notified-Kept server notification h)
          λ server' h'.
            bind-any (Ble.poll server'.hci) _
              λ r. handle_poll_result-Kept _ r.0 (with_hci server' r.1 h')
