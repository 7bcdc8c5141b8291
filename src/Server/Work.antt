-- ===== src/Server/Work.antt =====
-- `do_work_with_notification` of bleps/src/attribute_server.rs (132-297).
use bleps.Common.{ℕ, Option, none, some, Run, done, ◌>>=◌, Result, ok, err, ◌==◌, if◌then◌else◌}
use bleps.Data.{Data, as_slice, append, limit_len, checked_sub}
use bleps.Acl.{AclPacket}
use bleps.L2cap
use bleps.L2cap.{L2capPacket, L2capDecodeError, sm_channel}
use bleps.Att
use bleps.Att.{
  Att, AttDecodeError, read_by_group_type_req, read_by_type_req, read_req, write_req, write_cmd,
  exchange_mtu, find_by_type_value, find_information, prepare_write_req, execute_write_req,
  read_blob_req,
}
use bleps.Att.Response.{new_att_value_ntf}
use bleps.Event.{
  EventType, command_complete, disconnect_complete, number_of_completed_packets,
  connection_complete, long_term_key_request,
}
use bleps.Ble
use bleps.Ble.{PollResult, event, async_data}
use bleps.Server.State.{Server, base_mtu, write_att}
use bleps.Server.Handlers.{
  handle_read_by_group_type_req, handle_read_by_type_req, handle_read_req, handle_write_cmd,
  handle_write_req, handle_exchange_mtu, handle_find_type_value, handle_find_information,
  handle_prepare_write, handle_execute_write, handle_read_blob,
}

pub data WorkResult : Type 0 where
  did_work got_disconnected : WorkResult

pub data AttributeServerError : Type 0 where
  l2cap_error : L2capDecodeError → AttributeServerError
  att_error : AttDecodeError → AttributeServerError
  security_manager_error : AttributeServerError

pub record NotificationData : Type 0 where
  pub handle : ℕ
  pub payload : Data

module _ {S : Type 0} where
  unfoldable pub send_notification : Server S → NotificationData → Run (Server S)
  send_notification server notification = do
    room ← checked_sub server.mtu 3
    d ← new_att_value_ntf notification.handle
    d ← append d (← as_slice (limit_len notification.payload room))
    write_att server server.src_handle d

  -- The `match` on a decoded request.
  unfoldable pub dispatch : Server S → ℕ → Att → Run (Server S)
  dispatch server src_handle (read_by_group_type_req start end group_type) =
      handle_read_by_group_type_req server src_handle start end group_type
  dispatch server src_handle (read_by_type_req start end attribute_type) =
      handle_read_by_type_req server src_handle start end attribute_type
  dispatch server src_handle (read_req handle) = handle_read_req server src_handle handle
  dispatch server src_handle (write_cmd handle payload) =
      handle_write_cmd (record server { src_handle = src_handle }) src_handle handle payload
  dispatch server src_handle (write_req handle payload) =
      handle_write_req (record server { src_handle = src_handle }) src_handle handle payload
  dispatch server src_handle (exchange_mtu mtu) = handle_exchange_mtu server src_handle mtu
  dispatch server src_handle (find_by_type_value start end att_type att_value) =
      handle_find_type_value server src_handle start end att_type att_value
  dispatch server src_handle (find_information start end) =
      handle_find_information server src_handle start end
  dispatch server src_handle (prepare_write_req handle offset payload) =
      handle_prepare_write server src_handle handle offset payload
  dispatch server src_handle (execute_write_req flags) =
      handle_execute_write server src_handle flags
  dispatch server src_handle (read_blob_req handle offset) =
      handle_read_blob server src_handle handle offset

  -- A packet of the attribute protocol.
  unfoldable pub handle_att :
      Server S → ℕ → L2capPacket → Run (Result {0, 0} AttributeServerError WorkResult × Server S)
  handle_att server src_handle l2cap_packet = do
    request ← Att.decode l2cap_packet
    elim request [
      | err e ↦ done (err (att_error e), server)
      | ok att ↦ do server ← dispatch server src_handle att; done (ok did_work, server)
    ]

  -- A packet of asynchronous data. Without `crypto` the security channel is passed over.
  unfoldable pub handle_packet :
      Server S → AclPacket → Run (Result {0, 0} AttributeServerError WorkResult × Server S)
  handle_packet server packet = do
    l2cap ← L2cap.decode packet
    elim l2cap [
      | err e ↦ done (err (l2cap_error e), server)
      | ok (src_handle, l2cap_packet) ↦
          if l2cap_packet.channel == sm_channel
          then done (ok did_work, server)
          else handle_att server src_handle l2cap_packet
    ]

  unfoldable pub handle_event : Server S → EventType → WorkResult × Server S
  handle_event server (disconnect_complete handle status reason) =
      (got_disconnected, record server { mtu = base_mtu })
  handle_event server (connection_complete c) = (did_work, server)
  handle_event server (long_term_key_request handle random diversifier) = (did_work, server)
  handle_event server (command_complete n code payload) = (did_work, server)
  handle_event server (number_of_completed_packets n handles packets) = (did_work, server)
  handle_event server EventType.unknown = (did_work, server)

  -- What is done with the packet that `poll` returned.
  unfoldable pub handle_poll_result :
      Server S → Option PollResult → Run (Result {0, 0} AttributeServerError WorkResult × Server S)
  handle_poll_result server none = done (ok did_work, server)
  handle_poll_result server (some (event e)) =
      let (r, server') = handle_event server e in done (ok r, server')
  handle_poll_result server (some (async_data packet)) = handle_packet server packet

  unfoldable pub do_work_with_notification :
      Server S
      → Option NotificationData
      → Run (Result {0, 0} AttributeServerError WorkResult × Server S)
  do_work_with_notification server notification_data = do
    server ← elim notification_data [
      | some notification ↦ send_notification server notification
      | none ↦ done server
    ]
    (packet, hci) ← Ble.poll server.hci
    handle_poll_result (record server { hci = hci }) packet

  unfoldable pub do_work : Server S → Run (Result {0, 0} AttributeServerError WorkResult × Server S)
  do_work server = do_work_with_notification server none
