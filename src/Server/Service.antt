-- ===== src/Server/Service.antt =====
-- A request from the wire to the answer: `do_work` of bleps/src/attribute_server.rs (128-297) over
-- `poll` of bleps/src/lib.rs and the decoders of l2cap.rs and att.rs.
use bleps.Common.{
  ℕ, suc, ◌+◌, ◌≤◌, ◌≡◌, refl, ◌∙◌, min, Option, some, List, [], ◌∷◌, arith, All, length, get_elem?,
  take, done, ◌>>=◌, ok, u16_le, IsU16,
}
use bleps.Data.{capacity}
use bleps.Data.Buffer.{new-Represents, append_u16-Represents}
use bleps.Hci.{Hci}
use bleps.Hci.Reads.{delivering}
use bleps.Acl.RoundTrip.{mirrored}
use bleps.L2cap.{att_channel}
use bleps.L2cap.RoundTrip.{l2cap_bytes, decode-Represents}
use bleps.Att.{Att}
use bleps.Att.RoundTrip.{Request, IsRequest, Matches, pdu, decode_request}
use bleps.Att.Response.{
  att_read_response_opcode, att_exchange_mtu_response_opcode, new_att_exchange_mtu_response,
}
use bleps.Attribute.{Attribute}
use bleps.Attribute.Memory.{bytes_of}
use bleps.Ble.Reassembly.{Fragment, IsSent, carried, stream, poll_reassembles}
use bleps.Server.{
  Server, do_work, do_work_with_notification, handle_poll_result, handle_packet, handle_att,
  dispatch, did_work, handle_exchange_mtu,
}
use bleps.Server.Handles.{Numbered}
use bleps.Server.Replies.{sent, write_att_lem}
use bleps.Server.Reads.{handle_read_req_lem}

module _ {S : Type 0} where
  -- The server takes the smaller of the client's and its own size as the MTU, and answers with it.
  pub handle_exchange_mtu_lem :
      (server : Server S) (src_handle mtu : ℕ)
      → let agreed = min mtu server.max_mtu in
        handle_exchange_mtu server src_handle mtu
        ≡ done (
            sent
              (record server { mtu = agreed })
              src_handle
              (att_exchange_mtu_response_opcode ∷ u16_le agreed))
  unfolding handle_exchange_mtu new_att_exchange_mtu_response
  handle_exchange_mtu_lem server src_handle mtu =
      let agreed = min mtu server.max_mtu in
      let (d, e, r) = new-Represents (att_exchange_mtu_response_opcode ∷ []) (omega arith) in
      let (d', e', r') = append_u16-Represents agreed r (omega arith) in
      rw (e, e') (write_att_lem (record server { mtu = agreed }) src_handle r' (omega arith))

  -- A request that arrives in ACL fragments, whatever their number, is dispatched as that request,
  -- with the connection's handle, and nothing behind it is taken from the wire.
  pub serve_request :
      (r : Request) (f : Fragment) (fs : List Fragment) (server : Server S) (rest : List (Option ℕ))
      (h : Hci)
      → server.hci ≡ delivering (stream (f ∷ fs)) rest h
      → IsRequest r
      → IsSent f
      → All IsSent fs
      → 4 ≤ length f.bytes
      → carried (f ∷ fs) ≡ l2cap_bytes att_channel (pdu r)
      → length (pdu r) + 4 ≤ capacity
      → (a : Att) × Matches r a
        × (do_work server
            ≡ dispatch (record server { hci = record h { reads = rest } }) f.handle a >>= λ server'.
                done (ok did_work, server'))
  unfolding do_work do_work_with_notification handle_poll_result handle_packet handle_att
  serve_request r f fs server rest h wire valid s all four whole fits =
      let (d, polled, rd) =
        poll_reassembles f fs att_channel (pdu r) rest h s all four whole fits in
      let (payload, split, rp) =
        decode-Represents
          (record { handle = f.handle; boundary_flag = f.pb; bc_flag = mirrored f.bc; payload = d })
          att_channel (pdu r) rd in
      let (a, decoded, m) =
        decode_request r (record { len = length (pdu r); channel = att_channel; payload = payload })
          valid rp in
      (a, m, rw (wire, polled, split, decoded) refl)

  -- A read of an attribute in memory, from the wire to the wire: the only effect of the round is
  -- that the request is taken and the answer is sent, on the handle of the request, with the
  -- attribute's bytes cut to the MTU.
  pub serve_read :
      (i : ℕ) (att : Attribute S) (xs : List ℕ) (f : Fragment) (fs : List Fragment)
      (server : Server S) (rest : List (Option ℕ)) (h : Hci)
      → server.hci ≡ delivering (stream (f ∷ fs)) rest h
      → Numbered 1 server.attributes
      → get_elem? server.attributes i ≡ some att
      → bytes_of att.content ≡ some xs
      → server.mtu + 9 ≤ capacity
      → IsU16 (suc i)
      → IsSent f
      → All IsSent fs
      → 4 ≤ length f.bytes
      → carried (f ∷ fs) ≡ l2cap_bytes att_channel (pdu (Request.read (suc i)))
      → do_work server
        ≡ done (
          ok did_work,
          sent
              (record server { hci = record h { reads = rest } })
              f.handle
              (take server.mtu (att_read_response_opcode ∷ xs)),
        )
  unfolding dispatch
  serve_read i att xs f fs server rest h wire numbered e m room small s all four whole =
      let (a, is_read, served) =
        serve_request (Request.read (suc i)) f fs server rest h wire small s all four whole
          (omega arith) in
      served
      ∙ rw
          (
            is_read,
            handle_read_req_lem (record server { hci = record h { reads = rest } }) f.handle
                numbered i att xs e m room,
          )
          refl
