-- ===== src/Server/Replies.antt =====
-- What `write_att` of bleps/src/attribute_server.rs (563-578) puts on the wire.
use bleps.Common.{ℕ, ◌+◌, ◌≤◌, ◌≡◌, List, ◌∷◌, ◌++◌, arith, length, done}
use bleps.Data.{Data, capacity}
use bleps.Data.Buffer.{Represents, as_slice-Represents}
use bleps.Hci.Writes.{write_bytes_lem}
use bleps.Acl.{first_auto_flushable, no_broadcast, packet_type_async_data}
use bleps.Acl.RoundTrip as Acl
use bleps.Acl.RoundTrip.{acl_bytes}
use bleps.L2cap.{att_channel}
use bleps.L2cap.RoundTrip.{l2cap_bytes, encode-Represents}
use bleps.Server.{Server, write_att}

-- The bytes of an ATT packet on the wire, from the type byte on.
abbrev pub frame : ℕ → List ℕ → List ℕ
frame handle pdu =
    packet_type_async_data
    ∷ acl_bytes handle first_auto_flushable no_broadcast (l2cap_bytes att_channel pdu)

-- The server after it has sent `pdu`.
abbrev pub sent : {S : Type 0} → Server S → ℕ → List ℕ → Server S
sent server handle pdu = record server {
  hci = record server.hci { written = server.hci.written ++ frame handle pdu };
}

-- `write_att` sends the ATT packet in one ACL packet on channel 4, and changes nothing else, as long
-- as the packet and its nine bytes of headers fit a buffer.
pub write_att_lem :
    {S : Type 0} {d : Data} {pdu : List ℕ} (server : Server S) (handle : ℕ)
    → Represents d pdu
    → length pdu + 9 ≤ capacity
    → write_att server handle d ≡ done (sent server handle pdu)
unfolding write_att
write_att_lem {d} {pdu} server handle r h =
    let (l, el, rl) = encode-Represents r (omega arith) in
    let (a, ea, ra) =
      Acl.encode-Represents handle first_auto_flushable no_broadcast rl (omega arith) in
    rw (el, ea, as_slice-Represents ra, write_bytes_lem (frame handle pdu) server.hci)
