-- ===== src/Acl/Read/Laws.antt =====
-- `AclPacket::read` of bleps/src/acl.rs (38-58) on what `AclPacket::encode` (111-138) makes.
use bleps.Common.{ℕ, ◌≤◌, ◌<◌, ◌≡◌, refl, Option, List, ◌∷◌, ◌+◌, arith, length, done, u16_of-bytes}
use bleps.Data.{Data, capacity}
use bleps.Data.Buffer.{Represents}
use bleps.Hci
use bleps.Hci.{Hci, ◌>>=◌, read_unwrap, read_data}
use bleps.Hci.Reads.{delivering, read_data_lem}
use bleps.Acl.{BoundaryFlag, HostBroadcastFlag, encode, packet_type_async_data}
use bleps.Acl.RoundTrip.{encode-Represents, acl_bytes, mirrored, decode_raw_handle-raw_handle_of}
use bleps.Acl.Read.{read}

-- The bytes of a packet behind its type byte are read as that packet, and nothing behind it is taken.
pub read_lem :
    (handle : ℕ) (pb : BoundaryFlag) (bc : HostBroadcastFlag) (bytes : List ℕ)
    (rest : List (Option ℕ)) (h : Hci)
    → handle < 4096
    → length bytes ≤ capacity
    → (d : Data) × (read (delivering (acl_bytes handle pb bc bytes) rest h)
        ≡ done (
          record { handle = handle; boundary_flag = pb; bc_flag = mirrored bc; payload = d },
          record h { reads = rest },
        ))
      × Represents d bytes
unfolding read read_unwrap Hci.read
read_lem handle pb bc bytes rest h hh hb =
    let (d, e, r) = read_data_lem bytes rest h hb in
    (
      d,
      rw
          (
            decode_raw_handle-raw_handle_of handle pb bc hh,
            u16_of-bytes (length bytes) (omega arith),
            ◌>>=◌,
            e,
          )
          refl,
      r,
    )

-- What `AclPacket::encode` makes of a 12-bit handle, the two flags and a payload that leaves room for
-- the five bytes of the header in a buffer is the type byte and bytes from which
-- `AclPacket::read` gives the same packet: handle, boundary flag, broadcast bits and payload.
-- Nothing behind the packet is taken.
pub read-encode :
    {payload : Data} {bytes : List ℕ} (handle : ℕ) (pb : BoundaryFlag) (bc : HostBroadcastFlag)
    (rest : List (Option ℕ)) (h : Hci)
    → Represents payload bytes
    → handle < 4096
    → length bytes + 5 ≤ capacity
    → (encoded : Data) × (wire : List ℕ) × (d : Data) × (encode handle pb bc payload ≡ done encoded)
      × Represents encoded (packet_type_async_data ∷ wire)
      × (read (delivering wire rest h)
          ≡ done (
            record { handle = handle; boundary_flag = pb; bc_flag = mirrored bc; payload = d },
            record h { reads = rest },
          ))
      × Represents d bytes
read-encode {payload} {bytes} handle pb bc rest h r small fits =
    let (encoded, e, re) = encode-Represents handle pb bc r fits in
    let (d, reads, rd) = read_lem handle pb bc bytes rest h small (omega arith) in
    (encoded, acl_bytes handle pb bc bytes, d, e, re, reads, rd)
