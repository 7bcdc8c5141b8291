-- ===== src/Att/RoundTrip.antt =====
-- The requests of the attribute protocol as a client encodes them, and `Att::decode` of
-- bleps/src/att.rs (190-305) on them.
use bleps.Common.{
  ℕ, ◌≤◌, ◌≡◌, refl, ◌∙◌, List, [], ◌∷◌, ◌++◌, arith, length, take-all, Run, done, Result, ok,
  IsU16, u16_le, low_byte, high_byte, u16_of-bytes,
}
use bleps.Data
use bleps.Data.{Data, capacity, index, slice, slice_from}
use bleps.Data.Buffer.{
  Represents, new-Represents, append-Represents, as_slice-Represents, slice_from_lem,
}
use bleps.L2cap.{L2capPacket}
use bleps.Att
use bleps.Att.{
  Uuid, uuid16, uuid128, Att, u16_from, decode_uuid, decode_by_type, decode_write, decode_pdu,
  decode, decode_find_by_type_value, decode_find_information, decode_prepare_write,
  decode_read_blob,
}

-- A request, with the bytes that it carries.
pub data Request : Type 0 where
  by_group_type by_type : ℕ → ℕ → Uuid → Request
  read : ℕ → Request
  write write_without_response : ℕ → List ℕ → Request
  mtu : ℕ → Request
  type_value : ℕ → ℕ → ℕ → ℕ → Request
  information : ℕ → ℕ → Request
  prepare_write : ℕ → ℕ → List ℕ → Request
  execute_write : ℕ → Request
  read_blob : ℕ → ℕ → Request

abbrev pub uuid_bytes : Uuid → List ℕ
uuid_bytes (uuid16 u) = u16_le u
uuid_bytes (uuid128 bytes) = bytes

abbrev pub IsUuid : Uuid → Type 0
IsUuid (uuid16 u) = IsU16 u
IsUuid (uuid128 bytes) = length bytes ≡ 16

-- The request's PDU: the opcode, and the fields as little-endian words.
abbrev pub pdu : Request → List ℕ
pdu (by_group_type s e u) = 0x10 ∷ (u16_le s ++ (u16_le e ++ uuid_bytes u))
pdu (by_type s e u) = 0x08 ∷ (u16_le s ++ (u16_le e ++ uuid_bytes u))
pdu (read handle) = 0x0a ∷ u16_le handle
pdu (write handle bytes) = 0x12 ∷ (u16_le handle ++ bytes)
pdu (write_without_response handle bytes) = 0x52 ∷ (u16_le handle ++ bytes)
pdu (mtu size) = 0x02 ∷ u16_le size
pdu (type_value s e u v) = 0x06 ∷ (u16_le s ++ (u16_le e ++ (u16_le u ++ u16_le v)))
pdu (information s e) = 0x04 ∷ (u16_le s ++ u16_le e)
pdu (prepare_write handle offset bytes) = 0x16 ∷ (u16_le handle ++ (u16_le offset ++ bytes))
pdu (execute_write flags) = 0x18 ∷ flags ∷ []
pdu (read_blob handle offset) = 0x0c ∷ (u16_le handle ++ u16_le offset)

abbrev pub IsRequest : Request → Type 0
IsRequest (by_group_type s e u) = IsU16 s × IsU16 e × IsUuid u
IsRequest (by_type s e u) = IsU16 s × IsU16 e × IsUuid u
IsRequest (read handle) = IsU16 handle
IsRequest (write handle bytes) = IsU16 handle
IsRequest (write_without_response handle bytes) = IsU16 handle
IsRequest (mtu size) = IsU16 size
IsRequest (type_value s e u v) = IsU16 s × IsU16 e × IsU16 u × IsU16 v
IsRequest (information s e) = IsU16 s × IsU16 e
IsRequest (prepare_write handle offset bytes) = IsU16 handle × IsU16 offset
IsRequest (execute_write flags) = Unit
IsRequest (read_blob handle offset) = IsU16 handle × IsU16 offset

-- The decoded request has the fields of the request, and its buffer the bytes.
abbrev pub Matches : Request → Att → Type 0
Matches (by_group_type s e u) a = a ≡ Att.read_by_group_type_req s e u
Matches (by_type s e u) a = a ≡ Att.read_by_type_req s e u
Matches (read handle) a = a ≡ Att.read_req handle
Matches (write handle bytes) a = (d : Data) × (a ≡ Att.write_req handle d) × Represents d bytes
Matches (write_without_response handle bytes) a =
    (d : Data) × (a ≡ Att.write_cmd handle d) × Represents d bytes
Matches (mtu size) a = a ≡ Att.exchange_mtu size
Matches (type_value s e u v) a = a ≡ Att.find_by_type_value s e u v
Matches (information s e) a = a ≡ Att.find_information s e
Matches (prepare_write handle offset bytes) a =
    (d : Data) × (a ≡ Att.prepare_write_req handle offset d) × Represents d bytes
Matches (execute_write flags) a = a ≡ Att.execute_write_req flags
Matches (read_blob handle offset) a = a ≡ Att.read_blob_req handle offset

abbrev pub Decodes : Request → Run (Result {0, 0} Att.AttDecodeError Att) → Type 0
Decodes r m = (a : Att) × (m ≡ done (ok a)) × Matches r a

uuid_lem :
    (a b c d : ℕ) (u : Uuid) → IsUuid u → decode_uuid (a ∷ b ∷ c ∷ d ∷ uuid_bytes u) ≡ done (ok u)
unfolding decode_uuid u16_from index slice
uuid_lem a b c d (uuid16 u) h = rw (u16_of-bytes u h)
uuid_lem a b c d (uuid128 bytes) h = rw (h, take-all 16 bytes (omega arith))

decode_by_type_lem :
    (request : ℕ → ℕ → Uuid → Att) (s e : ℕ) (u : Uuid)
    → IsU16 s
    → IsU16 e
    → IsUuid u
    → decode_by_type request (u16_le s ++ (u16_le e ++ uuid_bytes u)) ≡ done (ok (request s e u))
unfolding decode_by_type u16_from index
decode_by_type_lem request s e u hs he hu = rw (
  uuid_lem (low_byte s) (high_byte s) (low_byte e) (high_byte e) u hu,
  u16_of-bytes s hs,
  u16_of-bytes e he,
)

decode_write_lem :
    (request : ℕ → Data → Att) (handle : ℕ) (bytes : List ℕ)
    → IsU16 handle
    → length bytes ≤ capacity
    → (d : Data) × (decode_write request (u16_le handle ++ bytes) ≡ done (ok (request handle d)))
      × Represents d bytes
unfolding decode_write u16_from index Data.default
decode_write_lem request handle bytes h fits =
    let (d₀, e₀, r₀) = new-Represents [] (omega arith) in
    let (d, e, r) = append-Represents bytes r₀ (omega arith) in
    (
      d,
      rw
          (
            e₀,
            slice_from_lem (low_byte handle ∷ high_byte handle ∷ bytes) 2 (omega arith),
            e,
            u16_of-bytes handle h,
          )
          refl,
      r,
    )

decode_of :
    {opcode : ℕ} {payload : List ℕ} (packet : L2capPacket)
    → Represents packet.payload (opcode ∷ payload)
    → decode packet ≡ decode_pdu opcode payload
unfolding decode index
decode_of {opcode} {payload} packet r =
    rw (as_slice-Represents r, slice_from_lem (opcode ∷ payload) 1 (omega arith)) refl

-- Every request of a client is decoded to itself: `decode` of the packet that holds its PDU returns
-- the request with the same handles, offsets, UUID and bytes.
pub decode_request :
    (r : Request) (packet : L2capPacket)
    → IsRequest r
    → Represents packet.payload (pdu r)
    → Decodes r (decode packet)
unfolding decode_pdu index u16_from decode_find_by_type_value decode_find_information
    decode_prepare_write decode_read_blob
decode_request (by_group_type s e u) packet (hs, he, hu) r =
    (_, decode_of packet r ∙ (decode_by_type_lem Att.read_by_group_type_req s e u hs he hu), refl)
decode_request (by_type s e u) packet (hs, he, hu) r =
    (_, decode_of packet r ∙ (decode_by_type_lem Att.read_by_type_req s e u hs he hu), refl)
decode_request (read handle) packet h r =
    (_, decode_of packet r ∙ rw (u16_of-bytes handle h) refl, refl)
decode_request (write handle bytes) packet h r =
    let (d, e, rd) = decode_write_lem Att.write_req handle bytes h (omega (arith, r.full)) in
    (_, decode_of packet r ∙ e, (d, refl, rd))
decode_request (write_without_response handle bytes) packet h r =
    let (d, e, rd) = decode_write_lem Att.write_cmd handle bytes h (omega (arith, r.full)) in
    (_, decode_of packet r ∙ e, (d, refl, rd))
decode_request (mtu size) packet h r = (_, decode_of packet r ∙ rw (u16_of-bytes size h) refl, refl)
decode_request (type_value s e u v) packet (hs, he, hu, hv) r = (
  _,
  decode_of packet r
      ∙ rw (u16_of-bytes s hs, u16_of-bytes e he, u16_of-bytes u hu, u16_of-bytes v hv) refl,
  refl,
)
decode_request (information s e) packet (hs, he) r =
    (_, decode_of packet r ∙ rw (u16_of-bytes s hs, u16_of-bytes e he) refl, refl)
decode_request (prepare_write handle offset bytes) packet (hh, ho) r =
    let (d, e, rd) = new-Represents bytes (omega (arith, r.full)) in
    (
      _,
      decode_of packet r
          ∙ rw
              (
                u16_of-bytes handle hh,
                u16_of-bytes offset ho,
                slice_from_lem (u16_le handle ++ (u16_le offset ++ bytes)) 4 (omega arith),
                e,
              )
              refl,
      (d, refl, rd),
    )
decode_request (execute_write flags) packet h r = (_, decode_of packet r, refl)
decode_request (read_blob handle offset) packet (hh, ho) r =
    (_, decode_of packet r ∙ rw (u16_of-bytes handle hh, u16_of-bytes offset ho) refl, refl)
