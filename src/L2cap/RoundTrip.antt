-- ===== src/L2cap/RoundTrip.antt =====
-- `encode` and `decode` of L2CAP packets.
use bleps.Common.{
  ℕ, ◌+◌, ◌≤◌, ◌≡◌, List, [], ◌∷◌, arith, length, done, Returns, bind-Returns, weaken, ok, low_byte,
  high_byte, u16_of, u16_of-bytes,
}
use bleps.Data.{Data, capacity, index, set_byte}
use bleps.Data.Buffer.{
  Represents, as_slice-then, new-then, append-then, set_byte-Represents, checked_sub_lem,
  slice_from_lem, new-Represents, as_slice-Represents,
}
use bleps.Acl.{AclPacket}
use bleps.L2cap.{decode, encode, encode_for, encode_sm, att_channel, sm_channel}

-- The bytes of an L2CAP packet on a channel below 256.
abbrev pub l2cap_bytes : ℕ → List ℕ → List ℕ
l2cap_bytes channel payload =
    low_byte (length payload) ∷ high_byte (length payload) ∷ channel ∷ 0 ∷ payload

encode_for-Represents :
    {att_data : Data} {bytes : List ℕ} (channel : ℕ)
    → Represents att_data bytes
    → length bytes + 4 ≤ capacity
    → Returns (encode_for channel att_data) (λ d. Represents d (l2cap_bytes channel bytes))
unfolding encode_for
encode_for-Represents {att_data} {bytes} channel r h =
    new-then (0 ∷ 0 ∷ channel ∷ 0 ∷ []) (omega arith) λ d₀ r₀. as_slice-then _ r (
      append-then bytes r₀ (omega arith) λ d₁ r₁.
        rw (checked_sub_lem d₁.len 4 (length bytes) (omega (arith, r₁.size))) (
          bind-Returns (set_byte d₁ 0 (low_byte (length bytes))) _
            (set_byte-Represents 0 (low_byte (length bytes)) r₁ (omega arith))
            λ d₂ r₂. set_byte-Represents 1 (high_byte (length bytes)) r₂ (omega arith)))

pub encode-Represents :
    {att_data : Data} {bytes : List ℕ}
    → Represents att_data bytes
    → length bytes + 4 ≤ capacity
    → Returns (encode att_data) (λ d. Represents d (l2cap_bytes att_channel bytes))
unfolding encode
encode-Represents r h = encode_for-Represents att_channel r h

pub encode_sm-Represents :
    {att_data : Data} {bytes : List ℕ}
    → Represents att_data bytes
    → length bytes + 4 ≤ capacity
    → Returns (encode_sm att_data) (λ d. Represents d (l2cap_bytes sm_channel bytes))
unfolding encode_sm
encode_sm-Represents r h = encode_for-Represents sm_channel r h

pub decode-Represents :
    (packet : AclPacket) (channel : ℕ) (bytes : List ℕ)
    → Represents packet.payload (l2cap_bytes channel bytes)
    → (payload : Data) × (decode packet
        ≡ done (
            ok
              (packet.handle, record { len = length bytes; channel = channel; payload = payload })))
      × Represents payload bytes
unfolding decode index
decode-Represents packet channel bytes r =
    let (payload, e, rp) = new-Represents bytes (omega (arith, r.full)) in
    (
      payload,
      rw (
        as_slice-Represents r,
        slice_from_lem (l2cap_bytes channel bytes) 4 (omega arith),
        e,
        u16_of-bytes (length bytes) (omega (arith, r.full)),
        no_high channel,
      ),
      rp,
    )
  where
    no_high : (c : ℕ) → u16_of c 0 ≡ c
    no_high c = omega arith

-- `decode` of a packet whose payload `encode` built from at most 252 bytes gives back those bytes,
-- their number, channel 4, and the packet's handle.
pub decode-encode :
    {att_data : Data} {bytes : List ℕ} (packet : AclPacket)
    → Represents att_data bytes
    → length bytes + 4 ≤ capacity
    → Returns (encode att_data) (λ d.
      (payload : Data) × (decode (record packet { payload = d })
        ≡ done (
            ok (
              packet.handle,
              record { len = length bytes; channel = att_channel; payload = payload },
            )))
      × Represents payload bytes)
decode-encode {att_data} {bytes} packet r h =
    weaken (encode att_data) (encode-Represents r h)
      λ d rd. decode-Represents (record packet { payload = d }) att_channel bytes rd
