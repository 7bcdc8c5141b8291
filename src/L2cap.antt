-- ===== src/L2cap.antt =====
-- bleps/src/l2cap.rs: `L2capPacket`, its `decode`, `encode` and `encode_sm`.
pub mod RoundTrip
use bleps.Common.{ℕ, List, [], ◌∷◌, Run, done, ◌>>=◌, Result, ok, low_byte, high_byte, u16_of}
use bleps.Data
use bleps.Data.{Data, as_slice, index, slice_from, append, set_byte, checked_sub}
use bleps.Acl.{AclPacket}

pub record L2capPacket : Type 0 where
  pub len : ℕ
  pub channel : ℕ
  pub payload : Data

pub data L2capDecodeError : Type 0 where
  other : L2capDecodeError

-- The field `length` of the source is `len`.
unfoldable pub decode : AclPacket → Run (Result L2capDecodeError (ℕ × L2capPacket))
decode packet = do
  bytes ← as_slice packet.payload
  len0 ← index bytes 0
  len1 ← index bytes 1
  channel0 ← index bytes 2
  channel1 ← index bytes 3
  payload ← Data.new (← slice_from bytes 4)
  done (
      ok (
        packet.handle,
        record { len = u16_of len0 len1; channel = u16_of channel0 channel1; payload = payload },
      ))

abbrev pub att_channel : ℕ
att_channel = 0x04

abbrev pub sm_channel : ℕ
sm_channel = 0x06

-- `encode` and `encode_sm` differ in the low byte of the channel.
unfoldable pub encode_for : ℕ → Data → Run Data
encode_for channel att_data = do
  d ← Data.new (0 ∷ 0 ∷ channel ∷ 0x00 ∷ [])
  d ← append d (← as_slice att_data)
  len ← checked_sub d.len 4
  d ← set_byte d 0 (low_byte len)
  set_byte d 1 (high_byte len)

unfoldable pub encode : Data → Run Data
unfolding encode_for
encode att_data = encode_for att_channel att_data

unfoldable pub encode_sm : Data → Run Data
unfolding encode_for
encode_sm att_data = encode_for sm_channel att_data
