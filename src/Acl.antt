-- ===== src/Acl.antt =====
-- bleps/src/acl.rs: `AclPacket`, `decode_raw_handle` and `encode`. `AclPacket::read` is in `Read`.
pub mod Read
pub mod RoundTrip
use bleps.Common.{
  ℕ, ◌+◌, ◌*◌, ◌/◌, ◌%◌, ◌^◌, List, [], ◌∷◌, Run, done, panic, ◌>>=◌, bit_or, low_byte, high_byte,
  u16_of, u16_le, ◌==◌, if◌then◌else◌,
}
use bleps.Data
use bleps.Data.{Data, as_slice, append}

pub data BoundaryFlag : Type 0 where
  first_non_auto_flushable continuing first_auto_flushable complete : BoundaryFlag

-- From controller to host.
pub data ControllerBroadcastFlag : Type 0 where
  point_to_point not_parked_state parked_state reserved : ControllerBroadcastFlag

-- From host to controller.
pub data HostBroadcastFlag : Type 0 where
  no_broadcast active_slave_broadcast parked_slave_broadcast reserved : HostBroadcastFlag

-- The field `data` of the source is `payload`.
pub record AclPacket : Type 0 where
  pub handle : ℕ
  pub boundary_flag : BoundaryFlag
  pub bc_flag : ControllerBroadcastFlag
  pub payload : Data

-- The bits `shift .. shift + width` of `x`: `(x & mask) >> shift`.
abbrev pub field : ℕ → ℕ → ℕ → ℕ
field x shift width = x / 2 ^ shift % 2 ^ width

unfoldable pub boundary_flag_of : ℕ → Run BoundaryFlag
boundary_flag_of pb =
    if pb == 0b00
    then done first_non_auto_flushable
    else if pb == 0b01
    then done continuing
    else if pb == 0b10
    then done first_auto_flushable
    else if pb == 0b11
    then done complete
    else panic

unfoldable pub bc_flag_of : ℕ → Run ControllerBroadcastFlag
bc_flag_of bc =
    if bc == 0b00
    then done point_to_point
    else if bc == 0b01
    then done not_parked_state
    else if bc == 0b10
    then done parked_state
    else if bc == 0b11
    then done ControllerBroadcastFlag.reserved
    else panic

-- The argument is the two bytes of the buffer.
unfoldable pub decode_raw_handle : ℕ → ℕ → Run (BoundaryFlag × ControllerBroadcastFlag × ℕ)
decode_raw_handle lo hi = do
  let raw_handle : ℕ = u16_of lo hi
  pb ← boundary_flag_of (field raw_handle 12 2)
  bc ← bc_flag_of (field raw_handle 14 2)
  done (pb, bc, field raw_handle 0 12)

unfoldable pub boundary_bits : BoundaryFlag → ℕ
boundary_bits first_non_auto_flushable = 0b00
boundary_bits continuing = 0b01
boundary_bits first_auto_flushable = 0b10
boundary_bits complete = 0b11

unfoldable pub host_bits : HostBroadcastFlag → ℕ
host_bits no_broadcast = 0b00
host_bits active_slave_broadcast = 0b01
host_bits parked_slave_broadcast = 0b10
host_bits HostBroadcastFlag.reserved = 0b11

-- The `u16` behind the type byte: the handle is not masked.
unfoldable pub raw_handle_of : ℕ → BoundaryFlag → HostBroadcastFlag → ℕ
raw_handle_of handle pb bc =
    bit_or (bit_or handle (boundary_bits pb * 2 ^ 12)) (host_bits bc * 2 ^ 14)

abbrev pub packet_type_async_data : ℕ
packet_type_async_data = 0x02

unfoldable pub encode : ℕ → BoundaryFlag → HostBroadcastFlag → Data → Run Data
encode handle pb bc payload = do
  d ← Data.new (packet_type_async_data ∷ [])
  d ← append d (u16_le (raw_handle_of handle pb bc))
  d ← append d (u16_le payload.len)
  append d (← as_slice payload)
