-- ===== src/Command.antt =====
-- bleps/src/command.rs: HCI commands and their encoding; `AdvertisingParameters` and its enums are
-- of bleps/src/lib.rs (181-229).
pub mod Encoding
use bleps.Common.{
  ℕ, ◌+◌, ◌*◌, ◌/◌, ◌%◌, ◌^◌, Bool, ◌&&◌, List, [], ◌∷◌, ◌++◌, Run, done, ◌>>=◌, ◌>>◌, require,
  ◌==◌, ltb, if◌then◌else◌, length, set, take, drop, replicate, low_byte, high_byte, u16_of, u16_le,
  le_bytes,
}
use bleps.Data
use bleps.Data.{Data, as_slice, append, index, copy_at}

abbrev pub controller_ogf : ℕ
controller_ogf = 0x03

abbrev pub reset_ocf : ℕ
reset_ocf = 0x03

abbrev pub set_event_mask_ocf : ℕ
set_event_mask_ocf = 0x01

abbrev pub le_ogf : ℕ
le_ogf = 0x08

abbrev pub set_advertising_parameters_ocf : ℕ
set_advertising_parameters_ocf = 0x06

abbrev pub set_advertising_data_ocf : ℕ
set_advertising_data_ocf = 0x08

abbrev pub set_scan_rsp_data_ocf : ℕ
set_scan_rsp_data_ocf = 0x09

abbrev pub set_advertise_enable_ocf : ℕ
set_advertise_enable_ocf = 0x0a

abbrev pub long_term_key_request_reply_ocf : ℕ
long_term_key_request_reply_ocf = 0x1a

abbrev pub link_control_ogf : ℕ
link_control_ogf = 0x01

abbrev pub disconnect_ocf : ℕ
disconnect_ocf = 0x06

abbrev pub informational_ogf : ℕ
informational_ogf = 0x04

abbrev pub read_bd_addr_ocf : ℕ
read_bd_addr_ocf = 0x09

pub record CommandHeader : Type 0 where
  pub opcode : ℕ
  pub len : ℕ

-- `((ogf as u16) << 10) + ocf`: the shift drops high bits, and the sum must fit `u16`.
unfoldable pub opcode_of : ℕ → ℕ → Run ℕ
opcode_of ogf ocf = do
  let code : ℕ = ogf * 2 ^ 10 % 2 ^ 16 + ocf
  require (ltb code (2 ^ 16))
  done code

unfoldable pub from_bytes : List ℕ → Run CommandHeader
from_bytes bytes = do
  hi ← index bytes 1
  lo ← index bytes 0
  len ← index bytes 2
  done (record { opcode = u16_of lo hi; len = len })

unfoldable pub from_ogf_ocf : ℕ → ℕ → ℕ → Run CommandHeader
from_ogf_ocf ogf ocf len = do
  opcode ← opcode_of ogf ocf
  done (record { opcode = opcode; len = len })

-- `xs[i] = b`.
unfoldable pub store : List ℕ → ℕ → ℕ → Run (List ℕ)
store xs i b = do require (ltb i (length xs)); done (set xs i b)

unfoldable pub write_into : CommandHeader → List ℕ → Run (List ℕ)
unfolding store
write_into header dst = do
  dst ← store dst 0 (low_byte header.opcode)
  dst ← store dst 1 (high_byte header.opcode)
  store dst 2 header.len

-- `self.opcode & 0b1111110000000000) >> 10` and `self.opcode & 0b1111111111`.
unfoldable pub ogf_of : CommandHeader → ℕ
ogf_of header = header.opcode / 2 ^ 10 % 2 ^ 6

unfoldable pub ocf_of : CommandHeader → ℕ
ocf_of header = header.opcode % 2 ^ 10

pub data AdvertisingType : Type 0 where
  adv_ind adv_direct_ind adv_scan_ind adv_non_conn_ind adv_direct_ind_low_duty : AdvertisingType

unfoldable pub advertising_type_byte : AdvertisingType → ℕ
advertising_type_byte adv_ind = 0x00
advertising_type_byte adv_direct_ind = 0x01
advertising_type_byte adv_scan_ind = 0x02
advertising_type_byte adv_non_conn_ind = 0x03
advertising_type_byte adv_direct_ind_low_duty = 0x04

pub data OwnAddressType : Type 0 where
  public random resolvable_private_address resolvable_private_address_from_irk : OwnAddressType

unfoldable pub own_address_type_byte : OwnAddressType → ℕ
own_address_type_byte OwnAddressType.public = 0x00
own_address_type_byte OwnAddressType.random = 0x01
own_address_type_byte resolvable_private_address = 0x02
own_address_type_byte resolvable_private_address_from_irk = 0x03

pub data PeerAddressType : Type 0 where
  public random : PeerAddressType

unfoldable pub peer_address_type_byte : PeerAddressType → ℕ
peer_address_type_byte PeerAddressType.public = 0x00
peer_address_type_byte PeerAddressType.random = 0x01

pub data AdvertisingFilterPolicy : Type 0 where
  all filtered_scan_all_connect all_scan_filtered_connect filtered : AdvertisingFilterPolicy

unfoldable pub filter_policy_byte : AdvertisingFilterPolicy → ℕ
filter_policy_byte all = 0x00
filter_policy_byte filtered_scan_all_connect = 0x01
filter_policy_byte all_scan_filtered_connect = 0x02
filter_policy_byte filtered = 0x03

pub record AdvertisingParameters : Type 0 where
  pub interval_min : ℕ
  pub interval_max : ℕ
  pub advertising_type : AdvertisingType
  pub own_address_type : OwnAddressType
  pub peer_address_type : PeerAddressType
  pub peer_address : List ℕ
  pub channel_map : ℕ
  pub filter_policy : AdvertisingFilterPolicy

pub data Command : Type 0 where
  reset : Command
  le_set_advertising_parameters : Command
  le_set_advertising_parameters_custom : AdvertisingParameters → Command
  le_set_advertising_data : Data → Command
  le_set_scan_rsp_data : Data → Command
  le_set_advertise_enable : Bool → Command
  disconnect : ℕ → ℕ → Command
  le_long_term_key_request_reply : ℕ → ℕ → Command
  read_br_addr : Command
  set_event_mask : List ℕ → Command

-- `let mut data = [0u8; size]; data[0] = 0x01;
-- CommandHeader::from_ogf_ocf(ogf, ocf, len).write_into(&mut data[1..]);`
unfoldable pub framed : ℕ → ℕ → ℕ → ℕ → Run (List ℕ)
framed size ogf ocf len = do
  frame ← store (replicate size 0) 0 0x01
  header ← from_ogf_ocf ogf ocf len
  tail ← write_into header (drop 1 frame)
  done (take 1 frame ++ tail)

-- `data[at..].copy_from_slice(bytes)`: the lengths must agree.
unfoldable pub copy_tail : List ℕ → ℕ → List ℕ → Run (List ℕ)
copy_tail xs at bytes = do require ((at + length bytes) == length xs); copy_at xs at bytes

-- `to_be_bytes` of a `u16`.
abbrev pub u16_be : ℕ → List ℕ
u16_be x = high_byte x ∷ low_byte x ∷ []

unfoldable pub custom_parameters : AdvertisingParameters → Run Data
custom_parameters params = do
  d ← Data.new []
  d ← append d (u16_be params.interval_min)
  d ← append d (u16_be params.interval_max)
  d ← append d (advertising_type_byte params.advertising_type ∷ [])
  d ← append d (own_address_type_byte params.own_address_type ∷ [])
  d ← append d (peer_address_type_byte params.peer_address_type ∷ [])
  d ← append d params.peer_address
  d ← append d (params.channel_map ∷ [])
  append d (filter_policy_byte params.filter_policy ∷ [])

-- `LeSetAdvertisingParameters` sends these.
abbrev pub default_parameters : List ℕ
default_parameters = 0x00 ∷ 0x01 ∷ 0x00 ∷ 0x01 ∷ 0 ∷ 0 ∷ 0 ∷ 0 ∷ 0 ∷ 0 ∷ 0 ∷ 0 ∷ 0 ∷ 7 ∷ 0 ∷ []

unfoldable pub encode : Command → Run Data
encode reset = do Data.new (← framed 4 controller_ogf reset_ocf 0x00)
encode le_set_advertising_parameters = do
  frame ← framed 19 le_ogf set_advertising_parameters_ocf 0x0f
  Data.new (← copy_tail frame 4 default_parameters)
encode (le_set_advertising_parameters_custom params) = do
  frame ← framed 19 le_ogf set_advertising_parameters_ocf 0x0f
  adv_params ← custom_parameters params
  Data.new (← copy_tail frame 4 (← as_slice adv_params))
encode (le_set_advertising_data payload) = do
  res ← Data.new (← framed 4 le_ogf set_advertising_data_ocf (low_byte payload.len))
  append res (← as_slice payload)
encode (le_set_scan_rsp_data payload) = do
  res ← Data.new (← framed 4 le_ogf set_scan_rsp_data_ocf (low_byte payload.len))
  append res (← as_slice payload)
encode (le_set_advertise_enable enable) = do
  frame ← framed 5 le_ogf set_advertise_enable_ocf 0x01
  Data.new (← store frame 4 (if enable then 1 else 0))
encode (disconnect connection_handle reason) = do
  frame ← framed 7 link_control_ogf disconnect_ocf 0x03
  frame ← copy_at frame 4 (u16_le connection_handle)
  Data.new (← store frame 6 reason)
encode (le_long_term_key_request_reply handle ltk) = do
  frame ← framed 22 le_ogf long_term_key_request_reply_ocf 18
  frame ← copy_at frame 4 (u16_le handle)
  Data.new (← copy_tail frame 6 (le_bytes 16 ltk))
encode read_br_addr = do Data.new (← framed 4 informational_ogf read_bd_addr_ocf 0x00)
encode (set_event_mask events) = do
  frame ← framed 12 controller_ogf set_event_mask_ocf 0x08
  Data.new (← copy_tail frame 4 events)
