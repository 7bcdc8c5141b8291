-- ===== src/Event.antt =====
-- bleps/src/event.rs: HCI events. `Event::read` and `EventType::read` are in `Read`. `Addr` and
-- `Error` are of bleps/src/lib.rs.
pub mod Read
pub mod Decode
use bleps.Common.{
  ℕ, Bool, true, false, not, List, [], ◌∷◌, Run, done, ◌>>=◌, Result, ok, err, ◌==◌, if◌then◌else◌,
  u16_of, be_value,
}
use mathlib.Core.List.{reverse}
use bleps.Data
use bleps.Data.{Data, as_slice, index, slice_to, slice_from, subdata_from}

-- `Error` of lib.rs.
pub data Error : Type 0 where
  timeout : Error
  failed : ℕ → Error

-- `Addr` of lib.rs: seven bytes, most significant first.
pub record Addr : Type 0 where
  pub bytes : List ℕ

-- `u8::from(is_random)` is 0 or 1.
unfoldable pub from_le_bytes : Bool → List ℕ → Addr
from_le_bytes is_random v = record { bytes = (if is_random then 1 else 0) ∷ reverse v }

pub data ErrorCode : Type 0 where
  okay unknown_hci_command unknown_connection_identifier hardware_failure page_timeout : ErrorCode
  authentication_failure pin_or_key_missing memory_capacity_exceeded : ErrorCode
  connection_timeout connection_limit_exceeded acl_connection_already_exists : ErrorCode
  command_disallowed remote_user_terminated_connection unknown : ErrorCode

unfoldable pub error_code_of : ℕ → ErrorCode
error_code_of value =
    if value == 0x00
    then okay
    else if value == 0x01
    then unknown_hci_command
    else if value == 0x02
    then unknown_connection_identifier
    else if value == 0x03
    then hardware_failure
    else if value == 0x04
    then page_timeout
    else if value == 0x05
    then authentication_failure
    else if value == 0x06
    then pin_or_key_missing
    else if value == 0x07
    then memory_capacity_exceeded
    else if value == 0x08
    then connection_timeout
    else if value == 0x09
    then connection_limit_exceeded
    else if value == 0x0b
    then acl_connection_already_exists
    else if value == 0x0c
    then command_disallowed
    else if value == 0x13
    then remote_user_terminated_connection
    else unknown

pub record ConnectionComplete : Type 0 where
  pub status : ℕ
  pub handle : ℕ
  pub role : ℕ
  pub peer_address : Addr
  pub interval : ℕ
  pub latency : ℕ
  pub supervision : ℕ

-- The arguments stand in the order of the source's fields. `timeout` of a new connection is the
-- field `supervision` here.
pub data EventType : Type 0 where
  command_complete : ℕ → ℕ → Data → EventType
  disconnect_complete : ℕ → ErrorCode → ErrorCode → EventType
  number_of_completed_packets : ℕ → ℕ → ℕ → EventType
  connection_complete : ConnectionComplete → EventType
  long_term_key_request : ℕ → ℕ → ℕ → EventType
  unknown : EventType

unfoldable pub check_command_completed : EventType → Run (Result Error EventType)
check_command_completed (command_complete num_packets opcode payload) = do
  status ← index (← as_slice payload) 0
  done (
      if not (status == 0)
      then err (failed status)
      else ok (command_complete num_packets opcode payload))
check_command_completed (disconnect_complete handle status reason) =
    done (ok (disconnect_complete handle status reason))
check_command_completed (number_of_completed_packets n handles packets) =
    done (ok (number_of_completed_packets n handles packets))
check_command_completed (connection_complete c) = done (ok (connection_complete c))
check_command_completed (long_term_key_request handle random diversifier) =
    done (ok (long_term_key_request handle random diversifier))
check_command_completed EventType.unknown = done (ok EventType.unknown)

abbrev pub event_command_complete : ℕ
event_command_complete = 0x0e

abbrev pub event_disconnection_complete : ℕ
event_disconnection_complete = 0x05

abbrev pub event_number_of_completed_packets : ℕ
event_number_of_completed_packets = 0x13

abbrev pub event_le_meta : ℕ
event_le_meta = 0x3e

abbrev pub event_le_meta_connection_complete : ℕ
event_le_meta_connection_complete = 0x01

abbrev pub event_le_meta_long_term_key_request : ℕ
event_le_meta_long_term_key_request = 0x05

-- `((xs[i + 1] as u16) << 8) + xs[i] as u16`, the high byte read first.
unfoldable pub u16_at : List ℕ → ℕ → ℕ → Run ℕ
u16_at xs high low = do hi ← index xs high; lo ← index xs low; done (u16_of lo hi)

unfoldable pub decode_command_complete : Data → Run EventType
decode_command_complete payload = do
  xs ← as_slice payload
  num_packets ← index xs 0
  opcode ← u16_at xs 2 1
  rest ← subdata_from payload 3
  done (command_complete num_packets opcode rest)

unfoldable pub decode_disconnect_complete : Data → Run EventType
decode_disconnect_complete payload = do
  xs ← as_slice payload
  status ← index xs 0
  handle ← u16_at xs 2 1
  reason ← index xs 3
  done (disconnect_complete handle (error_code_of status) (error_code_of reason))

unfoldable pub decode_number_of_completed_packets : Data → Run EventType
decode_number_of_completed_packets payload = do
  xs ← as_slice payload
  num_handles ← index xs 0
  connection_handle ← u16_at xs 2 1
  completed_packet ← u16_at xs 4 3
  done (number_of_completed_packets num_handles connection_handle completed_packet)

unfoldable pub decode_connection_complete : List ℕ → Run EventType
decode_connection_complete xs = do
  status ← index xs 0
  handle ← u16_at xs 2 1
  role ← index xs 3
  address_type ← index xs 4
  address ← slice_to (← slice_from xs 5) 6
  interval ← u16_at xs 2 1
  latency ← u16_at xs 2 1
  supervision ← u16_at xs 2 1
  done (
      connection_complete (record {
        status = status;
        handle = handle;
        role = role;
        peer_address = from_le_bytes (not (address_type == 0)) address;
        interval = interval;
        latency = latency;
        supervision = supervision;
      }))

unfoldable pub decode_long_term_key_request : List ℕ → Run EventType
decode_long_term_key_request xs = do
  handle ← u16_at xs 1 0
  random ← slice_to (← slice_from xs 2) 8
  diversifier ← u16_at xs 11 10
  done (long_term_key_request handle (be_value 0 random) diversifier)

unfoldable pub decode_le_meta : Data → Run EventType
decode_le_meta payload = do
  bytes ← as_slice payload
  sub_event ← index bytes 0
  xs ← slice_from bytes 1
  if sub_event == event_le_meta_connection_complete
      then decode_connection_complete xs
      else if sub_event == event_le_meta_long_term_key_request
      then decode_long_term_key_request xs
      else done EventType.unknown

-- The `match` of `EventType::read` on an event's code.
unfoldable pub decode : ℕ → Data → Run EventType
decode code payload =
    if code == event_command_complete
    then decode_command_complete payload
    else if code == event_disconnection_complete
    then decode_disconnect_complete payload
    else if code == event_number_of_completed_packets
    then decode_number_of_completed_packets payload
    else if code == event_le_meta
    then decode_le_meta payload
    else done EventType.unknown
