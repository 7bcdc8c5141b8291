-- ===== src/Att.antt =====
-- bleps/src/att.rs: UUIDs, error codes, ATT requests and `Att::decode`. The responses that `Data`
-- builds are in `Response`.
pub mod Response
pub mod RoundTrip
use bleps.Common.{
  ℕ, ◌+◌, Bool, true, false, List, [], ◌∷◌, Run, done, panic, ◌>>=◌, Result, ok, err, ◌==◌,
  bytes_eq, if◌then◌else◌, length, u16_of, u16_le, low_byte, high_byte,
}
use bleps.Data
use bleps.Data.{Data, as_slice, index, slice, slice_from, append}
use bleps.L2cap.{L2capPacket}

abbrev pub att_read_by_group_type_request_opcode : ℕ
att_read_by_group_type_request_opcode = 0x10

abbrev pub att_read_by_type_request_opcode : ℕ
att_read_by_type_request_opcode = 0x08

abbrev pub att_read_request_opcode : ℕ
att_read_request_opcode = 0x0a

abbrev pub att_write_request_opcode : ℕ
att_write_request_opcode = 0x12

abbrev pub att_write_cmd_opcode : ℕ
att_write_cmd_opcode = 0x52

abbrev pub att_exchange_mtu_request_opcode : ℕ
att_exchange_mtu_request_opcode = 0x02

abbrev pub att_find_by_type_value_request_opcode : ℕ
att_find_by_type_value_request_opcode = 0x06

abbrev pub att_find_information_req_opcode : ℕ
att_find_information_req_opcode = 0x04

abbrev pub att_prepare_write_req_opcode : ℕ
att_prepare_write_req_opcode = 0x16

abbrev pub att_execute_write_req_opcode : ℕ
att_execute_write_req_opcode = 0x18

abbrev pub att_read_blob_req_opcode : ℕ
att_read_blob_req_opcode = 0x0c

pub data Uuid : Type 0 where
  uuid16 : ℕ → Uuid
  uuid128 : List ℕ → Uuid

-- `PartialEq`.
abbrev pub uuid_eq : Uuid → Uuid → Bool
uuid_eq (uuid16 a) (uuid16 b) = a == b
uuid_eq (uuid16 a) (uuid128 b) = false
uuid_eq (uuid128 a) (uuid16 b) = false
uuid_eq (uuid128 a) (uuid128 b) = bytes_eq a b

unfoldable pub append_uuid : Data → Uuid → Run Data
append_uuid d (uuid16 uuid) = append d (u16_le uuid)
append_uuid d (uuid128 uuid) = append d uuid

unfoldable pub get_type : Uuid → ℕ
get_type (uuid16 _) = 0x01
get_type (uuid128 _) = 0x02

-- `Uuid::len`: the size of an entry of a read-by-group-type response.
unfoldable pub uuid_len : Uuid → ℕ
uuid_len (uuid16 _) = 6
uuid_len (uuid128 _) = 20

-- `From<&[u8]>`, and `From<Data>` on the slice of the buffer.
unfoldable pub uuid_of_bytes : List ℕ → Run Uuid
uuid_of_bytes bytes =
    if length bytes == 2
    then (do lo ← index bytes 0; hi ← index bytes 1; done (uuid16 (u16_of lo hi)))
    else if length bytes == 16
    then done (uuid128 bytes)
    else panic

unfoldable pub uuid_of : Data → Run Uuid
uuid_of d = do uuid_of_bytes (← as_slice d)

pub data AttErrorCode : Type 0 where
  invalid_handle read_not_permitted write_not_permitted invalid_pdu : AttErrorCode
  insufficient_authentication request_not_supported invalid_offset : AttErrorCode
  insufficient_authorization prepare_queue_full attribute_not_found : AttErrorCode
  attribute_not_long insufficient_encryption_key_size : AttErrorCode
  invalid_attribute_value_length unlikely_error insufficient_encryption : AttErrorCode
  unsupported_group_type insufficient_resources : AttErrorCode

-- `code as u8`.
unfoldable pub error_byte : AttErrorCode → ℕ
error_byte invalid_handle = 0x01
error_byte read_not_permitted = 0x02
error_byte write_not_permitted = 0x03
error_byte invalid_pdu = 0x04
error_byte insufficient_authentication = 0x05
error_byte request_not_supported = 0x06
error_byte invalid_offset = 0x07
error_byte insufficient_authorization = 0x08
error_byte prepare_queue_full = 0x09
error_byte attribute_not_found = 0x0A
error_byte attribute_not_long = 0x0B
error_byte insufficient_encryption_key_size = 0x0C
error_byte invalid_attribute_value_length = 0x0D
error_byte unlikely_error = 0x0E
error_byte insufficient_encryption = 0x0F
error_byte unsupported_group_type = 0x10
error_byte insufficient_resources = 0x11

-- The arguments stand in the order of the source's fields.
pub data Att : Type 0 where
  read_by_group_type_req : ℕ → ℕ → Uuid → Att
  read_by_type_req : ℕ → ℕ → Uuid → Att
  read_req : ℕ → Att
  write_req : ℕ → Data → Att
  write_cmd : ℕ → Data → Att
  exchange_mtu : ℕ → Att
  find_by_type_value : ℕ → ℕ → ℕ → ℕ → Att
  find_information : ℕ → ℕ → Att
  prepare_write_req : ℕ → ℕ → Data → Att
  execute_write_req : ℕ → Att
  read_blob_req : ℕ → ℕ → Att

pub data AttDecodeError : Type 0 where
  other : AttDecodeError
  unknown_opcode : ℕ → Data → AttDecodeError
  unexpected_payload : AttDecodeError

-- `(payload[i] as u16) + ((payload[i + 1] as u16) << 8)`.
unfoldable pub u16_from : List ℕ → ℕ → Run ℕ
u16_from payload i = do lo ← index payload i; hi ← index payload (i + 1); done (u16_of lo hi)

-- The UUID behind the two handles: two bytes or sixteen, by the length of the payload.
unfoldable pub decode_uuid : List ℕ → Run (Result AttDecodeError Uuid)
decode_uuid payload =
    if length payload == 6
    then (do uuid ← u16_from payload 4; done (ok (uuid16 uuid)))
    else if length payload == 20
    then (do uuid ← slice payload 4 20; done (ok (uuid128 uuid)))
    else done (err unexpected_payload)

-- The arms for read-by-group-type and read-by-type, which differ in the request they build.
unfoldable pub decode_by_type : (ℕ → ℕ → Uuid → Att) → List ℕ → Run (Result AttDecodeError Att)
decode_by_type request payload = do
  start_handle ← u16_from payload 0
  end_handle ← u16_from payload 2
  uuid ← decode_uuid payload
  done (elim uuid [ ok u ↦ ok (request start_handle end_handle u) | err e ↦ err e ])

-- The arms for write request and write command.
unfoldable pub decode_write : (ℕ → Data → Att) → List ℕ → Run (Result AttDecodeError Att)
decode_write request payload = do
  handle ← u16_from payload 0
  d ← Data.default
  d ← append d (← slice_from payload 2)
  done (ok (request handle d))

unfoldable pub decode_find_by_type_value : List ℕ → Run (Result AttDecodeError Att)
decode_find_by_type_value payload = do
  start_handle ← u16_from payload 0
  end_handle ← u16_from payload 2
  att_type ← u16_from payload 4
  att_value ← u16_from payload 6
  done (ok (find_by_type_value start_handle end_handle att_type att_value))

unfoldable pub decode_find_information : List ℕ → Run (Result AttDecodeError Att)
decode_find_information payload = do
  start_handle ← u16_from payload 0
  end_handle ← u16_from payload 2
  done (ok (find_information start_handle end_handle))

unfoldable pub decode_prepare_write : List ℕ → Run (Result AttDecodeError Att)
decode_prepare_write payload = do
  handle ← u16_from payload 0
  offset ← u16_from payload 2
  value ← Data.new (← slice_from payload 4)
  done (ok (prepare_write_req handle offset value))

unfoldable pub decode_read_blob : List ℕ → Run (Result AttDecodeError Att)
decode_read_blob payload = do
  handle ← u16_from payload 0
  offset ← u16_from payload 2
  done (ok (read_blob_req handle offset))

-- The `match` on the opcode.
unfoldable pub decode_pdu : ℕ → List ℕ → Run (Result AttDecodeError Att)
decode_pdu opcode payload =
    if opcode == att_read_by_group_type_request_opcode
    then decode_by_type read_by_group_type_req payload
    else if opcode == att_read_by_type_request_opcode
    then decode_by_type read_by_type_req payload
    else if opcode == att_read_request_opcode
    then (do handle ← u16_from payload 0; done (ok (read_req handle)))
    else if opcode == att_write_request_opcode
    then decode_write write_req payload
    else if opcode == att_write_cmd_opcode
    then decode_write write_cmd payload
    else if opcode == att_exchange_mtu_request_opcode
    then (do mtu ← u16_from payload 0; done (ok (exchange_mtu mtu)))
    else if opcode == att_find_by_type_value_request_opcode
    then decode_find_by_type_value payload
    else if opcode == att_find_information_req_opcode
    then decode_find_information payload
    else if opcode == att_prepare_write_req_opcode
    then decode_prepare_write payload
    else if opcode == att_execute_write_req_opcode
    then (do flags ← index payload 0; done (ok (execute_write_req flags)))
    else if opcode == att_read_blob_req_opcode
    then decode_read_blob payload
    else (do d ← Data.new payload; done (err (unknown_opcode opcode d)))

unfoldable pub decode : L2capPacket → Run (Result AttDecodeError Att)
decode packet = do
  bytes ← as_slice packet.payload
  opcode ← index bytes 0
  payload ← slice_from bytes 1
  decode_pdu opcode payload
