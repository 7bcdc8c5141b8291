-- ===== src/Att/Response.antt =====
-- The responses that `Data` builds: bleps/src/att.rs (307-441).
use bleps.Common.{
  ℕ, ◌%◌, Bool, true, false, [], ◌∷◌, Run, done, ◌>>=◌, ◌>>◌, require, ◌==◌, ltb, if◌then◌else◌,
  low_byte,
}
use bleps.Data
use bleps.Data.{Data, index, append, append_u8, append_u16, set_byte, checked_sub}
use bleps.Att.{Uuid, AttErrorCode, error_byte, append_uuid, get_type, uuid_len}

abbrev pub att_error_response_opcode : ℕ
att_error_response_opcode = 0x01

abbrev pub att_read_by_group_type_response_opcode : ℕ
att_read_by_group_type_response_opcode = 0x11

abbrev pub att_read_by_type_response_opcode : ℕ
att_read_by_type_response_opcode = 0x09

abbrev pub att_read_response_opcode : ℕ
att_read_response_opcode = 0x0b

abbrev pub att_write_response_opcode : ℕ
att_write_response_opcode = 0x13

abbrev pub att_exchange_mtu_response_opcode : ℕ
att_exchange_mtu_response_opcode = 0x03

abbrev pub att_find_information_rsp_opcode : ℕ
att_find_information_rsp_opcode = 0x05

abbrev pub att_prepare_write_resp_opcode : ℕ
att_prepare_write_resp_opcode = 0x17

abbrev pub att_execute_write_resp_opcode : ℕ
att_execute_write_resp_opcode = 0x19

abbrev pub att_read_blob_resp_opcode : ℕ
att_read_blob_resp_opcode = 0x0d

abbrev pub att_handle_value_ntf_optcode : ℕ
att_handle_value_ntf_optcode = 0x1b

unfoldable pub append_attribute_data : Data → ℕ → ℕ → Uuid → Run Data
append_attribute_data d attribute_handle end_group_handle attribute_value = do
  d ← append_u16 d attribute_handle
  d ← append_u16 d end_group_handle
  append_uuid d attribute_value

unfoldable pub new_att_read_by_group_type_response : Run Data
new_att_read_by_group_type_response = Data.new (att_read_by_group_type_response_opcode ∷ 0 ∷ [])

-- The size byte is set by the first entry, and later entries must have that size.
unfoldable pub append_att_read_by_group_type_response : Data → ℕ → ℕ → Uuid → Run Data
append_att_read_by_group_type_response d attribute_handle end_group_handle attribute_value = do
  let len : ℕ = low_byte (uuid_len attribute_value)
  size ← index d.buf 1
  d ← if size == 0 then set_byte d 1 len else (do require (size == len); done d)
  append_attribute_data d attribute_handle end_group_handle attribute_value

unfoldable pub new_att_error_response : ℕ → ℕ → AttErrorCode → Run Data
new_att_error_response opcode handle code = do
  d ← Data.new (att_error_response_opcode ∷ opcode ∷ [])
  d ← append_u16 d handle
  append_u8 d (error_byte code)

unfoldable pub new_att_read_by_type_response : Run Data
new_att_read_by_type_response = Data.new (att_read_by_type_response_opcode ∷ 0 ∷ [])

unfoldable pub append_att_read_by_type_response : Data → Run Data
append_att_read_by_type_response d = do
  size ← checked_sub d.len 2
  require (ltb 0 size)
  have ← index d.buf 1
  if have == 0 then set_byte d 1 (low_byte size) else (do require ((size % have) == 0); done d)

unfoldable pub new_att_read_response : Run Data
new_att_read_response = Data.new (att_read_response_opcode ∷ [])

unfoldable pub new_att_write_response : Run Data
new_att_write_response = Data.new (att_write_response_opcode ∷ [])

unfoldable pub new_att_exchange_mtu_response : ℕ → Run Data
new_att_exchange_mtu_response mtu = do
  d ← Data.new (att_exchange_mtu_response_opcode ∷ [])
  append_u16 d mtu

unfoldable pub new_att_find_information_response : Run Data
new_att_find_information_response = Data.new (att_find_information_rsp_opcode ∷ 0 ∷ [])

-- The flag is `false` where the entry was left out because its UUID has another size.
unfoldable pub append_att_find_information_response : Data → ℕ → Uuid → Run (Data × Bool)
append_att_find_information_response d handle uuid = do
  have ← index d.buf 1
  if have == 0
      then (do
        d ← set_byte d 1 (get_type uuid)
        d ← append_u16 d handle
        d ← append_uuid d uuid
        done (d, true))
      else if have == get_type uuid
      then (do d ← append_u16 d handle; d ← append_uuid d uuid; done (d, true))
      else done (d, false)

unfoldable pub has_att_find_information_response_data : Data → Bool
has_att_find_information_response_data d = ltb 2 d.len

unfoldable pub new_att_prepare_write_response : ℕ → ℕ → Run Data
new_att_prepare_write_response handle offset = do
  d ← Data.new (att_prepare_write_resp_opcode ∷ [])
  d ← append_u16 d handle
  append_u16 d offset

unfoldable pub new_att_execute_write_response : Run Data
new_att_execute_write_response = Data.new (att_execute_write_resp_opcode ∷ [])

unfoldable pub new_att_read_blob_response : Run Data
new_att_read_blob_response = Data.new (att_read_blob_resp_opcode ∷ [])

unfoldable pub new_att_value_ntf : ℕ → Run Data
new_att_value_ntf handle = do d ← Data.new (att_handle_value_ntf_optcode ∷ []); append_u16 d handle
