-- ===== src/Asynch.antt =====
-- The asynchronous `Ble`: the module `asynch` of bleps/src/lib.rs (520-797).
pub mod Wire
pub mod Waiting
pub mod Fuel
use bleps.Common.{
  ℕ, zero, suc, ◌+◌, Bool, Option, none, some, List, [], ◌∷◌, Run, done, panic, stuck, Result, ok,
  err, ◌==◌, ltb, if◌then◌else◌, length,
}
use bleps.Data.{Data, as_slice, checked_sub}
use bleps.Acl.{AclPacket}
use bleps.Event.{EventType, Error, timeout, check_command_completed}
use bleps.Command
use bleps.Command.{Command}
use bleps.Ble.{
  PollResult, event, async_data, join, wanted_of, completion, address_of, timeout_millis,
  packet_type_command, packet_type_async_data, packet_type_event,
}
use Wire.{M, ◌>>=◌, ◌>>◌, pure, lift, read_byte, read_acl, read_event, write_bytes, millis, total}

-- The loop that re-assembles fragments.
unfoldable pub reassemble : ℕ → ℕ → AclPacket → M AclPacket
reassemble zero wanted packet = λ w. stuck
reassemble (suc fuel) wanted packet = do
  have ← lift (checked_sub packet.payload.len 4)
  let more = λ (joined : AclPacket). reassemble fuel wanted joined
  if wanted == have then pure packet else do
    packet_type ← read_byte
    next ← read_acl
    joined ← lift (join packet next)
    more joined

unfoldable pub read_acl_packet : M AclPacket
read_acl_packet = do
  packet ← read_acl
  wanted ← lift (wanted_of packet)
  λ w. reassemble (suc (total w.chunks)) wanted packet w

-- The first byte is waited for.
unfoldable pub poll : M (Option PollResult)
poll = do
  packet_type ← read_byte
  if packet_type == packet_type_command
      then pure none
      else if packet_type == packet_type_async_data
      then (do packet ← read_acl_packet; pure (some (async_data packet)))
      else if packet_type == packet_type_event
      then (do e ← read_event; pure (some (event e)))
      else lift panic

unfoldable pub wait_loop : ℕ → ℕ → ℕ → ℕ → M (Result Error EventType)
wait_loop zero ogf ocf timeout_at = λ w. stuck
wait_loop (suc fuel) ogf ocf timeout_at = do
  res ← poll
  completed ← lift (completion ogf ocf res)
  elim completed [
    | some e ↦ pure (ok e)
    | none ↦ do
      now ← millis
      let rest = wait_loop fuel ogf ocf timeout_at
      if ltb timeout_at now then pure (err timeout) else rest
  ]

-- Every round but the last takes bytes.
unfoldable pub wait_for_command_complete : ℕ → ℕ → M (Result Error EventType)
wait_for_command_complete ogf ocf = do
  now ← millis
  λ w. wait_loop (suc (total w.chunks)) ogf ocf (now + timeout_millis) w

-- The body that the `cmd_…` methods share.
unfoldable pub run_command : Command → ℕ → ℕ → M (Result Error EventType)
run_command c ogf ocf = do
  d ← lift (Command.encode c)
  bytes ← lift (as_slice d)
  write_bytes bytes
  res ← wait_for_command_complete ogf ocf
  elim res [ ok e ↦ lift (check_command_completed e) | err e ↦ pure (err e) ]

unfoldable pub cmd_reset : M (Result Error EventType)
cmd_reset = run_command Command.reset Command.controller_ogf Command.reset_ocf

unfoldable pub cmd_set_event_mask : List ℕ → M (Result Error EventType)
cmd_set_event_mask events =
    run_command (Command.set_event_mask events) Command.controller_ogf Command.set_event_mask_ocf

unfoldable pub cmd_set_le_advertising_parameters : M (Result Error EventType)
cmd_set_le_advertising_parameters =
    run_command Command.le_set_advertising_parameters Command.le_ogf
      Command.set_advertising_parameters_ocf

unfoldable pub cmd_set_le_advertising_parameters_custom :
    Command.AdvertisingParameters → M (Result Error EventType)
cmd_set_le_advertising_parameters_custom params =
    run_command (Command.le_set_advertising_parameters_custom params) Command.le_ogf
      Command.set_advertising_parameters_ocf

unfoldable pub cmd_set_le_advertising_data : Data → M (Result Error EventType)
cmd_set_le_advertising_data payload =
    run_command (Command.le_set_advertising_data payload) Command.le_ogf
      Command.set_advertising_data_ocf

unfoldable pub cmd_set_le_advertise_enable : Bool → M (Result Error EventType)
cmd_set_le_advertise_enable enable =
    run_command (Command.le_set_advertise_enable enable) Command.le_ogf
      Command.set_advertise_enable_ocf

unfoldable pub cmd_long_term_key_request_reply : ℕ → ℕ → M (Result Error EventType)
cmd_long_term_key_request_reply handle ltk =
    run_command (Command.le_long_term_key_request_reply handle ltk) Command.le_ogf
      Command.long_term_key_request_reply_ocf

unfoldable pub cmd_read_br_addr : M (Result Error (List ℕ))
cmd_read_br_addr = do
  res ← run_command Command.read_br_addr Command.informational_ogf Command.read_bd_addr_ocf
  elim res [ ok e ↦ lift (address_of e) | err e ↦ pure (err e) ]

unfoldable pub init : M (Result Error EventType)
init = do
  res ← cmd_reset
  elim res [
    | err e ↦ pure (err e)
    | ok first ↦ do
      masked ← cmd_set_event_mask (0xff ∷ 0xff ∷ 0xff ∷ 0xff ∷ 0xff ∷ 0xff ∷ 0xff ∷ 0xff ∷ [])
      elim masked [ err e ↦ pure (err e) | ok _ ↦ pure (ok first) ]
  ]
