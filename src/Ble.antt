-- ===== src/Ble.antt =====
-- `Ble` of bleps/src/lib.rs (231-446): commands, `poll` and `wait_for_command_complete`, over the
-- connection of `Hci`.
mod Packets
pub mod Ends
pub mod Reassembly
pub mod Waiting
pub mod Commands
pub mod Behind
use bleps.Common.{
  ℕ, zero, suc, ◌+◌, Bool, true, false, Option, none, some, List, [], ◌∷◌, Run, done, panic, stuck,
  Result, ok, err, ◌==◌, ltb, if◌then◌else◌, length, u16_of,
}
pub use Packets.{PollResult, event, async_data}
unfoldable pub use Packets.{join, wanted_of, completion, address_of}
use bleps.Data.{Data, as_slice, checked_sub}
use bleps.Acl.{AclPacket}
use bleps.Acl.Read as Acl
use bleps.Event.{EventType, Error, command_complete, timeout, failed, check_command_completed}
use bleps.Event.Read as Event
use bleps.Command
use bleps.Command.{Command}
use bleps.Hci.{Hci, M, ◌>>=◌, ◌>>◌, pure, lift, read, millis, write_bytes}

abbrev pub timeout_millis : ℕ
timeout_millis = 1000

abbrev pub packet_type_command : ℕ
packet_type_command = 0x01

abbrev pub packet_type_async_data : ℕ
packet_type_async_data = 0x02

abbrev pub packet_type_event : ℕ
packet_type_event = 0x04

-- The loop that re-assembles fragments. The byte before a fragment is read and, whatever it is,
-- passed over (the source logs an error).
unfoldable pub reassemble : ℕ → ℕ → AclPacket → M AclPacket
reassemble zero wanted packet = λ h. stuck
reassemble (suc fuel) wanted packet = do
  have ← lift (checked_sub packet.payload.len 4)
  let more = λ (joined : AclPacket). reassemble fuel wanted joined
  if wanted == have
      then pure packet
      else do packet_type ← read; next ← Acl.read; joined ← lift (join packet next); more joined

-- Each round takes at least four bytes, so the reads left are rounds enough.
unfoldable pub read_acl_packet : M AclPacket
read_acl_packet = do
  packet ← Acl.read
  wanted ← lift (wanted_of packet)
  λ h. reassemble (suc (length h.reads)) wanted packet h

unfoldable pub poll_packet : ℕ → M (Option PollResult)
poll_packet packet_type =
    if packet_type == packet_type_command
    then pure none
    else if packet_type == packet_type_async_data
    then (do packet ← read_acl_packet; pure (some (async_data packet)))
    else if packet_type == packet_type_event
    then (do e ← Event.read; pure (some (event e)))
    else lift panic

unfoldable pub poll : M (Option PollResult)
poll = do packet_type ← read; elim packet_type [ some t ↦ poll_packet t | none ↦ pure none ]

-- The loop, with the rounds left; the deadline is checked after each poll.
unfoldable pub wait_loop : ℕ → ℕ → ℕ → ℕ → M (Result Error EventType)
wait_loop zero ogf ocf timeout_at = λ h. stuck
wait_loop (suc fuel) ogf ocf timeout_at = do
  res ← poll
  completed ← lift (completion ogf ocf res)
  elim completed [
    | some e ↦ pure (ok e)
    | none ↦ do
      now ← millis
      let rest = wait_loop fuel ogf ocf timeout_at
      if ltb timeout_at now then pure (err timeout) else rest
  ]

unfoldable pub wait_for_command_complete : ℕ → ℕ → ℕ → M (Result Error EventType)
wait_for_command_complete fuel ogf ocf = do
  now ← millis
  wait_loop fuel ogf ocf (now + timeout_millis)

-- `….wait_for_command_complete(ogf, ocf)?.check_command_completed()` behind the command's bytes:
-- the body that the `cmd_…` methods share.
unfoldable pub run_command : ℕ → Command → ℕ → ℕ → M (Result Error EventType)
run_command fuel c ogf ocf = do
  d ← lift (Command.encode c)
  bytes ← lift (as_slice d)
  write_bytes bytes
  res ← wait_for_command_complete fuel ogf ocf
  elim res [ ok e ↦ lift (check_command_completed e) | err e ↦ pure (err e) ]

unfoldable pub cmd_reset : ℕ → M (Result Error EventType)
cmd_reset fuel = run_command fuel Command.reset Command.controller_ogf Command.reset_ocf

unfoldable pub cmd_set_event_mask : ℕ → List ℕ → M (Result Error EventType)
cmd_set_event_mask fuel events =
    run_command fuel (Command.set_event_mask events) Command.controller_ogf
      Command.set_event_mask_ocf

unfoldable pub cmd_set_le_advertising_parameters : ℕ → M (Result Error EventType)
cmd_set_le_advertising_parameters fuel =
    run_command fuel Command.le_set_advertising_parameters Command.le_ogf
      Command.set_advertising_parameters_ocf

unfoldable pub cmd_set_le_advertising_parameters_custom :
    ℕ → Command.AdvertisingParameters → M (Result Error EventType)
cmd_set_le_advertising_parameters_custom fuel params =
    run_command fuel (Command.le_set_advertising_parameters_custom params) Command.le_ogf
      Command.set_advertising_parameters_ocf

unfoldable pub cmd_set_le_advertising_data : ℕ → Data → M (Result Error EventType)
cmd_set_le_advertising_data fuel payload =
    run_command fuel (Command.le_set_advertising_data payload) Command.le_ogf
      Command.set_advertising_data_ocf

unfoldable pub cmd_set_le_scan_rsp_data : ℕ → Data → M (Result Error EventType)
cmd_set_le_scan_rsp_data fuel payload =
    run_command fuel (Command.le_set_scan_rsp_data payload) Command.le_ogf
      Command.set_scan_rsp_data_ocf

unfoldable pub cmd_set_le_advertise_enable : ℕ → Bool → M (Result Error EventType)
cmd_set_le_advertise_enable fuel enable =
    run_command fuel (Command.le_set_advertise_enable enable) Command.le_ogf
      Command.set_advertise_enable_ocf

unfoldable pub cmd_long_term_key_request_reply : ℕ → ℕ → ℕ → M (Result Error EventType)
cmd_long_term_key_request_reply fuel handle ltk =
    run_command fuel (Command.le_long_term_key_request_reply handle ltk) Command.le_ogf
      Command.long_term_key_request_reply_ocf

unfoldable pub cmd_read_br_addr : ℕ → M (Result Error (List ℕ))
cmd_read_br_addr fuel = do
  res ← run_command fuel Command.read_br_addr Command.informational_ogf Command.read_bd_addr_ocf
  elim res [ ok e ↦ lift (address_of e) | err e ↦ pure (err e) ]

unfoldable pub init : ℕ → M (Result Error (Unit {0}))
init fuel = do
  res ← cmd_reset fuel
  elim res [
    | err e ↦ pure (err e)
    | ok _ ↦ do
      res' ← cmd_set_event_mask fuel (0xff ∷ 0xff ∷ 0xff ∷ 0xff ∷ 0xff ∷ 0xff ∷ 0xff ∷ 0xff ∷ [])
      elim res' [ ok _ ↦ pure (ok tt) | err e ↦ pure (err e) ]
  ]
