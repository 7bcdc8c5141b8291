-- ===== src/Ble/Packets.antt =====
-- What `Ble` of bleps/src/lib.rs does with packets and events in hand, with no access to the
-- connection.
use bleps.Common.{
  ℕ, Option, none, some, List, Run, done, ◌>>=◌, Result, ok, err, ◌==◌, if◌then◌else◌, u16_of,
}
use bleps.Data.{as_slice, index, slice_to, slice_from, append}
use bleps.Acl.{AclPacket}
use bleps.Event.{EventType, Error, command_complete, failed}
use bleps.Command.{opcode_of}

pub data PollResult : Type 0 where
  event : EventType → PollResult
  async_data : AclPacket → PollResult

-- `acl_packet.data.append(next_acl_packet.data.as_slice())`.
unfoldable pub join : AclPacket → AclPacket → Run AclPacket
join packet next = do
  payload ← append packet.payload (← as_slice next.payload)
  done (record packet { payload = payload })

-- `wanted`: the `u16` in the first two bytes of the packet.
unfoldable pub wanted_of : AclPacket → Run ℕ
wanted_of packet = do
  prefix ← slice_to (← as_slice packet.payload) 2
  lo ← index prefix 0
  hi ← index prefix 1
  done (u16_of lo hi)

-- The arm of `wait_for_command_complete` that returns the event.
unfoldable pub completion : ℕ → ℕ → Option PollResult → Run (Option EventType)
completion ogf ocf (some (event (command_complete num_packets code payload))) = do
  wanted ← opcode_of ogf ocf
  done (if code == wanted then some (command_complete num_packets code payload) else none)
completion ogf ocf other = done none

-- The last match of `cmd_read_br_addr`: the address is bytes 1 to 6 of the return parameters.
unfoldable pub address_of : EventType → Run (Result Error (List ℕ))
address_of (command_complete num_packets code payload) = do
  address ← slice_to (← slice_from (← as_slice payload) 1) 6
  done (ok address)
address_of other = done (err (failed 0))
