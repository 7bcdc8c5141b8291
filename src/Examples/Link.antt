-- ===== src/Examples/Link.antt =====
-- The theorems on packets of the link at concrete inputs.
use bleps.Common.{◌≡◌, ◌≢◌, ◌≤◌, refl, Option, some, List, [], ◌∷◌, arith, done, stuck, length}
use bleps.Data.{Data}
use bleps.Data.Buffer.{Represents}
use bleps.Hci.{Hci}
use bleps.Hci.Reads.{delivering}
use bleps.Acl
use bleps.Acl.{AclPacket, first_auto_flushable, no_broadcast, point_to_point}
use bleps.Acl.Read as Read
use bleps.Acl.Read.Laws.{read-encode}
use bleps.Ble.{PollResult, async_data, poll}
use bleps.Ble.Ends.{poll_ends}
use bleps.Ble.Reassembly.{poll_reassembles}
use bleps.Common.{ℕ, err, ◌*◌}
use bleps.Event.{timeout}
use bleps.Ble.{wait_for_command_complete}
use bleps.Ble.Waiting
use bleps.Ble.Waiting.{
  completes, wait_for_command_complete-silent, wait_for_command_complete_answered,
}
use bleps.Examples.{
  data_of-Represents, data_of, silent, head, tail, head-IsSent, tail-IsSent, asking, answering,
}

poll_reassembles_example :
    (d : Data) × (poll asking
      ≡ done (
        some (
            async_data (record {
              handle = 64;
              boundary_flag = first_auto_flushable;
              bc_flag = point_to_point;
              payload = d;
            })),
        answering,
      ))
    × Represents d (3 ∷ 0 ∷ 4 ∷ 0 ∷ 0x0a ∷ 2 ∷ 0 ∷ [])
poll_reassembles_example =
    poll_reassembles head (tail ∷ []) 4 (0x0a ∷ 2 ∷ 0 ∷ []) (some 4 ∷ []) silent head-IsSent
      (tail-IsSent, tt) (omega arith) refl (omega arith)

poll_ends_example :
    (poll asking ≢ stuck)
    × ((r : Option PollResult) (h' : Hci)
        → poll asking ≡ done (r, h')
        → length h'.reads ≤ length asking.reads)
poll_ends_example = poll_ends asking

read-encode_example :
    (encoded : Data) × (wire : List ℕ) × (d : Data) × (Acl.encode 64 first_auto_flushable
        no_broadcast
        (data_of (1 ∷ 2 ∷ []))
      ≡ done encoded)
    × Represents encoded (0x02 ∷ wire)
    × (Read.read (delivering wire (some 4 ∷ []) silent)
        ≡ done (
          record {
            handle = 64;
            boundary_flag = first_auto_flushable;
            bc_flag = point_to_point;
            payload = d;
          },
          record silent { reads = some 4 ∷ [] },
        ))
    × Represents d (1 ∷ 2 ∷ [])
read-encode_example =
    read-encode 64 first_auto_flushable no_broadcast (some 4 ∷ []) silent
      (data_of-Represents (1 ∷ 2 ∷ []) (omega arith)) (omega arith) (omega arith)

abbrev host_packet : AclPacket
host_packet = record {
  handle = 64;
  boundary_flag = first_auto_flushable;
  bc_flag = point_to_point;
  payload = data_of [];
}

abbrev slow : ℕ → ℕ
slow n = n * 600

wait_for_command_complete-silent_example :
    wait_for_command_complete 2 0x03 0x03 (Waiting.silent slow 0 [])
    ≡ done (err timeout, Waiting.silent slow 3 [])
wait_for_command_complete-silent_example =
    wait_for_command_complete-silent slow [] 1 2 0x03 0x03 0 (λ j h. omega arith) (omega arith)
      (omega arith)
