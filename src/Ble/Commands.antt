-- ===== src/Ble/Commands.antt =====
-- A command and its answer: the `cmd_…` methods of bleps/src/lib.rs (253-344).
use bleps.Common.{
  ℕ, suc, ◌+◌, ◌≤◌, ◌≡◌, refl, Option, List, ◌∷◌, ◌++◌, arith, done, ok, err, length, IsU16, not,
  ◌==◌, if◌then◌else◌,
}
use bleps.Data.{Data, capacity, index}
use bleps.Data.Buffer.{Represents, as_slice-Represents}
use bleps.Hci.{Hci, ◌>>=◌}
use bleps.Hci.Writes.{write_bytes_lem}
use bleps.Hci.Reads.{delivering}
use bleps.Event.{failed, command_complete, check_command_completed}
use bleps.Command.{Command, opcode_of}
use bleps.Command.Encoding.{Carries, opcode, command_bytes, encode_command}
use bleps.Ble.{run_command}
use bleps.Ble.Waiting.{completes, wait_for_command_complete_answered}

-- A command whose completion is the very next packet of the controller is sent as its packet (type
-- byte, opcode, number of parameter bytes, parameters; the intervals of custom advertising
-- parameters high byte first, as the code writes them); the event of the completion is the result
-- when its status is 0, and else the failure with that status. Nothing behind the event is taken.
pub run_command_lem :
    (fuel ogf ocf n status : ℕ) (more : List ℕ) (c : Command) (ps : List ℕ) (rest : List (Option ℕ))
    (h : Hci)
    → Carries c ps
    → opcode_of ogf ocf ≡ done (opcode c)
    → IsU16 (opcode c)
    → 4 + length more ≤ capacity
    → (d : Data) × (run_command
          (suc fuel)
          c
          ogf
          ocf
          (delivering (completes n (opcode c) (status ∷ more)) rest h)
        ≡ done (
          if not (status == 0) then err (failed status) else ok (command_complete n (opcode c) d),
          record h { reads = rest; ticks = h.ticks + 1; written = h.written ++ command_bytes c ps },
        ))
      × Represents d (status ∷ more)
unfolding run_command check_command_completed index
run_command_lem fuel ogf ocf n status more c ps rest h carries code small fits =
    let (d₀, e₀, r₀) = encode_command c ps carries in
    let sending = delivering (completes n (opcode c) (status ∷ more)) rest h in
    let (d, e, r) =
      wait_for_command_complete_answered fuel ogf ocf n (opcode c) (status ∷ more) rest
        (record h { written = h.written ++ command_bytes c ps }) code small (omega (arith, fits)) in
    (
      d,
      rw
          (
            ◌>>=◌,
            e₀,
            as_slice-Represents r₀,
            write_bytes_lem (command_bytes c ps) sending,
            e,
            as_slice-Represents r,
          )
          refl,
      r,
    )
