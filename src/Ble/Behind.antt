-- ===== src/Ble/Behind.antt =====
-- A command whose answer comes behind other events: `wait_for_command_complete` and the `cmd_…` methods
-- of bleps/src/lib.rs (253-389).
use bleps.Common.{
  ℕ, suc, ◌+◌, ◌≤◌, ◌<◌, ◌≡◌, refl, ap, ◌∙◌, subst, false, not, Option, none, some, List, [], ◌∷◌,
  ◌++◌, map, arith, done, ok, err, length, IsU16, ◌==◌, ==_refl, le→not_ltb, if◌then◌else◌,
}
use bleps.Data.{Data, capacity, index}
use bleps.Data.Buffer.{Represents, as_slice-Represents}
use bleps.Hci
use bleps.Hci.{Hci, ◌>>=◌, millis}
use bleps.Hci.Writes.{write_bytes_lem}
use bleps.Hci.Reads.{delivering}
use bleps.Event.{failed, command_complete, check_command_completed}
use bleps.Command.{Command, opcode_of}
use bleps.Command.Encoding.{Carries, opcode, command_bytes, encode_command}
use bleps.Ble.{poll, wait_loop, wait_for_command_complete, completion, timeout_millis, run_command}
use bleps.Ble.Waiting.{completes, poll_completed}

-- What a round of the loop passes over: a poll that finds nothing, or the completion of another command.
pub data Passed : Type 0 where
  nothing : Passed
  other : ℕ → ℕ → List ℕ → Passed

abbrev pub PassedFor : ℕ → Passed → Type 0
PassedFor wanted nothing = Unit {0}
PassedFor wanted (other n code payload) =
    ((code == wanted) ≡ false) × IsU16 code × (3 + length payload ≤ capacity)

abbrev pub AllPassed : ℕ → List Passed → Type 0
AllPassed wanted [] = Unit {0}
AllPassed wanted (i ∷ is) = PassedFor wanted i × AllPassed wanted is

-- The answers of the device to the polls, and then `rest`.
abbrev pub arrivals : List Passed → List (Option ℕ) → List (Option ℕ)
arrivals [] rest = rest
arrivals (nothing ∷ is) rest = none ∷ arrivals is rest
arrivals (other n code payload ∷ is) rest = map some (completes n code payload) ++ arrivals is rest

-- A round for each of them.
abbrev pub rounds : List Passed → ℕ → ℕ
rounds [] fuel = fuel
rounds (i ∷ is) fuel = suc (rounds is fuel)

module _ (ogf ocf wanted : ℕ) (code_of : opcode_of ogf ocf ≡ done wanted) (deadline : ℕ) where
  one_passed :
      (i : Passed) (is : List Passed) (fuel : ℕ) (rest : List (Option ℕ)) (h : Hci)
      → PassedFor wanted i
      → h.clock h.ticks ≤ deadline
      → wait_loop
          (suc (rounds is fuel))
          ogf
          ocf
          deadline
          (record h { reads = arrivals (i ∷ is) rest })
        ≡ wait_loop
            (rounds is fuel)
            ogf
            ocf
            deadline
            (record h { reads = arrivals is rest; ticks = h.ticks + 1 })
  unfolding wait_loop poll Hci.read completion millis
  one_passed nothing is fuel rest h p early = rw (le→not_ltb deadline (h.clock h.ticks) early) refl
  one_passed (other n code payload) is fuel rest h (differs, small, fits) early =
      let (d, polled, r) = poll_completed n code payload (arrivals is rest) h small fits in
      rw (◌>>=◌, polled, code_of, differs, le→not_ltb deadline (h.clock h.ticks) early) refl

  wait_loop_passes_all :
      (is : List Passed) (fuel : ℕ) (rest : List (Option ℕ)) (h : Hci)
      → AllPassed wanted is
      → ((j : ℕ) → j < length is → h.clock (h.ticks + j) ≤ deadline)
      → wait_loop (rounds is fuel) ogf ocf deadline (record h { reads = arrivals is rest })
        ≡ wait_loop fuel ogf ocf deadline (record h { reads = rest; ticks = h.ticks + length is })
  wait_loop_passes_all [] fuel rest h p early =
      let same : h.ticks ≡ h.ticks + 0 = omega arith in
      ap (λ t. wait_loop fuel ogf ocf deadline (record h { reads = rest; ticks = t })) same
  wait_loop_passes_all (i ∷ is) fuel rest h (here, later) early =
      let first : h.ticks + 0 ≡ h.ticks = omega arith in
      let shift : (j : ℕ) → h.ticks + suc j ≡ (h.ticks + 1) + j = λ j. omega arith in
      let h' : Hci = record h { ticks = h.ticks + 1 } in
      one_passed i is fuel rest h here
        (subst (λ t. h.clock t ≤ deadline) first (early 0 (omega arith)))
      ∙ wait_loop_passes_all is fuel rest h' later
          (λ j lt. subst (λ t. h.clock t ≤ deadline) (shift j) (early (suc j) (omega arith)))
      ∙ ap (λ t. wait_loop fuel ogf ocf deadline (record h { reads = rest; ticks = t }))
          (let e : (h.ticks + 1) + length is ≡ h.ticks + suc (length is) = omega arith in e)

  -- The completion that is waited for ends the loop before the clock is looked at.
  answered :
      (fuel n : ℕ) (payload : List ℕ) (rest : List (Option ℕ)) (h : Hci)
      → IsU16 wanted
      → 3 + length payload ≤ capacity
      → (d : Data) × (wait_loop
            (suc fuel)
            ogf
            ocf
            deadline
            (delivering (completes n wanted payload) rest h)
          ≡ done (ok (command_complete n wanted d), record h { reads = rest }))
        × Represents d payload
  unfolding wait_loop completion
  answered fuel n payload rest h small fits =
      let (d, polled, r) = poll_completed n wanted payload rest h small fits in
      (d, rw (◌>>=◌, polled, code_of, ==_refl wanted) refl, r)

-- A command that the controller completes, behind polls that find nothing and the completions of other
-- commands, at each of which the clock is at most a second past the start: it is sent as its packet (type
-- byte, opcode, number of parameter bytes, parameters; the intervals of custom advertising
-- parameters high byte first, as the code writes them). The event of its completion is the result
-- when its status is 0, and else the failure with that status. Nothing behind that event is taken, and
-- a round of fuel for each poll is enough.
pub run_command_behind :
    (is : List Passed) (fuel ogf ocf n status : ℕ) (more : List ℕ) (c : Command) (ps : List ℕ)
    (rest : List (Option ℕ)) (h : Hci)
    → Carries c ps
    → opcode_of ogf ocf ≡ done (opcode c)
    → IsU16 (opcode c)
    → 4 + length more ≤ capacity
    → AllPassed (opcode c) is
    → ((j : ℕ) → j < length is → h.clock ((h.ticks + 1) + j) ≤ h.clock h.ticks + timeout_millis)
    → (d : Data) × (run_command (rounds is (suc fuel)) c ogf ocf (record h {
      reads = arrivals is (map some (completes n (opcode c) (status ∷ more)) ++ rest);
    })
        ≡ done (
          if not (status == 0) then err (failed status) else ok (command_complete n (opcode c) d),
          record h {
            reads = rest;
            ticks = (h.ticks + 1) + length is;
            written = h.written ++ command_bytes c ps;
          },
        ))
      × Represents d (status ∷ more)
unfolding run_command wait_for_command_complete millis check_command_completed index
run_command_behind is fuel ogf ocf n status more c ps rest h carries code small fits passed early =
    let (d₀, e₀, r₀) = encode_command c ps carries in
    let answer = map some (completes n (opcode c) (status ∷ more)) ++ rest in
    let sent : Hci = record h { ticks = h.ticks + 1; written = h.written ++ command_bytes c ps } in
    let deadline = h.clock h.ticks + timeout_millis in
    let passing =
      wait_loop_passes_all ogf ocf (opcode c) code deadline is (suc fuel) answer sent passed
        early in
    let (d, e, r) =
      answered ogf ocf (opcode c) code deadline fuel n (status ∷ more) rest
        (record sent { ticks = (h.ticks + 1) + length is }) small (omega (arith, fits)) in
    (
      d,
      rw
          (
            ◌>>=◌,
            e₀,
            as_slice-Represents r₀,
            write_bytes_lem (command_bytes c ps) (record h { reads = arrivals is answer }),
            passing,
            e,
            as_slice-Represents r,
          )
          refl,
      r,
    )
