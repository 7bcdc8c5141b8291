-- ===== src/Ble/Waiting.antt =====
-- Waiting for a command: `wait_for_command_complete` of bleps/src/lib.rs (364-389) on a device that
-- stays silent.
use bleps.Common.{
  ℕ, zero, suc, ◌+◌, ◌≤◌, ◌<◌, ◌≡◌, refl, ap, ◌∙◌, Option, none, some, List, [], ◌∷◌, arith, done,
  ok, err, ltb, subst, sym, le→not_ltb, lt→ltb, if◌then◌else◌,
}
use bleps.Event.{Error, EventType, timeout}
use bleps.Common.{==_refl, ◌++◌, length, u16_le, u16_of-bytes, IsU16}
use bleps.Data.{Data, capacity, index}
use bleps.Data.Buffer.{Represents, as_slice-Represents, subdata_from-Represents}
use bleps.Event
use bleps.Event.{command_complete}
use bleps.Event.Read as EventRead
use bleps.Hci
use bleps.Hci.Reads.{delivering, read_data_lem}
use bleps.Hci.{Hci, ◌>>=◌, lift, pure, millis}
use bleps.Command.{opcode_of}
use bleps.Ble.{
  event, poll_packet, poll, wait_loop, wait_for_command_complete, completion, timeout_millis,
}

-- A connection on which nothing more arrives.
abbrev pub silent : (ℕ → ℕ) → ℕ → List ℕ → Hci
silent clock ticks written = record { reads = []; clock = clock; ticks = ticks; written = written }

module _ (clock : ℕ → ℕ) (written : List ℕ) where
  poll-silent :
      (ticks : ℕ) → poll (silent clock ticks written) ≡ done (none, silent clock ticks written)
  unfolding poll Hci.read
  poll-silent ticks = refl

  -- One round of the loop.
  round_silent :
      (fuel ogf ocf deadline ticks : ℕ)
      → wait_loop (suc fuel) ogf ocf deadline (silent clock ticks written)
        ≡ (if ltb deadline (clock ticks)
              then pure (err timeout)
              else wait_loop fuel ogf ocf deadline)
            (silent clock (ticks + 1) written)
  unfolding wait_loop poll Hci.read completion millis
  round_silent fuel ogf ocf deadline ticks = refl

  wait_loop-silent :
      (k fuel ogf ocf deadline ticks : ℕ)
      → ((j : ℕ) → j < k → clock (ticks + j) ≤ deadline)
      → deadline < clock (ticks + k)
      → k < fuel
      → wait_loop fuel ogf ocf deadline (silent clock ticks written)
        ≡ done (err timeout, silent clock (suc (ticks + k)) written)
  wait_loop-silent k zero ogf ocf deadline ticks early late fits = absurd (omega arith)
  wait_loop-silent zero (suc fuel) ogf ocf deadline ticks early late fits =
      let here : ticks + 0 ≡ ticks = omega arith in
      let next : ticks + 1 ≡ suc (ticks + 0) = omega arith in
      round_silent fuel ogf ocf deadline ticks
      ∙ rw (lt→ltb deadline (clock ticks) (subst (λ i. deadline < clock i) here late), next) refl
  wait_loop-silent (suc k) (suc fuel) ogf ocf deadline ticks early late fits =
      let here : ticks + 0 ≡ ticks = omega arith in
      let shift : (j : ℕ) → ticks + suc j ≡ (ticks + 1) + j = λ j. omega arith in
      round_silent fuel ogf ocf deadline ticks
      ∙ rw
          (le→not_ltb deadline (clock ticks)
            (subst (λ i. clock i ≤ deadline) here (early 0 (omega arith))))
          (wait_loop-silent k fuel ogf ocf deadline (ticks + 1)
              (λ j h. subst (λ i. clock i ≤ deadline) (shift j) (early (suc j) (omega arith)))
              (subst (λ i. deadline < clock i) (shift k) late) (omega arith)
            ∙ ap (λ i. done (err timeout, silent clock (suc i) written)) (sym (shift k)))

  -- On a silent device, waiting for a command ends with a timeout at the first reading of the clock
  -- that is more than a second behind the start, given a round of fuel for every reading; it reads
  -- the clock no more often, and sends nothing.
  pub wait_for_command_complete-silent :
      (k fuel ogf ocf ticks : ℕ)
      → ((j : ℕ) → j < k → clock (suc ticks + j) ≤ clock ticks + timeout_millis)
      → clock ticks + timeout_millis < clock (suc ticks + k)
      → k < fuel
      → wait_for_command_complete fuel ogf ocf (silent clock ticks written)
        ≡ done (err timeout, silent clock (suc (suc ticks + k)) written)
  unfolding wait_for_command_complete millis
  wait_for_command_complete-silent k fuel ogf ocf ticks early late fits =
      let next : ticks + 1 ≡ suc ticks = omega arith in
      ap (λ i. wait_loop fuel ogf ocf (clock ticks + timeout_millis) (silent clock i written)) next
      ∙ wait_loop-silent k fuel ogf ocf (clock ticks + timeout_millis) (suc ticks) early late fits

-- The event that completes the command with the opcode `code`.
abbrev pub completes : ℕ → ℕ → List ℕ → List ℕ
completes n code payload =
    let parameters = n ∷ (u16_le code ++ payload) in 0x04 ∷ 0x0e ∷ length parameters ∷ parameters

pub poll_completed :
    (n code : ℕ) (payload : List ℕ) (rest : List (Option ℕ)) (h : Hci)
    → IsU16 code
    → 3 + length payload ≤ capacity
    → (d : Data) × (poll (delivering (completes n code payload) rest h)
        ≡ done (some (event (command_complete n code d)), record h { reads = rest }))
      × Represents d payload
unfolding poll poll_packet Hci.read Hci.read_unwrap EventRead.read EventRead.read_event Event.decode
    Event.decode_command_complete Event.u16_at index
poll_completed n code payload rest h small fits =
    let bs = n ∷ (u16_le code ++ payload) in
    let (d₀, e₀, r₀) = read_data_lem bs rest h (omega arith) in
    let (d, e, r) = subdata_from-Represents 3 r₀ (omega arith) in
    (d, rw (◌>>=◌, e₀, as_slice-Represents r₀, u16_of-bytes code small, e) refl, r)

-- When the next packet completes the command that is waited for, waiting returns that event with its
-- return parameters, takes nothing behind it, and reads the clock once.
pub wait_for_command_complete_answered :
    (fuel ogf ocf n code : ℕ) (payload : List ℕ) (rest : List (Option ℕ)) (h : Hci)
    → opcode_of ogf ocf ≡ done code
    → IsU16 code
    → 3 + length payload ≤ capacity
    → (d : Data) × (wait_for_command_complete
          (suc fuel)
          ogf
          ocf
          (delivering (completes n code payload) rest h)
        ≡ done (ok (command_complete n code d), record h { reads = rest; ticks = h.ticks + 1 }))
      × Represents d payload
unfolding wait_for_command_complete wait_loop millis completion
wait_for_command_complete_answered fuel ogf ocf n code payload rest h e small fits =
    let (d, polled, r) =
      poll_completed n code payload rest (record h { ticks = h.ticks + 1 }) small fits in
    (d, rw (◌>>=◌, polled, e, ==_refl code) refl, r)
