-- ===== src/Gatt/Cccd.antt =====
-- The storage that `gatt` of bleps-macros/src/lib.rs (412-445) writes for a client characteristic
-- configuration: a static array of two bytes, and two closures on it.
use bleps.Common.{
  ℕ, ◌+◌, ◌-◌, ◌<◌, ◌≡◌, refl, ap, ◌∙◌, min, true, List, [], ◌∷◌, arith, Run, panic, hang, stuck,
  done, ◌>>=◌, ok, ltb, ltb→lt, lt→ltb, if◌then◌else◌, length, take, Bool-cases, inl, inr,
}
use bleps.Data
use bleps.Data.{copy_at}
use bleps.Attribute.{array_read, array_write}
use bleps.Attribute.Memory.{
  window_len, filled, overwritten, copied, copy_window, array_read_lem, array_write_lem, unchanged,
}

-- The static array as the program starts.
unfoldable pub initial : List ℕ
initial = 0 ∷ 0 ∷ []

-- The closure that reads: how many bytes, and the buffer with them.
unfoldable pub cccd_read : List ℕ → ℕ → List ℕ → Run (ℕ × List ℕ)
cccd_read backing off buffer =
    if ltb off (length backing)
    then (do
      let len : ℕ = length backing - off
      if ltb 0 len
          then (do
            let n : ℕ = min len (length buffer)
            buffer' ← copy_at buffer 0 (← Data.slice backing off (off + n))
            done (n, buffer'))
          else done (0, buffer))
    else done (0, buffer)

-- The closure that writes: the array after it.
unfoldable pub cccd_write : List ℕ → ℕ → List ℕ → Run (List ℕ)
cccd_write backing off bytes =
    if ltb off (length backing)
    then (do
      let len : ℕ = length backing - off
      if ltb 0 len
          then (do let n : ℕ = min len (length bytes); copy_at backing off (take n bytes))
          else done backing)
    else done backing

bind_assoc :
    {A B C : Type 0} (m : Run A) (f : A → Run B) (g : B → Run C)
    → (m >>= λ a. f a >>= g) ≡ ((m >>= f) >>= g)
bind_assoc (done a) f g = refl
bind_assoc panic f g = refl
bind_assoc hang f g = refl
bind_assoc stuck f g = refl

module _ (backing : List ℕ) (off : ℕ) (bytes : List ℕ) where
  abbrev pub size : ℕ
  size = window_len (length bytes) (length backing) off

  pub cccd_read_lem : cccd_read backing off bytes ≡ done (size, filled backing off bytes)
  unfolding cccd_read
  cccd_read_lem = elim (Bool-cases (ltb off (length backing))) [
    | inl inside ↦
        let within : off < length backing = ltb→lt off (length backing) inside in
        let some_left : ltb 0 (length backing - off) ≡ true =
          lt→ltb 0 (length backing - off) (omega arith) in
        let same_size : min (length backing - off) (length bytes) ≡ size = omega arith in
        rw (inside, some_left, same_size)
          (bind_assoc (Data.slice backing off (off + size)) (copy_at bytes 0) (λ b. done (size, b))
            ∙ ap (λ r. r >>= λ b. done (size, b)) (copied backing bytes off (omega arith)))
    | inr outside ↦ let none_left : size ≡ 0 = ground arith in rw (outside, none_left) refl
  ]

  pub cccd_write_lem : cccd_write backing off bytes ≡ done (overwritten backing off bytes)
  unfolding cccd_write
  cccd_write_lem = elim (Bool-cases (ltb off (length backing))) [
    | inl inside ↦
        let within : off < length backing = ltb→lt off (length backing) inside in
        let some_left : ltb 0 (length backing - off) ≡ true =
          lt→ltb 0 (length backing - off) (omega arith) in
        let same_size : min (length backing - off) (length bytes) ≡ size = omega arith in
        rw (inside, some_left, same_size) (copy_window backing off bytes (omega arith))
    | inr outside ↦
        let none_left : ◌≡◌ {A = ℕ} 0 size = ground arith in
        rw (outside) (ap done (unchanged backing off bytes none_left))
  ]

-- For every content of the storage, every offset and every buffer, within the storage or not, the two
-- closures never panic and do what an attribute of the type `&mut [u8; N]` does with the same bytes:
-- they read the same bytes into the buffer and report the same length, and they leave the same
-- bytes after a write.
pub cccd_read-array_read :
    (backing : List ℕ) (off : ℕ) (buffer bytes : List ℕ)
    → ((cccd_read backing off buffer >>= λ r. done (ok r.0, r.1)) ≡ array_read backing off buffer)
      × ((cccd_write backing off bytes >>= λ b. done (ok tt, b)) ≡ array_write backing off bytes)
cccd_read-array_read backing off buffer bytes = (
  rw (cccd_read_lem backing off buffer, array_read_lem backing off buffer) refl,
  rw (cccd_write_lem backing off bytes, array_write_lem backing off bytes) refl,
)
