-- ===== src/Asynch/Fuel.antt =====
-- The rounds of `Data::async_read` of bleps/src/lib.rs (775-795) suffice.
use bleps.Common.{
  ℕ, zero, suc, ◌+◌, ◌<◌, ◌≡◌, ◌≢◌, ◌==◌, refl, ap, true, false, List, [], ◌∷◌, arith, leb, length,
  length-drop, take, Run, done, panic, hang, stuck, require, Bool-cases, require-ne-stuck, inl, inr,
}
use bleps.Data.{copy_at}
use bleps.Data.Ends.{copy_at-ne-stuck}
use bleps.Asynch.Wire.{Wire, M, ◌>>=◌, lift, read, read_loop, total, left_over}

-- A round that asks for bytes takes a chunk or a part of one.
left_over-shrinks :
    (n : ℕ) (c : List ℕ) (cs : List (List ℕ)) → 0 < n → total (left_over n c cs) < total (c ∷ cs)
left_over-shrinks n c cs h = elim (Bool-cases (leb (length c) n)) [
  | inl whole ↦ rw whole (omega arith)
  | inr part ↦
      let big : n < length c = ground arith in rw part (omega (arith, length-drop n c, big))
]

module _ {A B : Type 0} (f : A → M B) (w : Wire) where
  lift-then : (m : Run A) → m ≢ stuck → ((a : A) → f a w ≢ stuck) → (lift m >>= f) w ≢ stuck
  lift-then (done a) h k = k a
  lift-then panic h k = λ e. cc
  lift-then hang h k = λ e. cc
  lift-then stuck h k = λ e. h refl

module _ {B : Type 0} (f : List ℕ → M B) (n : ℕ) (w : Wire) where
  some-then :
      (l : List (List ℕ))
      → (n == 0) ≡ false
      → ((c : List ℕ) (cs : List (List ℕ))
          → l ≡ c ∷ cs
          → f (take n c) (record w { chunks = left_over n c cs }) ≢ stuck)
      → (read n >>= f) (record w { chunks = l }) ≢ stuck
  unfolding read
  some-then [] asked k = rw (◌>>=◌, read, asked) λ e. cc
  some-then (c ∷ cs) asked k = rw (◌>>=◌, read, asked) (k c cs refl)

  none-then :
      (l : List (List ℕ))
      → (n == 0) ≡ true
      → f [] (record w { chunks = l }) ≢ stuck
      → (read n >>= f) (record w { chunks = l }) ≢ stuck
  unfolding read
  none-then l asked k = rw (◌>>=◌, read, asked) k

-- With a round more than there are chunks and bytes to come, the loop never runs out of rounds.
pub read_loop-ne-stuck :
    (fuel idx len : ℕ) (buffer : List ℕ) (w : Wire) (l : List (List ℕ))
    → total l < fuel
    → read_loop fuel idx len buffer (record w { chunks = l }) ≢ stuck
unfolding read_loop
read_loop-ne-stuck zero idx len buffer w l h = absurd (omega arith)
read_loop-ne-stuck (suc fuel) idx len buffer w l h =
    lift-then _ (record w { chunks = l }) (require (leb (idx + len) 256))
      (require-ne-stuck (leb (idx + len) 256))
      λ u. elim (Bool-cases (len == 0)) [
        | inl nothing ↦ none-then _ len w l nothing (
            lift-then _ (record w { chunks = l }) (copy_at buffer idx [])
              (copy_at-ne-stuck buffer idx [])
              λ b. (let last : leb len (idx + 0) ≡ true = ground arith in rw last λ e. cc))
        | inr asked ↦ some-then _ len w l asked λ c cs e.
            lift-then _ (record w { chunks = left_over len c cs }) (copy_at buffer idx (take len c))
              (copy_at-ne-stuck buffer idx (take len c))
              λ b.
                let rest_l = left_over len c cs in
                let shrunk = left_over-shrinks len c cs (let m : 0 < len = ground arith in m) in
                let before : total l ≡ total (c ∷ cs) = ap total e in
                elim (Bool-cases (leb len (idx + length (take len c)))) [
                  | inl last ↦ rw last λ e. cc
                  | inr more ↦ rw more (
                      read_loop-ne-stuck fuel (idx + length (take len c)) len b w rest_l
                        (omega (arith, shrunk, before)))
                ]
      ]
