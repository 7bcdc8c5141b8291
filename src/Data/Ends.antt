-- ===== src/Data/Ends.antt =====
-- The buffer's operations return or panic: they run no loop of the model.
use bleps.Common.{
  ℕ, ◌+◌, ◌≢◌, Option, none, some, List, ◌&&◌, leb, ltb, length, Run, done, stuck, require, unwrap,
  bind-ne-stuck, require-ne-stuck,
}
use bleps.Data.{
  Data, zeros, new, as_slice, index, slice_to, slice_from, slice, copy_at, subdata_from, append,
  checked_sub,
}

pub done-ne-stuck {ℓ} : {A : Type ℓ} (a : A) → done a ≢ stuck
done-ne-stuck a = λ e. cc

unwrap-ne-stuck {ℓ} : {A : Type ℓ} (o : Option A) → unwrap o ≢ stuck
unwrap-ne-stuck none = λ e. cc
unwrap-ne-stuck (some a) = λ e. cc

pub index-ne-stuck : (xs : List ℕ) (i : ℕ) → index xs i ≢ stuck
unfolding index
index-ne-stuck xs i = unwrap-ne-stuck _

pub slice_to-ne-stuck : (xs : List ℕ) (n : ℕ) → slice_to xs n ≢ stuck
unfolding slice_to
slice_to-ne-stuck xs n =
    bind-ne-stuck (require (leb n (length xs))) _ (require-ne-stuck _) (λ _ e. cc)

pub slice_from-ne-stuck : (xs : List ℕ) (n : ℕ) → slice_from xs n ≢ stuck
unfolding slice_from
slice_from-ne-stuck xs n =
    bind-ne-stuck (require (leb n (length xs))) _ (require-ne-stuck _) (λ _ e. cc)

pub slice-ne-stuck : (xs : List ℕ) (m n : ℕ) → slice xs m n ≢ stuck
unfolding slice
slice-ne-stuck xs m n =
    bind-ne-stuck (require (leb m n && leb n (length xs))) _ (require-ne-stuck _) (λ _ e. cc)

pub copy_at-ne-stuck : (xs : List ℕ) (n : ℕ) (bs : List ℕ) → copy_at xs n bs ≢ stuck
unfolding copy_at
copy_at-ne-stuck xs n bs =
    bind-ne-stuck (require (leb (n + length bs) (length xs))) _ (require-ne-stuck _) (λ _ e. cc)

pub checked_sub-ne-stuck : (a b : ℕ) → checked_sub a b ≢ stuck
unfolding checked_sub
checked_sub-ne-stuck a b = bind-ne-stuck (require (leb b a)) _ (require-ne-stuck _) (λ _ e. cc)

pub new-ne-stuck : (bs : List ℕ) → new bs ≢ stuck
unfolding new
new-ne-stuck bs = bind-ne-stuck (copy_at zeros 0 bs) _ (copy_at-ne-stuck zeros 0 bs) (λ _ e. cc)

pub as_slice-ne-stuck : (d : Data) → as_slice d ≢ stuck
unfolding as_slice
as_slice-ne-stuck d = slice_to-ne-stuck d.buf d.len

pub append-ne-stuck : (d : Data) (bs : List ℕ) → append d bs ≢ stuck
unfolding append
append-ne-stuck d bs =
    bind-ne-stuck (copy_at d.buf d.len bs) _ (copy_at-ne-stuck d.buf d.len bs) (λ _ e. cc)

pub subdata_from-ne-stuck : (d : Data) (n : ℕ) → subdata_from d n ≢ stuck
unfolding subdata_from
subdata_from-ne-stuck d n =
    search (bind-ne-stuck, checked_sub-ne-stuck, slice-ne-stuck, copy_at-ne-stuck, done-ne-stuck)
      depth 8

pub ruleset ends = (
  bind-ne-stuck, done-ne-stuck, index-ne-stuck, slice_to-ne-stuck, slice_from-ne-stuck,
  as_slice-ne-stuck, append-ne-stuck, new-ne-stuck, checked_sub-ne-stuck, subdata_from-ne-stuck,
)
