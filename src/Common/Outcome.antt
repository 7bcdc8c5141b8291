-- ===== src/Common/Outcome.antt =====
-- How a call of Rust code ends, and Rust's own `Result`.
use mathlib.Core.Path.{◌≡◌, refl}
use mathlib.Core.Logic.{◌≢◌, ◌⊎◌, inl, inr}
use mathlib.Core.Bool.{Bool, true, false}
use mathlib.Core.Option.{Option, none, some}

-- `panic`: an index out of range, a failed `unwrap`, an arithmetic overflow (a build with overflow
-- checks). `hang`: a loop that waits for a byte which never comes. `stuck` is no behaviour of the
-- code: a loop of the model ran out of fuel.
pub data Run {ℓ} (A : Type ℓ) : Type ℓ where
  done : A → Run A
  panic hang stuck : Run A

infixl 5 ◌>>=◌ ◌>>◌
abbrev pub ◌>>=◌ {ℓ κ} : {A : Type ℓ} {B : Type κ} → Run A → (A → Run B) → Run B
done a >>= f = f a
panic >>= f = panic
hang >>= f = hang
stuck >>= f = stuck

abbrev pub ◌>>◌ {ℓ} : {B : Type ℓ} → Run (Unit {0}) → Run B → Run B
m >> k = m >>= λ _. k

-- `assert`, and the bounds check of an index.
abbrev pub require : Bool → Run (Unit {0})
require true = done tt
require false = panic

abbrev pub unwrap {ℓ} : {A : Type ℓ} → Option A → Run A
unwrap (some a) = done a
unwrap none = panic

-- `Result<A, E>`.
pub data Result {ℓ κ} (E : Type ℓ) (A : Type κ) : Type (ℓ ⊔ κ) where
  ok : A → Result E A
  err : E → Result E A

-- Total correctness: the call returns, and its value satisfies `P`.
abbrev pub Returns {ℓ κ} : {A : Type ℓ} → Run A → (A → Type κ) → Type (ℓ ⊔ κ)
Returns {A} m P = (a : A) × (m ≡ done a) × P a

pub returns {ℓ κ} : {A : Type ℓ} {P : A → Type κ} (a : A) → P a → Returns (done a) P
returns a p = (a, refl, p)

pub bind-Returns {ℓ κ μ ν} :
    {A : Type ℓ} {B : Type κ} (m : Run A) {P : A → Type μ} (f : A → Run B) {Q : B → Type ν}
    → Returns m P
    → ((a : A) → P a → Returns (f a) Q)
    → Returns (m >>= f) Q
bind-Returns m f (a, e, p) k = let (b, e', q) = k a p in (b, rw e e', q)

pub weaken {ℓ κ μ} :
    {A : Type ℓ} (m : Run A) {P : A → Type κ} {Q : A → Type μ}
    → Returns m P
    → ((a : A) → P a → Q a)
    → Returns m Q
weaken m (a, e, p) k = (a, e, k a p)

pub Run-cases {ℓ} :
    {A : Type ℓ} (r : Run A) → ((a : A) × (r ≡ done a)) ⊎ ((r ≡ panic) ⊎ ((r ≡ hang) ⊎ (r ≡ stuck)))
Run-cases (done a) = inl (a, refl)
Run-cases panic = inr (inl refl)
Run-cases hang = inr (inr (inl refl))
Run-cases stuck = inr (inr (inr refl))

pub require-ne-stuck : (b : Bool) → require b ≢ stuck
require-ne-stuck true = λ e. cc
require-ne-stuck false = λ e. cc

pub bind-ne-stuck {ℓ κ} :
    {A : Type ℓ} {B : Type κ} (m : Run A) (f : A → Run B)
    → m ≢ stuck
    → ((a : A) → f a ≢ stuck)
    → (m >>= f) ≢ stuck
bind-ne-stuck (done a) f hm hf = hf a
bind-ne-stuck panic f hm hf = λ e. cc
bind-ne-stuck hang f hm hf = λ e. cc
bind-ne-stuck stuck f hm hf = absurd (hm refl)

-- `unwrap` of a `Result`.
abbrev pub unwrap_ok {ℓ κ} : {E : Type ℓ} {A : Type κ} → Result E A → Run A
unwrap_ok (ok a) = done a
unwrap_ok (err e) = panic
