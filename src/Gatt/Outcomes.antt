-- ===== src/Gatt/Outcomes.antt =====
-- Properties of what an expansion of `gatt` (bleps-macros/src/lib.rs) gives, by the way it is composed.
use bleps.Common.{◌≡◌, refl, subst, Bool, true, false, Option, none, some, if◌then◌else◌}
use bleps.Gatt.{Expansion, expands, compile_error, panics, ◌>>=◌}

-- The value of an expansion, if it has one, has a property.
pub record Yields {A : Type 0} (P : A → Type 0) (m : Expansion A) : Type 0 where
  pub yields : (a : A) → m ≡ expands a → P a

module _ {A : Type 0} where
  pub expands-Yields : {P : A → Type 0} (a : A) → P a → Yields P (expands a)
  expands-Yields {P} a p = record { yields = λ b e. (let q : a ≡ b = cc in subst P q p) }

  pub error-Yields : {P : A → Type 0} (message : _) → Yields P (compile_error message)
  error-Yields message = record { yields = λ b e. cc }

  pub panics-Yields : {P : A → Type 0} → Yields P panics
  panics-Yields = record { yields = λ b e. cc }

  pub if-Yields :
      {P : A → Type 0} (b : Bool) (x y : Expansion A)
      → (b ≡ true → Yields P x)
      → (b ≡ false → Yields P y)
      → Yields P (if b then x else y)
  if-Yields true x y hx hy = hx refl
  if-Yields false x y hx hy = hy refl

  pub weaken-Yields :
      {P Q : A → Type 0} (m : Expansion A) → Yields P m → ((a : A) → P a → Q a) → Yields Q m
  weaken-Yields m h k = record { yields = λ a e. k a (h.yields a e) }

module _ {A B : Type 0} where
  -- What follows gets the property of the value, and the equation for it.
  pub bind-Yields :
      {P : A → Type 0} {Q : B → Type 0} (m : Expansion A) (f : A → Expansion B)
      → Yields P m
      → ((a : A) → m ≡ expands a → P a → Yields Q (f a))
      → Yields Q (m >>= f)
  bind-Yields (expands a) f h k = k a refl (h.yields a refl)
  bind-Yields (compile_error message) f h k = record { yields = λ a e. cc }
  bind-Yields panics f h k = record { yields = λ a e. cc }

  pub bind-value :
      {Q : B → Type 0} (m : Expansion A) (f : A → Expansion B)
      → ((a : A) → m ≡ expands a → Yields Q (f a))
      → Yields Q (m >>= f)
  bind-value (expands a) f k = k a refl
  bind-value (compile_error message) f k = record { yields = λ a e. cc }
  bind-value panics f k = record { yields = λ a e. cc }

  -- A match on an option.
  pub option-Yields :
      {Q : B → Type 0} (o : Option A) (m : Expansion B) (g : A → Expansion B)
      → (o ≡ none → Yields Q m)
      → ((a : A) → o ≡ some a → Yields Q (g a))
      → Yields Q (elim o [ none ↦ m | some a ↦ g a ])
  option-Yields none m g hm hg = hm refl
  option-Yields (some a) m g hm hg = hg a refl
