-- ===== src/Common/Endings.antt =====
-- Properties of all the results of a call, by the way the call is composed.
use mathlib.Core.Path.{◌≡◌, refl, subst}
use mathlib.Core.Bool.{Bool, true, false}
use mathlib.Core.Option.{Option, none, some}
use bleps.Common.Tests.{if◌then◌else◌}
use bleps.Common.Outcome.{Result, ok, err, Run, done, panic, hang, stuck, ◌>>=◌}

-- The results of a call, if it returns, have a property.
pub record Ends {A : Type 0} (P : A → Type 0) (m : Run A) : Type 0 where
  pub ends : (a : A) → m ≡ done a → P a

module _ {A : Type 0} where
  pub done-Ends : {P : A → Type 0} (a : A) → P a → Ends P (done a)
  done-Ends {P} a p = record { ends = λ b e. (let q : a ≡ b = cc in subst P q p) }

  pub if-Ends :
      {Q : A → Type 0} (b : Bool) (x y : Run A) → Ends Q x → Ends Q y → Ends Q (if b then x else y)
  if-Ends true x y hx hy = hx
  if-Ends false x y hx hy = hy

module _ {A B : Type 0} where
  pub bind-Ends :
      {P : A → Type 0} {Q : B → Type 0} (m : Run A) (f : A → Run B)
      → Ends P m
      → ((a : A) → P a → Ends Q (f a))
      → Ends Q (m >>= f)
  bind-Ends (done a) f h k = k a (h.ends a refl)
  bind-Ends panic f h k = record { ends = λ a e. cc }
  bind-Ends hang f h k = record { ends = λ a e. cc }
  bind-Ends stuck f h k = record { ends = λ a e. cc }

  pub bind-any :
      {Q : B → Type 0} (m : Run A) (f : A → Run B) → ((a : A) → Ends Q (f a)) → Ends Q (m >>= f)
  bind-any (done a) f k = k a
  bind-any panic f k = record { ends = λ a e. cc }
  bind-any hang f k = record { ends = λ a e. cc }
  bind-any stuck f k = record { ends = λ a e. cc }

module _ {E A B : Type 0} where
  -- A match on a result.
  pub result-Ends :
      {Q : B → Type 0} (r : Result {0, 0} E A) (f : E → Run B) (g : A → Run B)
      → ((e : E) → Ends Q (f e))
      → ((a : A) → Ends Q (g a))
      → Ends Q (elim r [ ok a ↦ g a | err e ↦ f e ])
  result-Ends (ok a) f g hf hg = hg a
  result-Ends (err e) f g hf hg = hf e

module _ {A B : Type 0} where
  -- A match on an option.
  pub option-Ends :
      {Q : B → Type 0} (o : Option A) (m : Run B) (g : A → Run B)
      → Ends Q m
      → ((a : A) → Ends Q (g a))
      → Ends Q (elim o [ none ↦ m | some a ↦ g a ])
  option-Ends none m g hm hg = hm
  option-Ends (some a) m g hm hg = hg a

-- A weaker property of the results.
pub Ends-mono :
    {A : Type 0} {P Q : A → Type 0} {m : Run A} → Ends P m → ((a : A) → P a → Q a) → Ends Q m
Ends-mono h f = record { ends = λ a e. f a (h.ends a e) }
