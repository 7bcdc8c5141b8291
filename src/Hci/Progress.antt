-- ===== src/Hci/Progress.antt =====
-- Code on the connection takes reads and gives none back, and does not run out of fuel.
use bleps.Common.{
  ℕ, zero, suc, subst, ◌+◌, ◌≤◌, ◌≡◌, ◌≢◌, refl, Bool, true, false, Option, none, some, List, [],
  ◌∷◌, arith, length, Run, done, panic, hang, stuck, Bool-cases, inl, inr, if◌then◌else◌, require,
  leb, ltb, set, Run-cases, require-ne-stuck, ◌⊎◌,
}
use bleps.Common as C
use bleps.Data
use bleps.Data.{Data, zeros}
use bleps.Data.Ends.{new-ne-stuck}
use bleps.Hci.{
  Hci, M, ◌>>=◌, pure, lift, read, read_unwrap, await_byte, read_awaited, fill_loop, read_data,
  next_read,
}

-- A call that has `have` reads before it does not get stuck, and where it returns it has taken `n`
-- of them at least.
abbrev pub Leaves {ℓ} : {A : Type ℓ} → ℕ → ℕ → Run (A × Hci) → Type 0
Leaves n have (done (a, h)) = n + length h.reads ≤ have
Leaves n have panic = Unit
Leaves n have hang = Unit
Leaves n have stuck = ⊥

abbrev pub Progress {ℓ} : {A : Type ℓ} → ℕ → M A → Type 0
Progress n m = (h : Hci) → Leaves n (length h.reads) (m h)

pub Leaves-weaken {ℓ} :
    {A : Type ℓ} (n k have more : ℕ) (r : Run (A × Hci))
    → k + have ≤ n + more
    → Leaves n have r
    → Leaves k more r
Leaves-weaken n k have more (done (a, h)) le p = omega arith
Leaves-weaken n k have more panic le p = tt
Leaves-weaken n k have more hang le p = tt
Leaves-weaken n k have more stuck le p = p

pub Leaves-ne-stuck {ℓ} :
    {A : Type ℓ} (n have : ℕ) (r : Run (A × Hci)) → Leaves n have r → r ≢ stuck
Leaves-ne-stuck n have (done (a, h)) p = λ e. cc
Leaves-ne-stuck n have panic p = λ e. cc
Leaves-ne-stuck n have hang p = λ e. cc
Leaves-ne-stuck n have stuck p = absurd p

pub Leaves-at-done {ℓ} :
    {A : Type ℓ} (n have : ℕ) (r : Run (A × Hci))
    → Leaves n have r
    → (a : A) (h : Hci) → r ≡ done (a, h)
    → n + length h.reads ≤ have
Leaves-at-done n have r p a h e = subst (Leaves n have) e p

pub Progress-weaken {ℓ} : {A : Type ℓ} (n : ℕ) (m : M A) → Progress n m → Progress 0 m
Progress-weaken n m p h =
    Leaves-weaken n 0 (length h.reads) (length h.reads) (m h) (omega arith) (p h)

pub if-Progress {ℓ} :
    {A : Type ℓ} (n : ℕ) (b : Bool) (x y : M A)
    → Progress n x
    → Progress n y
    → Progress n (if b then x else y)
if-Progress n true x y px py = px
if-Progress n false x y px py = py

-- The rest of a call, for a result in hand.
abbrev then_do {ℓ κ} : {A : Type ℓ} {B : Type κ} → Run (A × Hci) → (A → M B) → Run (B × Hci)
then_do r f = elim r [ done (a, h') ↦ f a h' | panic ↦ panic | hang ↦ hang | stuck ↦ stuck ]

then_do-Leaves {ℓ κ} :
    {A : Type ℓ} {B : Type κ} (n k have : ℕ) (r : Run (A × Hci)) (f : A → M B)
    → Leaves n have r
    → ((a : A) (h' : Hci) → n + length h'.reads ≤ have → Leaves k (length h'.reads) (f a h'))
    → Leaves (n + k) have (then_do r f)
then_do-Leaves n k have (done (a, h)) f p pf =
    Leaves-weaken k (n + k) (length h.reads) have (f a h) (omega arith) (pf a h p)
then_do-Leaves n k have panic f p pf = tt
then_do-Leaves n k have hang f p pf = tt
then_do-Leaves n k have stuck f p pf = p

-- The rest of the code is looked at only with the reads that are left.
pub bind-Leaves {ℓ κ} :
    {A : Type ℓ} {B : Type κ} (n k : ℕ) (m : M A) (f : A → M B) (h : Hci)
    → Progress n m
    → ((a : A) (h' : Hci)
        → n + length h'.reads ≤ length h.reads
        → Leaves k (length h'.reads) (f a h'))
    → Leaves (n + k) (length h.reads) ((m >>= f) h)
bind-Leaves n k m f h pm pf = then_do-Leaves n k (length h.reads) (m h) f (pm h) pf

pub bind-Progress {ℓ κ} :
    {A : Type ℓ} {B : Type κ} (n k : ℕ) (m : M A) (f : A → M B)
    → Progress n m
    → ((a : A) → Progress k (f a))
    → Progress (n + k) (m >>= f)
bind-Progress n k m f pm pf h = bind-Leaves n k m f h pm (λ a h' _. pf a h')

pub pure-Progress {ℓ} : {A : Type ℓ} (a : A) → Progress 0 (pure a)
pure-Progress a h = omega arith

pub lift-Progress {ℓ} : {A : Type ℓ} (m : Run A) → m ≢ stuck → Progress 0 (lift m)
lift-Progress (done a) ns h = omega arith
lift-Progress panic ns h = tt
lift-Progress hang ns h = tt
lift-Progress stuck ns h = ns refl

next_read_shrinks : (rs : List (Option ℕ)) → length (next_read rs).1 ≤ length rs
unfolding next_read
next_read_shrinks [] = omega arith
next_read_shrinks (r ∷ rs) = omega arith

pub read-Progress : Progress 0 read
unfolding read
read-Progress h = omega (arith, next_read_shrinks h.reads)

unwrapped :
    (rs : List (Option ℕ)) (h : Hci)
    → Leaves 1
        (length rs)
        (lift (C.unwrap (next_read rs).0) (record h { reads = (next_read rs).1 }))
unfolding next_read
unwrapped [] h = tt
unwrapped (none ∷ rs) h = tt
unwrapped (some b ∷ rs) h = omega arith

pub read_unwrap-Progress : Progress 1 read_unwrap
unfolding read_unwrap read
read_unwrap-Progress h = unwrapped h.reads h

awaited :
    (rs : List (Option ℕ))
    → (await_byte rs ≢ stuck)
      × ((b : ℕ) (rest : List (Option ℕ))
          → await_byte rs ≡ done (b, rest)
          → suc (length rest) ≤ length rs)
unfolding await_byte
awaited [] = ((λ e. cc), λ b rest e. cc)
awaited (none ∷ rs) = ((awaited rs).0, λ b rest e. omega (arith, (awaited rs).1 b rest e))
awaited (some b ∷ rs) = ((λ e. cc), λ c rest e. ground arith)

pub read_awaited-Progress : Progress 0 read_awaited
unfolding read_awaited
read_awaited-Progress h = elim (Run-cases (await_byte h.reads)) [
  | inl ((b, rest), e) ↦ rw (e, Leaves, read_awaited) (omega (arith, (awaited h.reads).1 b rest e))
  | inr (inl e) ↦ rw (e, Leaves, read_awaited) tt
  | inr (inr (inl e)) ↦ rw (e, Leaves, read_awaited) tt
  | inr (inr (inr e)) ↦ absurd ((awaited h.reads).0 e)
]

pub fill_loop-Progress : (n i : ℕ) (buf : List ℕ) → Progress 0 (fill_loop n i buf)
unfolding fill_loop
fill_loop-Progress zero i buf = pure-Progress buf
fill_loop-Progress (suc n) i buf = bind-Progress 0 0 read_awaited _ read_awaited-Progress λ b.
    bind-Progress 0 0 (lift (require (ltb i (length buf)))) _
      (lift-Progress (require (ltb i (length buf))) (require-ne-stuck (ltb i (length buf))))
      λ _. fill_loop-Progress n (i + 1) (set buf i b)

pub read_data-Progress : (n : ℕ) → Progress 0 (read_data n)
unfolding read_data
read_data-Progress n =
    bind-Progress 0 0 (fill_loop n 0 zeros) _ (fill_loop-Progress n 0 zeros) λ buf.
      bind-Progress 0 0 (lift (Data.new buf)) _ (lift-Progress (Data.new buf) (new-ne-stuck buf))
        λ d. pure-Progress (record d { len = n })
