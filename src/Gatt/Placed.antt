-- ===== src/Gatt/Placed.antt =====
-- Which handle the constants of the code of `gatt` (bleps-macros/src/lib.rs, 280-537) stand for.
use Prim.Native.String.{String}
use bleps.Common.{
  ℕ, suc, ◌+◌, ◌<◌, ◌≤◌, ◌≡◌, refl, subst, Bool, true, false, Option, none, some, List, [], ◌∷◌,
  ◌++◌, map, length, arith, All,
}
use bleps.Gatt.{Descriptor, Characteristic, Service}
use bleps.Gatt.Code.{Crates}
use bleps.Gatt.Plan.{
  Planned, announced, plan, plan_service, plan_characteristics, plan_characteristic,
  plan_description, plan_cccd, plan_descriptor, constants,
}

-- The constants of each attribute are its handle, counted from `n`.
abbrev pub Placed : ℕ → List Planned → Type 0
Placed n [] = Unit
Placed n (p ∷ ps) = All (λ x. x.1 ≡ n) p.constants × Placed (suc n) ps

Placed-append :
    (n m : ℕ) (ps qs : List Planned)
    → m ≡ n + length ps
    → Placed n ps
    → Placed m qs
    → Placed n (ps ++ qs)
Placed-append n m [] qs h hp hq = subst (λ k. Placed k qs) (omega arith) hq
Placed-append n m (p ∷ ps) qs h (here, hp) hq =
    (here, Placed-append (suc n) m ps qs (omega arith) hp hq)

announced-All :
    (name : Option String) (suffix : String) (n : ℕ) → All (λ x. x.1 ≡ n) (announced name suffix n)
announced-All none suffix n = tt
announced-All (some name) suffix n = (refl, tt)

cccd-Placed : (c : Characteristic) (b : Bool) (n : ℕ) → c.notify ≡ b → Placed n (plan_cccd c n)
cccd-Placed c true n on = rw (on) (announced-All c.name "_notify_enable_handle" n, tt)
cccd-Placed c false n off = rw (off) tt

description-Placed : (d : Option String) (n : ℕ) → Placed n (plan_description d)
description-Placed none n = tt
description-Placed (some text) n = (tt, tt)

descriptors-Placed :
    (crates : Crates) (ds : List Descriptor) (n : ℕ) → Placed n (map (plan_descriptor crates) ds)
descriptors-Placed crates [] n = tt
descriptors-Placed crates (d ∷ ds) n = (tt, descriptors-Placed crates ds (suc n))

characteristic-Placed :
    (crates : Crates) (c : Characteristic) (n : ℕ) → Placed n (plan_characteristic crates n c)
characteristic-Placed crates c n =
    let one : n + 1 ≡ suc n = omega arith in
    let two : n + 2 ≡ suc (suc n) = omega arith in
    let own = plan_cccd c (n + 2) in
    let text = plan_description c.description in
    let rest : Placed (n + 2) (own ++ (text ++ map (plan_descriptor crates) c.descriptors)) =
      Placed-append (n + 2) (n + 2 + length own) own _ refl (cccd-Placed c c.notify (n + 2) refl) (
        Placed-append (n + 2 + length own) (n + 2 + length own + length text) text _ refl
          (description-Placed c.description (n + 2 + length own))
          (descriptors-Placed crates c.descriptors (n + 2 + length own + length text))) in
    (
      tt,
      (
        subst (λ k. All (λ x. x.1 ≡ k) (announced c.name "_handle" (n + 1))) one
            (announced-All c.name "_handle" (n + 1)),
        subst (λ k. Placed k (own ++ (text ++ map (plan_descriptor crates) c.descriptors))) two
            rest,
      ),
    )

characteristics-Placed :
    (crates : Crates) (cs : List Characteristic) (n : ℕ)
    → Placed n (plan_characteristics crates n cs)
characteristics-Placed crates [] n = tt
characteristics-Placed crates (c ∷ cs) n =
    let first = plan_characteristic crates n c in
    Placed-append n (n + length first) first _ refl (characteristic-Placed crates c n)
      (characteristics-Placed crates cs (n + length first))

service-Placed : (crates : Crates) (s : Service) (n : ℕ) → Placed n (plan_service crates n s)
service-Placed crates s n =
    let one : n + 1 ≡ suc n = omega arith in
    (
      tt,
      subst (λ k. Placed k (plan_characteristics crates (n + 1) s.characteristics)) one
          (characteristics-Placed crates s.characteristics (n + 1)),
    )

pub plan-Placed : (crates : Crates) (ss : List Service) (n : ℕ) → Placed n (plan crates n ss)
plan-Placed crates [] n = tt
plan-Placed crates (s ∷ ss) n =
    let first = plan_service crates n s in
    Placed-append n (n + length first) first _ refl (service-Placed crates s n)
      (plan-Placed crates ss (n + length first))

pub All-append :
    {A : Type 0} (P : A → Type 0) (xs ys : List A) → All P xs → All P ys → All P (xs ++ ys)
All-append P [] ys hx hy = hy
All-append P (x ∷ xs) ys (h, hx) hy = (h, All-append P xs ys hx hy)

All-weaken :
    {A : Type 0} (P Q : A → Type 0) (xs : List A) → ((a : A) → P a → Q a) → All P xs → All Q xs
All-weaken P Q [] k h = tt
All-weaken P Q (x ∷ xs) k (h, hs) = (k x h, All-weaken P Q xs k hs)

pub Placed-bounds :
    (n m : ℕ) (ps : List Planned)
    → m ≡ n + length ps
    → Placed n ps
    → All (λ x. (n ≤ x.1) × (x.1 < m)) (constants ps)
Placed-bounds n m [] h hp = tt
Placed-bounds n m (p ∷ ps) h (here, hp) =
    All-append _ p.constants (constants ps)
      (All-weaken (λ x. x.1 ≡ n) (λ x. (n ≤ x.1) × (x.1 < m)) p.constants
        (λ x e. (omega arith, omega arith)) here)
      (All-weaken (λ x. (suc n ≤ x.1) × (x.1 < m)) (λ x. (n ≤ x.1) × (x.1 < m)) (constants ps)
        (λ x q. (let lo : suc n ≤ x.1 = q.0 in (omega arith, q.1)))
        (Placed-bounds (suc n) m ps (omega arith) hp))
