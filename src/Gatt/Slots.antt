-- ===== src/Gatt/Slots.antt =====
-- The statements that `gatt` of bleps-macros/src/lib.rs (280-537) writes for one attribute, and what a
-- sequence of them leaves.
use Prim.Native.String.{String}
use text.Mathlib.TextPositions.{eq_refl}
use bleps.Common.{
  ℕ, Bool, true, false, not, ◌&&◌, ◌≡◌, refl, sym, ap, ◌∙◌, Option, none, some, List, [], ◌∷◌, ◌++◌,
  map, Option-cases, inl, inr,
}
use bleps.Att.{Uuid}
use bleps.Gatt.{same}
use bleps.Gatt.Code.{Decl, array_decl, reference_decl, variable_decl, closures_decl, attribute_decl}
use bleps.Gatt.Generate.{constant_decls}
use bleps.Gatt.Running.{
  Content, constant, variable, functions, Entry, Bound, held, attribute, Env, lookup, refer, attach,
  exec_decl, exec, collect, decl_name, fresh, distinct,
}

and_left : (a b : Bool) → (a && b) ≡ true → a ≡ true
and_left true b h = refl
and_left false b h = cc

and_right : (a b : Bool) → (a && b) ≡ true → b ≡ true
and_right true b h = h
and_right false b h = cc

not-true : (b : Bool) → not b ≡ true → b ≡ false
not-true false h = refl
not-true true h = cc

-- The statements of one attribute: where they stand they bind its name to the entry, and no later
-- statement binds it again if none binds any name again.
abbrev pub Means : List Decl → String → Entry → Type 0
Means decls attrib entry =
    ((env : Env)
      → (env' : Env) × (exec env decls ≡ some env') × (lookup attrib env' ≡ some (attribute entry)))
    × ((rest : List Decl) → distinct (decls ++ rest) ≡ true → fresh attrib rest ≡ true)

pub record Slot : Type 0 where
  pub decls : List Decl
  pub attrib : String
  pub constants : List (String × ℕ)
  pub entry : Entry
  pub means : Means decls attrib entry

exec-cons :
    (d : Decl) (ds : List Decl) (env env' : Env)
    → exec_decl env d ≡ some env'
    → exec env (d ∷ ds) ≡ exec env' ds
unfolding exec
exec-cons d ds env env' e = rw (exec, e) refl

exec-none :
    (d : Decl) (ds : List Decl) (env : Env) → exec_decl env d ≡ none → exec env (d ∷ ds) ≡ none
unfolding exec
exec-none d ds env e = rw (exec, e) refl

exec-one : (d : Decl) (env env' : Env) → exec_decl env d ≡ some env' → exec env (d ∷ []) ≡ some env'
unfolding exec
exec-one d env env' e = rw (exec, e) refl

exec_decl-array :
    (x : String) (bytes : List ℕ) (env : Env)
    → exec_decl env (array_decl x bytes) ≡ some ((x, held (constant bytes)) ∷ env)
unfolding exec_decl
exec_decl-array x bytes env = refl

lookup_self : (x : String) (b : Bound) (env : Env) → lookup x ((x, b) ∷ env) ≡ some b
unfolding lookup
lookup_self x b env = rw (eq_refl x) refl

exec_decl-reference :
    (x y : String) (b : Bound) (env : Env)
    → exec_decl ((y, b) ∷ env) (reference_decl x y) ≡ some ((x, b) ∷ (y, b) ∷ env)
unfolding exec_decl
exec_decl-reference x y b env = ap (λ o. refer x o ((y, b) ∷ env)) (lookup_self y b env)

exec_decl-attribute :
    (x y : String) (uuid : Uuid) (c : Content) (env : Env)
    → exec_decl ((y, held c) ∷ env) (attribute_decl x uuid y)
      ≡ some ((x, attribute (uuid, c)) ∷ (y, held c) ∷ env)
unfolding exec_decl
exec_decl-attribute x y uuid c env =
    ap (λ o. attach x uuid o ((y, held c) ∷ env)) (lookup_self y (held c) env)

pub constant-Means :
    (x y z : String) (uuid : Uuid) (bytes : List ℕ)
    → Means (constant_decls x y z uuid bytes) z (uuid, constant bytes)
constant-Means x y z uuid bytes = (
  λ env.
      (let content = constant bytes in
        let env₁ : Env = (x, held content) ∷ env in
        let env₂ : Env = (y, held content) ∷ env₁ in
        let last = attribute_decl z uuid y in
        (
          (z, attribute (uuid, content)) ∷ env₂,
          exec-cons (array_decl x bytes) (reference_decl y x ∷ last ∷ []) env env₁
                (exec_decl-array x bytes env)
              ∙ exec-cons (reference_decl y x) (last ∷ []) env₁ env₂
                  (exec_decl-reference y x (held content) env)
              ∙ exec-one last env₂ _ (exec_decl-attribute z y uuid content env₁),
          lookup_self z (attribute (uuid, content)) env₂,
        )),
  λ rest h. and_left (fresh z rest) (distinct rest) (
      and_right (fresh y (attribute_decl z uuid y ∷ rest))
        (distinct (attribute_decl z uuid y ∷ rest))
        (and_right (fresh x (reference_decl y x ∷ attribute_decl z uuid y ∷ rest))
          (distinct (reference_decl y x ∷ attribute_decl z uuid y ∷ rest)) h)),
)

-- A declaration of data, and the attribute with it.
abbrev pub Holds : Decl → String → Content → Type 0
Holds d x c = (env : Env) → exec_decl env d ≡ some ((x, held c) ∷ env)

pub pair-Means :
    (d : Decl) (x z : String) (uuid : Uuid) (c : Content)
    → Holds d x c
    → Means (d ∷ attribute_decl z uuid x ∷ []) z (uuid, c)
pair-Means d x z uuid c holds = (
  λ env.
      (let env₁ : Env = (x, held c) ∷ env in
        let last = attribute_decl z uuid x in
        (
          (z, attribute (uuid, c)) ∷ env₁,
          exec-cons d (last ∷ []) env env₁ (holds env)
              ∙ exec-one last env₁ _ (exec_decl-attribute z x uuid c env),
          lookup_self z (attribute (uuid, c)) env₁,
        )),
  λ rest h. and_left (fresh z rest) (distinct rest) (
      and_right (fresh (decl_name d) (attribute_decl z uuid x ∷ rest))
        (distinct (attribute_decl z uuid x ∷ rest)) h),
)

-- Statements before those of an attribute that bind a name of their own.
pub before-Means :
    (x : String) (bytes : List ℕ) (ds : List Decl) (z : String) (e : Entry)
    → Means ds z e
    → Means (array_decl x bytes ∷ ds) z e
unfolding exec exec_decl
before-Means x bytes ds z e (runs, guarded) =
    (λ env. runs ((x, held (constant bytes)) ∷ env), λ rest h. guarded rest (and_right _ _ h))

refer-frame :
    (a x : String) (b : Option Bound) (env env' : Env)
    → refer x b env ≡ some env'
    → same a x ≡ false
    → lookup a env' ≡ lookup a env
unfolding lookup
refer-frame a x none env env' e other = cc
refer-frame a x (some b) env env' e other =
    let q : (x, b) ∷ env ≡ env' = cc in ap (lookup a) (sym q) ∙ rw (other) refl

attach-frame :
    (a x : String) (uuid : Uuid) (b : Option Bound) (env env' : Env)
    → attach x uuid b env ≡ some env'
    → same a x ≡ false
    → lookup a env' ≡ lookup a env
unfolding lookup
attach-frame a x uuid none env env' e other = cc
attach-frame a x uuid (some (attribute b)) env env' e other = cc
attach-frame a x uuid (some (held c)) env env' e other =
    let q : (x, attribute (uuid, c)) ∷ env ≡ env' = cc in ap (lookup a) (sym q) ∙ rw (other) refl

-- A statement leaves the other names as they are.
exec_decl-frame :
    (a : String) (d : Decl) (env env' : Env)
    → exec_decl env d ≡ some env'
    → same a (decl_name d) ≡ false
    → lookup a env' ≡ lookup a env
unfolding exec_decl
exec_decl-frame a (array_decl x bytes) env env' e other =
    refer-frame a x (some (held (constant bytes))) env env' e other
exec_decl-frame a (reference_decl x y) env env' e other =
    refer-frame a x (lookup y env) env env' e other
exec_decl-frame a (variable_decl x v) env env' e other =
    refer-frame a x (some (held (variable v))) env env' e other
exec_decl-frame a (closures_decl x r w n) env env' e other =
    refer-frame a x (some (held (functions r w n))) env env' e other
exec_decl-frame a (attribute_decl x uuid y) env env' e other =
    attach-frame a x uuid (lookup y env) env env' e other

exec-frame :
    (a : String) (ds : List Decl) (env env' : Env)
    → exec env ds ≡ some env'
    → fresh a ds ≡ true
    → lookup a env' ≡ lookup a env
unfolding exec
exec-frame a [] env env' e f = let q : env ≡ env' = cc in ap (lookup a) (sym q)
exec-frame a (d ∷ ds) env env' e f = elim (Option-cases (exec_decl env d)) [
  | inl e₁ ↦ (let bad = exec-none d ds env e₁ in cc)
  | inr (env₁, e₁) ↦
      exec-frame a ds env₁ env' (sym (exec-cons d ds env env₁ e₁) ∙ e) (and_right _ _ f)
      ∙ exec_decl-frame a d env env₁ e₁ (not-true _ (and_left _ _ f))
]

exec-append :
    (xs ys : List Decl) (env env' : Env)
    → exec env xs ≡ some env'
    → exec env (xs ++ ys) ≡ exec env' ys
unfolding exec
exec-append [] ys env env' e = let q : env ≡ env' = cc in ap (λ k. exec k ys) q
exec-append (d ∷ xs) ys env env' e = elim (Option-cases (exec_decl env d)) [
  | inl e₁ ↦ (let bad = exec-none d xs env e₁ in cc)
  | inr (env₁, e₁) ↦
      exec-cons d (xs ++ ys) env env₁ e₁
      ∙ exec-append xs ys env₁ env' (sym (exec-cons d xs env env₁ e₁) ∙ e)
]

distinct-append : (xs ys : List Decl) → distinct (xs ++ ys) ≡ true → distinct ys ≡ true
distinct-append [] ys h = h
distinct-append (x ∷ xs) ys h = distinct-append xs ys (and_right _ _ h)

abbrev pub decls_of : List Slot → List Decl
decls_of [] = []
decls_of (s ∷ ss) = s.decls ++ decls_of ss

abbrev pub constants_of : List Slot → List (String × ℕ)
constants_of [] = []
constants_of (s ∷ ss) = s.constants ++ constants_of ss

abbrev pub attribs_of : List Slot → List String
attribs_of ss = map (λ s. s.attrib) ss

abbrev pub entries_of : List Slot → List Entry
entries_of ss = map (λ s. s.entry) ss

-- Run in their order, the statements of all the attributes leave the array of their entries.
pub run_slots :
    (ss : List Slot) (env : Env)
    → distinct (decls_of ss) ≡ true
    → (env' : Env) × (exec env (decls_of ss) ≡ some env')
      × (collect env' (attribs_of ss) ≡ some (entries_of ss))
unfolding exec collect
run_slots [] env h = (env, refl, refl)
run_slots (s ∷ ss) env h =
    let (runs, guarded) = s.means in
    let (env₁, e₁, found) = runs env in
    let (env', e', rest) = run_slots ss env₁ (distinct-append s.decls (decls_of ss) h) in
    let here : lookup s.attrib env' ≡ some (attribute s.entry) =
      exec-frame s.attrib (decls_of ss) env₁ env' e' (guarded (decls_of ss) h) ∙ found in
    (env', exec-append s.decls (decls_of ss) env env₁ e₁ ∙ e', rw (here, rest) refl)
