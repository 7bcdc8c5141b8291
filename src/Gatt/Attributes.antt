-- ===== src/Gatt/Attributes.antt =====
-- What the code of `gatt` (bleps-macros/src/lib.rs, 273-551) leaves where it stands.
use bleps.Common.{
  suc, ◌+◌, ◌<◌, ◌≤◌, ◌≡◌, refl, sym, ap, subst, ◌∙◌, true, some, List, [], length, arith, All,
}
use bleps.Gatt.{expands, Service}
use bleps.Gatt.Code.{Crates, Code, empty_code}
use bleps.Gatt.Generate.{generate}
use bleps.Gatt.Running.{Entry, Env, exec, collect, gatt_attributes, distinct}
use bleps.Gatt.Slots.{run_slots}
use bleps.Gatt.Plan.{plan, entries, constants}
use bleps.Gatt.Growth.{Grown}
use bleps.Gatt.Placed.{Placed-bounds, plan-Placed}
use bleps.Gatt.Loops.{push_services-Yields}

generate-Grown :
    (crates : Crates) (services : List Service) (code : Code)
    → generate crates services ≡ expands code
    → Grown empty_code (plan crates 1 services) code
unfolding generate
generate-Grown crates services code e =
    let small : 1 < 65536 = omega arith in
    let y = push_services-Yields crates empty_code 0 services (refl, small) in y.yields code e

run_code :
    (code : Code) (env : Env) (es : List Entry)
    → exec [] code.decls ≡ some env
    → collect env code.attribs ≡ some es
    → gatt_attributes code ≡ some es
unfolding gatt_attributes
run_code code env es e₁ e₂ = rw (gatt_attributes, e₁, e₂) refl

-- If the macro writes code and no statement of it binds a name again, then the array
-- `gatt_attributes` has exactly the planned attributes in their order, and the constants are those
-- of the plan: each attribute's UUID and data come out as the call gives them, whatever names the
-- code goes through.
pub generate_lem :
    (crates : Crates) (services : List Service) (code : Code)
    → generate crates services ≡ expands code
    → distinct code.decls ≡ true
    → (gatt_attributes code ≡ some (entries (plan crates 1 services)))
      × (code.post ≡ constants (plan crates 1 services))
generate_lem crates services code e d =
    let g = generate-Grown crates services code e in
    let (env, ran, collected) =
      run_slots g.slots [] (subst (λ l. distinct l ≡ true) g.decls_grown d) in
    (
      run_code code env (entries (plan crates 1 services)) (ap (exec []) g.decls_grown ∙ ran)
          (ap (collect env) g.attribs_grown ∙ collected ∙ ap some g.planned),
      g.post_grown,
    )

-- The code that the macro writes has at most 65534 attributes, so that all their handles fit in 16
-- bits, and every constant is one of the handles from 1 to their number.
pub generate_handle_bounds :
    (crates : Crates) (services : List Service) (code : Code)
    → generate crates services ≡ expands code
    → (length code.attribs < 65535)
      × All (λ x. (1 ≤ x.1) × (x.1 < suc (length code.attribs))) code.post
generate_handle_bounds crates services code e =
    let g = generate-Grown crates services code e in
    let (n, small) = g.step in
    let all : code.current_handle ≡ 1 + length (plan crates 1 services) = g.handle_grown in
    (
      omega arith,
      subst (All (λ x. (1 ≤ x.1) × (x.1 < suc (length code.attribs)))) (sym g.post_grown) (
          Placed-bounds 1 (suc (length code.attribs)) (plan crates 1 services) (omega arith)
            (plan-Placed crates services 1)),
    )

-- As many attributes as planned.
pub generate-length :
    (crates : Crates) (services : List Service) (code : Code)
    → generate crates services ≡ expands code
    → length (plan crates 1 services) < 65535
generate-length crates services code e =
    let g = generate-Grown crates services code e in
    let (n, small) = g.step in
    let all : code.current_handle ≡ 1 + length (plan crates 1 services) = g.handle_grown in
    omega arith
