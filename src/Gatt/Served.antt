-- ===== src/Gatt/Served.antt =====
-- The attributes of `gatt` (bleps-macros/src/lib.rs) in the hands of the attribute server, which numbers
-- them (bleps/src/attribute_server.rs, 604-622).
use bleps.Common.{
  ℕ, zero, suc, ◌+◌, ◌<◌, ◌≡◌, ap, subst, ◌∙◌, true, some, List, [], ◌∷◌, map, length, arith,
  length-map, All, get_elem?, done,
}
use bleps.Attribute.{Attribute, AttData, new}
use bleps.Server.{assign_handles}
use bleps.Server.Groups.{grouped, group_end, assign_handles_lem}
use bleps.Gatt.{expands, Service}
use bleps.Gatt.Code.{Crates, Code}
use bleps.Gatt.Generate.{generate}
use bleps.Gatt.Running.{Content, Entry, gatt_attributes, distinct}
use bleps.Gatt.Plan.{Planned, plan, entries, constants}
use bleps.Gatt.Placed.{Placed, plan-Placed}
use bleps.Gatt.Attributes.{generate_lem, generate-length}

Placed-get_elem? :
    (n k : ℕ) (ps : List Planned) (p : Planned)
    → Placed n ps
    → get_elem? ps k ≡ some p
    → All (λ x. x.1 ≡ n + k) p.constants
Placed-get_elem? n k [] p h e = cc
Placed-get_elem? n zero (q ∷ ps) p (here, h) e =
    let same_one : q ≡ p = cc in
    subst (λ m. All (λ x. x.1 ≡ m) p.constants) (omega arith)
      (subst (λ r. All (λ x. x.1 ≡ n) r.constants) same_one here)
Placed-get_elem? n (suc k) (q ∷ ps) p (here, h) e =
    subst (λ m. All (λ x. x.1 ≡ m) p.constants) (omega arith) (Placed-get_elem? (suc n) k ps p h e)

get_elem?-map :
    {A B : Type 0} (f : A → B) (xs : List A) (k : ℕ) (x : A)
    → get_elem? xs k ≡ some x
    → get_elem? (map f xs) k ≡ some (f x)
get_elem?-map f [] k x e = cc
get_elem?-map f (y ∷ xs) zero x e = (let q : y ≡ x = cc in ap (λ z. some (f z)) q)
get_elem?-map f (y ∷ xs) (suc k) x e = get_elem?-map f xs k x e

module _ {S : Type 0} where
  -- The attribute for an entry, given the data that its content stands for.
  abbrev pub attribute_for : (Content → AttData S) → Entry → Attribute S
  attribute_for data_of (uuid, c) = new uuid (data_of c)

  -- An attribute with its handle and the end of its service.
  abbrev pub numbered : Attribute S → ℕ → ℕ → Attribute S
  numbered att handle end = record att { handle = handle; last_handle_in_group = end }

  get_elem?-grouped :
      (n k : ℕ) (atts : List (Attribute S)) (att : Attribute S)
      → get_elem? atts k ≡ some att
      → (end : ℕ) × (get_elem? (grouped n atts) k ≡ some (numbered att (n + k) end))
  get_elem?-grouped n k [] att e = cc
  get_elem?-grouped n zero (a ∷ atts) att e =
      let q : a ≡ att = cc in
      let end = group_end n atts in
      (
        end,
        ap (λ m. some (numbered a m end)) (omega arith) ∙ ap (λ b. some (numbered b (n + 0) end)) q,
      )
  get_elem?-grouped n (suc k) (a ∷ atts) att e =
      let (end, q) = get_elem?-grouped (suc n) k atts att e in
      (end, q ∙ ap (λ m. some (numbered att m end)) (omega arith))

-- The code for at least one service, of which no statement binds a name again: the server numbers
-- its attributes without fault, and the attribute at a place of the plan has then the planned UUID
-- and data, and a handle that is one more than its place, the number that every constant of that
-- place in the code stands for.
pub generate-assign_handles :
    {S : Type 0} (data_of : Content → AttData S) (crates : Crates) (s : Service) (ss : List Service)
    (code : Code) (k : ℕ) (p : Planned)
    → generate crates (s ∷ ss) ≡ expands code
    → distinct code.decls ≡ true
    → get_elem? (plan crates 1 (s ∷ ss)) k ≡ some p
    → (es : List Entry) × (atts : List (Attribute S)) × (end : ℕ) × (gatt_attributes code ≡ some es)
      × (assign_handles (map (attribute_for data_of) es) ≡ done atts)
      × (get_elem? atts k ≡ some (numbered (attribute_for data_of p.entry) (suc k) end))
      × (code.post ≡ constants (plan crates 1 (s ∷ ss)))
      × All (λ x. x.1 ≡ suc k) p.constants
generate-assign_handles data_of crates s ss code k p e d at_k =
    let ps = plan crates 1 (s ∷ ss) in
    let es = entries ps in
    let all = map (attribute_for data_of) es in
    let (ran, named) = generate_lem crates (s ∷ ss) code e d in
    let few : length ps < 65535 = generate-length crates (s ∷ ss) code e in
    let n₁ : length es ≡ length ps = length-map ps (λ q. q.entry) in
    let n₂ : length all ≡ length es = length-map es (attribute_for data_of) in
    let small : length all < 65536 = omega arith in
    let here =
      get_elem?-map (attribute_for data_of) es k p.entry
        (get_elem?-map (λ q. q.entry) ps k p at_k) in
    let (end, found) = get_elem?-grouped 1 k all (attribute_for data_of p.entry) here in
    let handle : 1 + k ≡ suc k = omega arith in
    (
      es,
      grouped 1 all,
      end,
      ran,
      assign_handles_lem _ _ small,
      found ∙ ap (λ m. some (numbered (attribute_for data_of p.entry) m end)) handle,
      named,
      subst (λ m. All (λ x. x.1 ≡ m) p.constants) handle
          (Placed-get_elem? 1 k ps p (plan-Placed crates (s ∷ ss) 1) at_k),
    )
