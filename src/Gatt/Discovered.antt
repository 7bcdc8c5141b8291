-- ===== src/Gatt/Discovered.antt =====
-- The services of a call of `gatt` (bleps-macros/src/lib.rs) as a client discovers them from the attribute
-- server (bleps/src/attribute_server.rs, 299-334).
use bleps.Common.{
  ℕ, suc, ◌+◌, ◌<◌, ◌≤◌, ◌≡◌, refl, sym, ap, ap₂, subst, ◌∙◌, Bool, true, false, Option, none, some,
  List, [], ◌∷◌, ◌++◌, map, length, arith, length-map, All, done, inl, inr, le→leb,
}
use bleps.Att.{uuid_eq}
use bleps.Attribute.{Attribute, AttData, new}
use bleps.Attribute.Memory.{bytes_of}
use bleps.Server.{Server, assign_handles, primary_service_uuid}
use bleps.Server.Groups.{group_end}
use bleps.Server.Lookup.{
  Found, IsUuid, Declares, services, or_none, services-other, services-in, group_end-other,
  found_at,
}
use bleps.Server.Discovery.{Discovery, discover_all}
use bleps.Gatt.{expands, Descriptor, Characteristic, Service}
use bleps.Gatt.Code.{Crates, Code, uuid_of}
use bleps.Gatt.Generate.{generate, primary_service}
use bleps.Gatt.Running.{Content, constant, Entry, gatt_attributes, distinct}
use bleps.Gatt.Plan.{
  Planned, uuid_bytes, plan, plan_service, plan_characteristics, plan_characteristic, plan_cccd,
  plan_description, plan_descriptor, entries,
}
use bleps.Gatt.Growth.{map-append}
use bleps.Gatt.Placed.{All-append}
use bleps.Gatt.Attributes.{generate_lem, generate-length}
use bleps.Gatt.Served.{attribute_for}

-- An attribute that declares no service.
abbrev IsOther : Entry → Type 0
IsOther e = uuid_eq e.0 primary_service_uuid ≡ false

-- The UUIDs of a characteristic and its descriptors are not that of a service's declaration.
abbrev pub Ordinary : Crates → Characteristic → Type 0
Ordinary crates c =
    (uuid_eq (uuid_of (uuid_bytes crates c.uuid)) primary_service_uuid ≡ false)
    × All (λ d. uuid_eq (uuid_of (uuid_bytes crates d.uuid)) primary_service_uuid ≡ false)
        c.descriptors

-- A service with a UUID of 2 or 16 bytes.
abbrev pub Proper : Crates → Service → Type 0
Proper crates s = IsUuid (uuid_bytes crates s.uuid) × All (Ordinary crates) s.characteristics

-- The services with their handles from `n` on.
abbrev pub asked_for : Crates → ℕ → List Service → List Found
asked_for crates n [] = []
asked_for crates n (s ∷ ss) =
    record {
      handle = n;
      end = n + length (plan_characteristics crates (n + 1) s.characteristics);
      uuid = uuid_bytes crates s.uuid;
    }
    ∷ asked_for crates (n + length (plan_service crates n s)) ss

abbrev entry_for : ℕ → ℕ → Option (List ℕ) → Found
entry_for handle end bytes = record { handle = handle; end = end; uuid = or_none bytes }

cccd-Other :
    (c : Characteristic) (b : Bool) (n : ℕ) → c.notify ≡ b → All IsOther (entries (plan_cccd c n))
cccd-Other c true n e = rw (e) (refl, tt)
cccd-Other c false n e = rw (e) tt

description-Other : (d : Option _) → All IsOther (entries (plan_description d))
description-Other none = tt
description-Other (some d) = (refl, tt)

descriptors-Other :
    (crates : Crates) (ds : List Descriptor)
    → All (λ d. uuid_eq (uuid_of (uuid_bytes crates d.uuid)) primary_service_uuid ≡ false) ds
    → All IsOther (entries (map (plan_descriptor crates) ds))
descriptors-Other crates [] h = tt
descriptors-Other crates (d ∷ ds) (h, hs) = (h, descriptors-Other crates ds hs)

entries-All :
    (P : Entry → Type 0) (ps qs : List Planned)
    → All P (entries ps)
    → All P (entries qs)
    → All P (entries (ps ++ qs))
entries-All P ps qs hp hq =
    subst (All P) (sym (map-append (λ p. p.entry) ps qs))
      (All-append P (entries ps) (entries qs) hp hq)

characteristics-Other :
    (crates : Crates) (n : ℕ) (cs : List Characteristic)
    → All (Ordinary crates) cs
    → All IsOther (entries (plan_characteristics crates n cs))
characteristics-Other crates n [] h = tt
characteristics-Other crates n (c ∷ cs) ((own, ds), hs) =
    let first = plan_characteristic crates n c in
    entries-All IsOther first (plan_characteristics crates (n + length first) cs)
      (
        refl,
        (
          own,
          entries-All IsOther (plan_cccd c (n + 2)) _ (cccd-Other c c.notify (n + 2) refl) (
              entries-All IsOther (plan_description c.description) _
                (description-Other c.description) (descriptors-Other crates c.descriptors ds)),
        ),
      )
      (characteristics-Other crates (n + length first) cs hs)

module _ {S : Type 0} (data_of : Content → AttData S)
    (memory : (bytes : List ℕ) → bytes_of (data_of (constant bytes)) ≡ some bytes) where
  made : List Entry → List (Attribute S)
  made es = map (attribute_for data_of) es

  -- Attributes that declare no service, before others.
  services-others :
      (n : ℕ) (es : List Entry) (rest : List (Attribute S))
      → All IsOther es
      → services 1 n (made es ++ rest) ≡ services 1 (n + length es) rest
  unfolding made new
  services-others n [] rest h = ap (λ k. services 1 k rest) (omega arith)
  services-others n (e ∷ es) rest (h, hs) =
      services-other 1 n (attribute_for data_of e) (made es ++ rest) h
      ∙ services-others (suc n) es rest hs
      ∙ ap (λ k. services 1 k rest) (omega arith)

  group_end-others :
      (n : ℕ) (es : List Entry) (rest : List (Attribute S))
      → All IsOther es
      → group_end n (made es ++ rest) ≡ group_end (n + length es) rest
  unfolding made new
  group_end-others n [] rest h = ap (λ k. group_end k rest) (omega arith)
  group_end-others n (e ∷ es) rest (h, hs) =
      group_end-other n (attribute_for data_of e) (made es ++ rest) h
      ∙ group_end-others (suc n) es rest hs
      ∙ ap (λ k. group_end k rest) (omega arith)

  group_end-plan :
      (crates : Crates) (m n : ℕ) (ss : List Service)
      → group_end m (made (entries (plan crates n ss))) ≡ m
  unfolding made new
  group_end-plan crates m n [] = refl
  group_end-plan crates m n (s ∷ ss) = refl

  services-plan :
      (crates : Crates) (n : ℕ) (ss : List Service)
      → 1 ≤ n
      → All (Proper crates) ss
      → services 1 n (made (entries (plan crates n ss))) ≡ asked_for crates n ss
  unfolding made new found_at
  services-plan crates n [] pos h = refl
  services-plan crates n (s ∷ ss) pos ((is, own), hs) =
      let cs = plan_characteristics crates (n + 1) s.characteristics in
      let next : ℕ = n + length (plan_service crates n s) in
      let es = entries cs in
      let rest = made (entries (plan crates next ss)) in
      let others = characteristics-Other crates (n + 1) s.characteristics own in
      let size : length es ≡ length cs = length-map cs (λ p. p.entry) in
      let split : made (entries (cs ++ plan crates next ss)) ≡ made es ++ rest =
        ap made (map-append (λ p. p.entry) cs (plan crates next ss))
        ∙ map-append (attribute_for data_of) es (entries (plan crates next ss)) in
      let end : group_end n (made es ++ rest) ≡ n + length cs =
        group_end-others n es rest others
        ∙ group_end-plan crates (n + length es) next ss
        ∙ omega arith in
      let handle : suc n + length es ≡ next = omega arith in
      let tail : services 1 (suc n) (made es ++ rest) ≡ asked_for crates next ss =
        services-others (suc n) es rest others
        ∙ ap (λ k. services 1 k rest) handle
        ∙ services-plan crates next ss (omega arith) hs in
      ap
        (λ l.
          services 1 n
            (attribute_for data_of (primary_service, constant (uuid_bytes crates s.uuid)) ∷ l))
        split
      ∙ services-in 1 n
          (attribute_for data_of (primary_service, constant (uuid_bytes crates s.uuid)))
          (made es ++ rest) (le→leb 1 n pos)
      ∙ ap₂ (λ e bytes. entry_for n e bytes ∷ services 1 (suc n) (made es ++ rest)) end
          (memory (uuid_bytes crates s.uuid))
      ∙ ap (λ l. entry_for n (n + length cs) (some (uuid_bytes crates s.uuid)) ∷ l) tail

  -- What stands in the plan of other attributes.
  others-Declares : (es : List Entry) → All IsOther es → All Declares (made es)
  unfolding made new
  others-Declares [] h = tt
  others-Declares (e ∷ es) (h, hs) = (inl h, others-Declares es hs)

  plan-Declares :
      (crates : Crates) (n : ℕ) (ss : List Service)
      → All (Proper crates) ss
      → All Declares (made (entries (plan crates n ss)))
  unfolding made new
  plan-Declares crates n [] h = tt
  plan-Declares crates n (s ∷ ss) ((is, own), hs) =
      let cs = plan_characteristics crates (n + 1) s.characteristics in
      let next : ℕ = n + length (plan_service crates n s) in
      let rest = plan crates next ss in
      (
        inr (uuid_bytes crates s.uuid, memory (uuid_bytes crates s.uuid), is),
        subst (All Declares)
            (sym (
              ap made (map-append (λ p. p.entry) cs rest)
              ∙ map-append (attribute_for data_of) (entries cs) (entries rest)))
            (All-append Declares (made (entries cs)) (made (entries rest))
              (others-Declares (entries cs)
                (characteristics-Other crates (n + 1) s.characteristics own))
              (plan-Declares crates next ss hs)),
      )

-- A client that discovers the services of a server, whose table the constructor made of the attributes
-- of a call of the macro, gets exactly the services of the call in their order, each with its UUID,
-- its handle, and the handle of the last attribute of its characteristics. This holds for at least
-- one service, if no statement of the code binds a name again, the bytes that the code declares
-- are attributes in memory, each service has a UUID of 2 or 16 bytes, and no characteristic and
-- no descriptor has the UUID of a service's declaration.
pub discover_services_of_call :
    {S : Type 0} (data_of : Content → AttData S)
    (memory : (bytes : List ℕ) → bytes_of (data_of (constant bytes)) ≡ some bytes) (crates : Crates)
    (s : Service) (ss : List Service) (code : Code) (es : List Entry) (src : ℕ) (server : Server S)
    → generate crates (s ∷ ss) ≡ expands code
    → distinct code.decls ≡ true
    → All (Proper crates) (s ∷ ss)
    → gatt_attributes code ≡ some es
    → assign_handles (map (attribute_for data_of) es) ≡ done server.attributes
    → Discovery src server 1 (asked_for crates 1 (s ∷ ss))
unfolding made
discover_services_of_call {S} data_of memory crates s ss code es src server e d proper ran table =
    let ps = plan crates 1 (s ∷ ss) in
    let (planned, named) = generate_lem crates (s ∷ ss) code e d in
    let these : es ≡ entries ps = cc in
    let few : length ps < 65535 = generate-length crates (s ∷ ss) code e in
    let n₁ : length (entries ps) ≡ length ps = length-map ps (λ q. q.entry) in
    let all : List (Attribute S) = made data_of memory (entries ps) in
    let n₂ : length all ≡ length (entries ps) = length-map (entries ps) (attribute_for data_of) in
    subst (Discovery src server 1)
      (services-plan data_of memory crates 1 (s ∷ ss) (omega arith) proper)
      (discover_all src _ _ server
        (subst (λ l. assign_handles (map (attribute_for data_of) l) ≡ done server.attributes) these
          table)
        (omega arith) (plan-Declares data_of memory crates 1 (s ∷ ss) proper))
