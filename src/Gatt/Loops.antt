-- ===== src/Gatt/Loops.antt =====
-- The loops of `gatt` in bleps-macros/src/lib.rs (280-537) against the plan.
use Prim.Native.String.{String}
use bleps.Common.{
  ℕ, suc, ◌+◌, ◌≡◌, refl, ap, subst, Bool, true, false, Option, none, some, List, [], ◌∷◌, ◌++◌,
  map, length, arith, if◌then◌else◌, append_assoc,
}
use bleps.Att.{uuid16}
use bleps.Gatt.{Expansion, expands, ◌>>=◌, Descriptor, Characteristic, Service}
use bleps.Gatt.Code.{
  Crates, Code, Decl, ident, uuid_to_bytes, uuid_of, text_bytes, closures_decl, attribute_decl,
  array_decl,
}
use bleps.Gatt.Generate.{
  announce, push_service, push_value, push_cccd, push_description, descriptor_decl, push_descriptor,
  push_descriptors, push_extras, push_characteristic, push_characteristics, push_services,
  storage_at, primary_service,
}
use bleps.Gatt.Running.{constant, functions}
use bleps.Gatt.Slots.{Slot, pair-Means, before-Means}
use bleps.Gatt.Plan.{
  Planned, uuid_bytes, bare, descriptor_content, plan_descriptor, plan_cccd, plan_description,
  plan_declaration, plan_value, plan_characteristic, plan_characteristics, plan_service, plan,
}
use bleps.Gatt.Outcomes.{Yields, expands-Yields, weaken-Yields, bind-Yields, bind-value}
use bleps.Gatt.Growth.{InStep, Grown, Grown-refl, Grown-trans, push-Yields}
use bleps.Gatt.Layout.{announce-Yields, closures-Holds, descriptor_decl-Yields}
use bleps.Gatt.Steps.{
  constant_slot, as_expanded, push_service-Yields, push_declaration-Yields, push_value-Yields,
}

-- Growth by one step and then by another.
then-Yields :
    (c : Code) (ps qs : List Planned) (m : Expansion Code) (f : Code → Expansion Code)
    → Yields (Grown c ps) m
    → ((c' : Code)
        → c'.current_handle ≡ c.current_handle + length ps
        → InStep c'
        → Yields (Grown c' qs) (f c'))
    → Yields (Grown c (ps ++ qs)) (m >>= f)
then-Yields c ps qs m f h k = bind-Yields m f h (λ c' e g.
    weaken-Yields (f c') (k c' g.handle_grown g.step) (λ c'' g'. Grown-trans c c' c'' ps qs g g'))

push_cccd-Yields :
    (crates : Crates) (c : Code) (i j : ℕ) (charact : Characteristic)
    → InStep c
    → charact.notify ≡ true
    → Yields (Grown c (plan_cccd charact c.current_handle)) (push_cccd crates c i j charact)
unfolding push_cccd
push_cccd-Yields crates c i j charact h on =
    let storage = storage_at c.current_handle in
    let r : String = storage.read_name in
    let w : String = storage.write_name in
    let x : String = ident "_char_ccd_data_attr" (i ∷ j ∷ []) in
    let z : String = ident "_char_ccd_data_attribute" (i ∷ j ∷ []) in
    let triple : Decl = closures_decl x (some r) (some w) none in
    let last : List Decl = triple ∷ attribute_decl z (uuid16 0x2902) x ∷ [] in
    bind-Yields (announce crates charact.name "_notify_enable_handle" c.current_handle) _
      (announce-Yields crates charact.name "_notify_enable_handle" c.current_handle)
      λ constants e named.
        let slot : Slot = record {
          decls = array_decl (ident "_char_ccd_data" (i ∷ j ∷ [])) (0 ∷ 0 ∷ []) ∷ last;
          attrib = z;
          constants = constants;
          entry = (uuid16 0x2902, functions (some r) (some w) none);
          means = before-Means (ident "_char_ccd_data" (i ∷ j ∷ [])) (0 ∷ 0 ∷ []) last z _ (
              pair-Means triple x z (uuid16 0x2902) (functions (some r) (some w) none)
                (closures-Holds x (some r) (some w) none (some r) (some w) none refl refl refl));
        } in
        rw (on) (
          weaken-Yields _ (push-Yields c (storage ∷ []) slot h) (λ c' g.
            subst
              (λ cs.
                Grown c
                  (record {
                    entry = (uuid16 0x2902, functions (some r) (some w) none);
                    constants = cs;
                  }
                    ∷ [])
                  c')
              named g))

push_description-Yields :
    (c : Code) (i j : ℕ) (d : String)
    → InStep c
    → Yields
        (Grown c (bare (uuid16 0x2901, constant (text_bytes d)) ∷ []))
        (push_description c i j d)
unfolding push_description constant_slot
push_description-Yields c i j d h =
    push-Yields c []
      (constant_slot (ident "_char_user_description_data" (i ∷ j ∷ []))
        (ident "_char_user_description_data_attr" (i ∷ j ∷ []))
        (ident "_char_user_description_data_attribute" (i ∷ j ∷ [])) (uuid16 0x2901) (text_bytes d))
      h

push_descriptor-Yields :
    (crates : Crates) (c : Code) (i j k : ℕ) (d : Descriptor)
    → InStep c
    → Yields (Grown c (plan_descriptor crates d ∷ [])) (push_descriptor crates c i j k d)
unfolding push_descriptor
push_descriptor-Yields crates c i j k d h =
    let x : String = ident "_char_desc_data" (i ∷ j ∷ k ∷ []) in
    let z : String = ident "_char_desc_attr" (i ∷ j ∷ k ∷ []) in
    bind-value (uuid_to_bytes crates d.uuid) _ λ bytes e.
      bind-Yields (descriptor_decl crates x d) _ (descriptor_decl-Yields crates x d)
        λ decl e₁ holds.
          let slot : Slot = record {
            decls = decl ∷ attribute_decl z (uuid_of bytes) x ∷ [];
            attrib = z;
            constants = [];
            entry = (uuid_of bytes, descriptor_content d);
            means = pair-Means decl x z (uuid_of bytes) (descriptor_content d) holds;
          } in
          weaken-Yields _ (push-Yields c [] slot h) (λ c' g.
            subst (λ bs. Grown c (bare (uuid_of bs, descriptor_content d) ∷ []) c')
              (as_expanded (uuid_to_bytes crates d.uuid) bytes e) g)

push_descriptors-Yields :
    (crates : Crates) (c : Code) (i j k : ℕ) (ds : List Descriptor)
    → InStep c
    → Yields (Grown c (map (plan_descriptor crates) ds)) (push_descriptors crates c i j k ds)
unfolding push_descriptors
push_descriptors-Yields crates c i j k [] h = expands-Yields c (Grown-refl c h)
push_descriptors-Yields crates c i j k (d ∷ ds) h =
    then-Yields c (plan_descriptor crates d ∷ []) (map (plan_descriptor crates) ds) _ _
      (push_descriptor-Yields crates c i j k d h)
      (λ c' n s. push_descriptors-Yields crates c' i j (suc k) ds s)

-- The configuration, if there is one.
optional_cccd :
    (crates : Crates) (c : Code) (i j : ℕ) (charact : Characteristic) (b : Bool)
    → InStep c
    → charact.notify ≡ b
    → Yields
        (Grown c (plan_cccd charact c.current_handle))
        (if b then push_cccd crates c i j charact else expands c)
optional_cccd crates c i j charact true h on = push_cccd-Yields crates c i j charact h on
optional_cccd crates c i j charact false h off = rw (off) (expands-Yields c (Grown-refl c h))

optional_description :
    (c : Code) (i j : ℕ) (d : Option String)
    → InStep c
    → Yields
        (Grown c (plan_description d))
        (elim d [ none ↦ expands c | some text ↦ push_description c i j text ])
optional_description c i j none h = expands-Yields c (Grown-refl c h)
optional_description c i j (some text) h = push_description-Yields c i j text h

push_extras-Yields :
    (crates : Crates) (c : Code) (i j : ℕ) (charact : Characteristic)
    → InStep c
    → Yields
        (Grown c (plan_cccd charact c.current_handle ++ plan_description charact.description))
        (push_extras crates c i j charact)
unfolding push_extras
push_extras-Yields crates c i j charact h =
    then-Yields c (plan_cccd charact c.current_handle) (plan_description charact.description)
      (if charact.notify then push_cccd crates c i j charact else expands c) _
      (optional_cccd crates c i j charact charact.notify h refl)
      (λ c' n s. optional_description c' i j charact.description s)

-- The same code, with its plan put another way.
replan :
    (c : Code) (ps qs : List Planned) (m : Expansion Code)
    → ps ≡ qs
    → Yields (Grown c ps) m
    → Yields (Grown c qs) m
replan c ps qs m e h = subst (λ k. Yields (Grown c k) m) e h

-- The same code, with its handle written another way.
at_handle :
    (f : ℕ → List Planned) (c : Code) (n : ℕ) (m : Expansion Code)
    → c.current_handle ≡ n
    → Yields (Grown c (f c.current_handle)) m
    → Yields (Grown c (f n)) m
at_handle f c n m e h = subst (λ k. Yields (Grown c (f k)) m) e h

-- What follows the value of a characteristic.
push_rest-Yields :
    (crates : Crates) (c : Code) (i j n : ℕ) (charact : Characteristic)
    → c.current_handle ≡ n
    → InStep c
    → Yields
        (Grown c (
          plan_cccd charact n
          ++ (plan_description charact.description
              ++ map (plan_descriptor crates) charact.descriptors)))
        (push_extras crates c i j charact >>= λ c'.
          push_descriptors crates c' i j 0 charact.descriptors)
push_rest-Yields crates c i j n charact e h =
    let tail = map (plan_descriptor crates) charact.descriptors in
    let text = plan_description charact.description in
    replan c ((plan_cccd charact n ++ text) ++ tail) _ _
      (append_assoc (plan_cccd charact n) text tail)
      (then-Yields c (plan_cccd charact n ++ text) tail _ _
        (at_handle (λ k. plan_cccd charact k ++ text) c n (push_extras crates c i j charact) e
          (push_extras-Yields crates c i j charact h))
        (λ c' n' s. push_descriptors-Yields crates c' i j 0 charact.descriptors s))

push_characteristic-Yields :
    (crates : Crates) (c : Code) (i j : ℕ) (charact : Characteristic)
    → InStep c
    → Yields
        (Grown c (plan_characteristic crates c.current_handle charact))
        (push_characteristic crates c i j charact)
unfolding push_characteristic
push_characteristic-Yields crates c i j charact h =
    let n : ℕ = c.current_handle in
    let rest =
      plan_cccd charact (n + 2)
      ++ (plan_description charact.description
          ++ map (plan_descriptor crates) charact.descriptors) in
    bind-value (uuid_to_bytes crates charact.uuid) _ λ bytes e.
      then-Yields c (plan_declaration crates n charact ∷ [])
        (plan_value crates (n + 1) charact ∷ rest) _ _
        (push_declaration-Yields crates c i j charact bytes h e)
        λ c₁ n₁ s₁.
          then-Yields c₁ (plan_value crates (n + 1) charact ∷ []) rest
            (push_value crates c₁ i j charact bytes)
            (λ c₂. push_extras crates c₂ i j charact >>= λ c₃.
              push_descriptors crates c₃ i j 0 charact.descriptors)
            (at_handle (λ k. plan_value crates k charact ∷ []) c₁ (n + 1) _ n₁
              (push_value-Yields crates c₁ i j charact bytes s₁ e))
            (λ c₂ n₂ s₂. push_rest-Yields crates c₂ i j (n + 2) charact (omega arith) s₂)

push_characteristics-Yields :
    (crates : Crates) (c : Code) (i j : ℕ) (cs : List Characteristic)
    → InStep c
    → Yields
        (Grown c (plan_characteristics crates c.current_handle cs))
        (push_characteristics crates c i j cs)
unfolding push_characteristics
push_characteristics-Yields crates c i j [] h = expands-Yields c (Grown-refl c h)
push_characteristics-Yields crates c i j (charact ∷ cs) h =
    let own = plan_characteristic crates c.current_handle charact in
    let next : ℕ = c.current_handle + length own in
    then-Yields c own (plan_characteristics crates next cs) _ _
      (push_characteristic-Yields crates c i j charact h)
      (λ c' n s.
        at_handle (λ k. plan_characteristics crates k cs) c' next
          (push_characteristics crates c' i (suc j) cs) n
          (push_characteristics-Yields crates c' i (suc j) cs s))

pub push_services-Yields :
    (crates : Crates) (c : Code) (i : ℕ) (ss : List Service)
    → InStep c
    → Yields (Grown c (plan crates c.current_handle ss)) (push_services crates c i ss)
unfolding push_services
push_services-Yields crates c i [] h = expands-Yields c (Grown-refl c h)
push_services-Yields crates c i (service ∷ ss) h =
    let n : ℕ = c.current_handle in
    let cs = service.characteristics in
    let next : ℕ = n + length (plan_service crates n service) in
    bind-value (uuid_to_bytes crates service.uuid) _ λ bytes e.
      then-Yields c (bare (primary_service, constant (uuid_bytes crates service.uuid)) ∷ [])
        (plan_characteristics crates (n + 1) cs ++ plan crates next ss) _ _
        (replan c (bare (primary_service, constant bytes) ∷ []) _ (push_service c i bytes)
          (ap (λ bs. bare (primary_service, constant bs) ∷ [])
            (as_expanded (uuid_to_bytes crates service.uuid) bytes e))
          (push_service-Yields c i bytes h))
        λ c₁ n₁ s₁.
          then-Yields c₁ (plan_characteristics crates (n + 1) cs) (plan crates next ss)
            (push_characteristics crates c₁ i 0 cs) (λ c₂. push_services crates c₂ (suc i) ss)
            (at_handle (λ k. plan_characteristics crates k cs) c₁ (n + 1) _ n₁
              (push_characteristics-Yields crates c₁ i 0 cs s₁))
            (λ c₂ n₂ s₂.
              at_handle (λ k. plan crates k ss) c₂ next (push_services crates c₂ (suc i) ss)
                (omega arith) (push_services-Yields crates c₂ (suc i) ss s₂))
