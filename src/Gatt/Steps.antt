-- ===== src/Gatt/Steps.antt =====
-- The attributes that `gatt` in bleps-macros/src/lib.rs (280-537) adds, each with its plan.
use Prim.Native.String.{String}
use bleps.Common.{
  bit_or, ◌*◌, ℕ, suc, ◌+◌, ◌%◌, ◌^◌, ◌<◌, ◌≡◌, refl, sym, ap, subst, ◌∙◌, Bool, true, false, List,
  [], ◌∷◌, ◌++◌, length, arith, if◌then◌else◌, u16_le,
}
use bleps.Att.{Uuid}
use bleps.Gatt.{Expansion, expands, Characteristic}
use bleps.Gatt.Code.{Crates, Code, ident, uuid_to_bytes, uuid_of, attribute_decl}
use bleps.Gatt.Generate.{
  is_some, as_u32, announce, push_service, push_declaration, properties, value_decl, push_value,
  constant_decls, primary_service, characteristic,
}
use bleps.Gatt.Running.{constant, Entry}
use bleps.Gatt.Slots.{Slot, constant-Means, pair-Means}
use bleps.Gatt.Plan.{
  expanded, uuid_bytes, bare, value_content, property_sum, plan_declaration, plan_value,
}
use bleps.Gatt.Outcomes.{Yields, weaken-Yields, bind-Yields}
use bleps.Gatt.Growth.{InStep, Grown, push-Yields}
use bleps.Gatt.Layout.{announce-Yields, value_decl-Yields}

-- An attribute of bytes, and one of other data.
unfoldable pub constant_slot : String → String → String → Uuid → List ℕ → Slot
constant_slot x y z uuid bytes = record {
  decls = constant_decls x y z uuid bytes;
  attrib = z;
  constants = [];
  entry = (uuid, constant bytes);
  means = constant-Means x y z uuid bytes;
}

pub as_expanded : (m : Expansion (List ℕ)) (bytes : List ℕ) → m ≡ expands bytes → bytes ≡ expanded m
as_expanded m bytes e = sym (ap expanded e)

bits_lem :
    (r w n : Bool)
    → bit_or (bit_or (if r then 0x02 else 0) (if w then 0x08 else 0)) (if n then 0x10 else 0)
      ≡ as_u32 r * 2 + as_u32 w * 8 + as_u32 n * 16
bits_lem true true true = refl
bits_lem true true false = refl
bits_lem true false true = refl
bits_lem true false false = refl
bits_lem false true true = refl
bits_lem false true false = refl
bits_lem false false true = refl
bits_lem false false false = refl

-- The property bits are a sum.
properties_lem : (c : Characteristic) → properties c ≡ property_sum c
unfolding properties
properties_lem c = bits_lem (is_some c.read) (is_some c.write) c.notify

pub push_service-Yields :
    (c : Code) (i : ℕ) (bytes : List ℕ)
    → InStep c
    → Yields (Grown c (bare (primary_service, constant bytes) ∷ [])) (push_service c i bytes)
unfolding push_service constant_slot
push_service-Yields c i bytes h =
    push-Yields c []
      (constant_slot (ident "_uuid" (i ∷ [])) (ident "_uuid_data" (i ∷ []))
        (ident "_primary_srv" (i ∷ [])) primary_service bytes)
      h

-- The handle in a declaration, which is computed modulo 2 ^ 16, is the next one.
next_handle : (n len : ℕ) → n ≡ suc len → n + 1 < 65536 → (len + 1 + 1) % 2 ^ 16 ≡ n + 1
next_handle n len h small = omega arith

pub push_declaration-Yields :
    (crates : Crates) (c : Code) (i j : ℕ) (charact : Characteristic) (bytes : List ℕ)
    → InStep c
    → uuid_to_bytes crates charact.uuid ≡ expands bytes
    → Yields
        (Grown c (plan_declaration crates c.current_handle charact ∷ []))
        (push_declaration c i j charact bytes)
unfolding push_declaration constant_slot
push_declaration-Yields crates c i j charact bytes h e =
    let n : ℕ = (length c.attribs + 1 + 1) % 2 ^ 16 in
    let content : ℕ → ℕ → List ℕ → Entry =
      λ p k bs. (characteristic, constant (p ∷ (u16_le k ++ bs))) in
    let slot : Slot =
      constant_slot (ident "_char_data" (i ∷ j ∷ [])) (ident "_char_data_attr" (i ∷ j ∷ []))
        (ident "_char_data_attribute" (i ∷ j ∷ [])) characteristic
        (properties charact ∷ (u16_le n ++ bytes)) in
    weaken-Yields _ (push-Yields c [] slot h) (λ c' g.
      let small : c.current_handle + 1 < 65536 = subst (λ k. k < 65536) g.handle_grown (g.step.1) in
      subst (λ p. Grown c (p ∷ []) c')
        (ap (λ p. bare (content p n bytes)) (properties_lem charact)
          ∙ ap (λ k. bare (content (property_sum charact) k bytes))
              (next_handle c.current_handle (length c.attribs) (h.0) small)
          ∙ ap (λ bs. bare (content (property_sum charact) (c.current_handle + 1) bs))
              (as_expanded (uuid_to_bytes crates charact.uuid) bytes e))
        g)

pub push_value-Yields :
    (crates : Crates) (c : Code) (i j : ℕ) (charact : Characteristic) (bytes : List ℕ)
    → InStep c
    → uuid_to_bytes crates charact.uuid ≡ expands bytes
    → Yields
        (Grown c (plan_value crates c.current_handle charact ∷ []))
        (push_value crates c i j charact bytes)
unfolding push_value
push_value-Yields crates c i j charact bytes h e =
    let x : String = ident "_gen_attr_att_data" (i ∷ j ∷ []) in
    let z : String = ident "_gen_attr" (i ∷ j ∷ []) in
    bind-Yields (value_decl crates x charact) _ (value_decl-Yields crates x charact)
      λ decl e₁ holds.
        bind-Yields (announce crates charact.name "_handle" c.current_handle) _
          (announce-Yields crates charact.name "_handle" c.current_handle)
          λ constants e₂ named.
            let slot : Slot = record {
              decls = decl ∷ attribute_decl z (uuid_of bytes) x ∷ [];
              attrib = z;
              constants = constants;
              entry = (uuid_of bytes, value_content charact);
              means = pair-Means decl x z (uuid_of bytes) (value_content charact) holds;
            } in
            weaken-Yields _ (push-Yields c [] slot h) (λ c' g.
              subst (λ p. Grown c (p ∷ []) c')
                (ap
                    (λ bs. record {
                      entry = (uuid_of bs, value_content charact);
                      constants = constants;
                    })
                    (as_expanded (uuid_to_bytes crates charact.uuid) bytes e)
                  ∙ ap
                      (λ cs. record {
                        entry = (uuid_of (uuid_bytes crates charact.uuid), value_content charact);
                        constants = cs;
                      })
                      named)
                g)
