-- ===== src/Gatt/Sources.antt =====
-- Which services `gatt` of bleps-macros/src/lib.rs refuses for their data (330-376, 493-527).
use Prim.Native.String.{String}
use bleps.Common.{
  ℕ, suc, ◌+◌, ◌<◌, ◌≡◌, sym, ap, ◌∙◌, Bool, true, false, ◌||◌, Option, none, some, List, [], ◌∷◌,
  arith, ltb, All, if◌then◌else◌,
}
use bleps.Gatt.{Expansion, expands, compile_error, Descriptor, Characteristic, Service}
use bleps.Gatt.Code.{Crates, Code, Decl, ident, uuid_to_bytes, empty_code}
use bleps.Gatt.Generate.{
  is_some, as_u32, source_count, descriptor_source_count, closures_data, value_data, value_decl,
  push_value, push_declaration, push_extras, descriptor_data, descriptor_decl, push_descriptor,
  push_descriptors, push_characteristic, push_characteristics, push_service, push_services,
  generate, value_duplicated, value_missing, descriptor_duplicated, descriptor_missing,
}
use bleps.Gatt.Outcomes.{Yields, error-Yields, if-Yields, weaken-Yields, bind-value, bind-Yields}

-- Exactly one sort of data for each characteristic and each of its descriptors.
abbrev pub HasSource : Characteristic → Type 0
HasSource c = (source_count c ≡ 1) × All (λ d. descriptor_source_count d ≡ 1) c.descriptors

abbrev pub HasSources : Service → Type 0
HasSources s = All HasSource s.characteristics

always-Yields : {A : Type 0} {P : Type 0} (m : Expansion A) → P → Yields (λ a. P) m
always-Yields m p = record { yields = λ a e. p }

-- A value is there if its declaration is.
value_data-source :
    (crates : Crates) (x : String) (value content : Option String)
    → Yields
        (λ d. 0 < as_u32 (is_some value) + as_u32 (is_some content))
        (value_data crates x value content)
unfolding value_data
value_data-source crates x (some v) none = always-Yields _ (omega arith)
value_data-source crates x (some v) (some w) = always-Yields _ (omega arith)
value_data-source crates x none (some w) = always-Yields _ (omega arith)
value_data-source crates x none none = error-Yields value_missing

one_source :
    (f : Bool) (v c : ℕ) (m n : Expansion Decl)
    → ltb 1 (as_u32 f + v + c) ≡ false
    → Yields (λ d. 0 < v + c) n
    → Yields (λ d. as_u32 f + v + c ≡ 1) (if f then m else n)
one_source true v c m n few h = always-Yields m (ground arith)
one_source false v c m n few h = weaken-Yields n h (λ d k. ground arith)

value_decl-source :
    (crates : Crates) (x : String) (c : Characteristic)
    → Yields (λ d. source_count c ≡ 1) (value_decl crates x c)
unfolding value_decl source_count
value_decl-source crates x c =
    if-Yields (ltb 1 (source_count c)) (compile_error value_duplicated) _
      (λ many. error-Yields value_duplicated)
      (λ few.
        one_source (is_some c.read || is_some c.write) (as_u32 (is_some c.value))
          (as_u32 (is_some c.content)) (closures_data crates x c.read c.write c.notify_cb) _ few
          (value_data-source crates x c.value c.content))

descriptor_data-source :
    (crates : Crates) (x : String) (value : Option String)
    → Yields (λ d. 0 < as_u32 (is_some value) + 0) (descriptor_data crates x value)
unfolding descriptor_data
descriptor_data-source crates x (some v) = always-Yields _ (omega arith)
descriptor_data-source crates x none = error-Yields descriptor_missing

descriptor_decl-source :
    (crates : Crates) (x : String) (d : Descriptor)
    → Yields (λ decl. descriptor_source_count d ≡ 1) (descriptor_decl crates x d)
unfolding descriptor_decl descriptor_source_count
descriptor_decl-source crates x d =
    let f : Bool = is_some d.read || is_some d.write in
    let same_count : as_u32 f + as_u32 (is_some d.value) + 0 ≡ as_u32 f + as_u32 (is_some d.value) =
      omega arith in
    if-Yields (ltb 1 (descriptor_source_count d)) (compile_error descriptor_duplicated) _
      (λ many. error-Yields descriptor_duplicated)
      (λ few.
        weaken-Yields _
          (one_source f (as_u32 (is_some d.value)) 0 (closures_data crates x d.read d.write none) _
            (ap (ltb 1) same_count ∙ few) (descriptor_data-source crates x d.value))
          (λ decl e. sym same_count ∙ e))

push_descriptors-sources :
    (crates : Crates) (c : Code) (i j k : ℕ) (ds : List Descriptor)
    → Yields
        (λ c'. All (λ d. descriptor_source_count d ≡ 1) ds)
        (push_descriptors crates c i j k ds)
unfolding push_descriptors push_descriptor
push_descriptors-sources crates c i j k [] = always-Yields _ tt
push_descriptors-sources crates c i j k (d ∷ ds) =
    let x : String = ident "_char_desc_data" (i ∷ j ∷ k ∷ []) in
    bind-Yields (push_descriptor crates c i j k d) _
      (bind-value (uuid_to_bytes crates d.uuid) _ λ bytes e.
        bind-Yields (descriptor_decl crates x d) _ (descriptor_decl-source crates x d)
          λ decl e₁ one. always-Yields _ one)
      (λ c' e one.
        weaken-Yields (push_descriptors crates c' i j (suc k) ds)
          (push_descriptors-sources crates c' i j (suc k) ds) (λ c'' rest. (one, rest)))

push_characteristic-source :
    (crates : Crates) (c : Code) (i j : ℕ) (charact : Characteristic)
    → Yields (λ c'. HasSource charact) (push_characteristic crates c i j charact)
unfolding push_characteristic push_value
push_characteristic-source crates c i j charact =
    let x : String = ident "_gen_attr_att_data" (i ∷ j ∷ []) in
    bind-value (uuid_to_bytes crates charact.uuid) _ λ bytes e.
      bind-value (push_declaration c i j charact bytes) _ λ c₁ e₁.
        bind-Yields (push_value crates c₁ i j charact bytes) _
          (bind-Yields (value_decl crates x charact) _ (value_decl-source crates x charact)
            λ decl e₂ one. always-Yields _ one)
          λ c₂ e₃ one. bind-value (push_extras crates c₂ i j charact) _ λ c₃ e₄.
            weaken-Yields (push_descriptors crates c₃ i j 0 charact.descriptors)
              (push_descriptors-sources crates c₃ i j 0 charact.descriptors)
              (λ c' rest. (one, rest))

push_characteristics-sources :
    (crates : Crates) (c : Code) (i j : ℕ) (cs : List Characteristic)
    → Yields (λ c'. All HasSource cs) (push_characteristics crates c i j cs)
unfolding push_characteristics
push_characteristics-sources crates c i j [] = always-Yields _ tt
push_characteristics-sources crates c i j (charact ∷ cs) =
    bind-Yields (push_characteristic crates c i j charact) _
      (push_characteristic-source crates c i j charact)
      λ c' e one.
        weaken-Yields (push_characteristics crates c' i (suc j) cs)
          (push_characteristics-sources crates c' i (suc j) cs) (λ c'' rest. (one, rest))

push_services-sources :
    (crates : Crates) (c : Code) (i : ℕ) (ss : List Service)
    → Yields (λ c'. All HasSources ss) (push_services crates c i ss)
unfolding push_services
push_services-sources crates c i [] = always-Yields _ tt
push_services-sources crates c i (s ∷ ss) = bind-value (uuid_to_bytes crates s.uuid) _ λ bytes e.
    bind-value (push_service c i bytes) _ λ c₁ e₁.
      bind-Yields (push_characteristics crates c₁ i 0 s.characteristics) _
        (push_characteristics-sources crates c₁ i 0 s.characteristics)
        λ c₂ e₂ own.
          weaken-Yields (push_services crates c₂ (suc i) ss)
            (push_services-sources crates c₂ (suc i) ss) (λ c' rest. (own, rest))

-- The macro writes code only for services in which every characteristic has exactly one sort of data
-- (functions to read or write, a value, or data), and every descriptor exactly one (functions or a
-- value).
pub generate-HasSources :
    (crates : Crates) (services : List Service) (code : Code)
    → generate crates services ≡ expands code
    → All HasSources services
unfolding generate
generate-HasSources crates services code e =
    let y = push_services-sources crates empty_code 0 services in y.yields code e
