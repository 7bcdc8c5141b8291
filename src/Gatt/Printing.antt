-- ===== src/Gatt/Printing.antt =====
-- The calls of `gatt` (bleps-macros/src/lib.rs, 40-271) that stand for given services: each definition
-- with its fields in the order of the record, an absent one left out.
use Prim.Native.String.{String}
use text.Mathlib.TextLemmas.{append-nil as text_append-nil}
use bleps.Common.{
  Bool, true, false, ◌≡◌, refl, sym, ap, ◌∙◌, Option, none, some, List, [], ◌∷◌, ◌++◌, append_assoc,
  append-nil,
}
use bleps.Gatt.{
  Expansion, expands, ◌>>=◌, str, bool, Expr, struct_expr, lit_expr, path_expr, array_expr, Exprs,
  no_exprs, next_expr, Fields, no_fields, next_field, named, path_to_string, Descriptor,
  Characteristic, Service, default_descriptor, default_characteristic, default_service,
}
use bleps.Gatt.Parse.{
  string_of, bool_of, path_of, array_of, name_of, descriptor_field, descriptor_fields,
  parse_descriptors, characteristic_field, characteristic_fields, parse_characteristics,
  service_field, service_fields, parse_services,
}

abbrev text_field : String → String → Fields → Fields
text_field name text rest = next_field (named name) (lit_expr (str text)) rest

abbrev optional_text : String → Option String → Fields → Fields
optional_text name none rest = rest
optional_text name (some text) rest = text_field name text rest

abbrev optional_path : String → Option String → Fields → Fields
optional_path name none rest = rest
optional_path name (some p) rest = next_field (named name) (path_expr (p ∷ [])) rest

abbrev struct : String → Fields → Expr
struct name fields = struct_expr (name ∷ []) fields

abbrev pub descriptor_of : Descriptor → Fields
descriptor_of d = text_field "uuid" d.uuid (
    optional_path "read" d.read
      (optional_path "write" d.write (optional_path "value" d.value no_fields)))

abbrev pub descriptors_of : List Descriptor → Exprs
descriptors_of [] = no_exprs
descriptors_of (d ∷ ds) = next_expr (struct "descriptor" (descriptor_of d)) (descriptors_of ds)

abbrev optional_notify : Bool → Fields → Fields
optional_notify false rest = rest
optional_notify true rest = next_field (named "notify") (lit_expr (bool true)) rest

abbrev pub characteristic_of : Characteristic → Fields
characteristic_of c = text_field "uuid" c.uuid (
    optional_path "data" c.content (
      optional_path "value" c.value (
        optional_path "read" c.read (
          optional_path "write" c.write (
            optional_text "description" c.description (
              optional_notify c.notify (
                optional_path "notify_cb" c.notify_cb (
                  optional_text "name" c.name (
                    next_field (named "descriptors") (array_expr (descriptors_of c.descriptors))
                      no_fields)))))))))

abbrev pub characteristics_of : List Characteristic → Exprs
characteristics_of [] = no_exprs
characteristics_of (c ∷ cs) =
    next_expr (struct "characteristic" (characteristic_of c)) (characteristics_of cs)

abbrev pub service_of : Service → Fields
service_of s = text_field "uuid" s.uuid (
    next_field (named "characteristics") (array_expr (characteristics_of s.characteristics))
      no_fields)

abbrev pub services_of : List Service → Exprs
services_of [] = no_exprs
services_of (s ∷ ss) = next_expr (struct "service" (service_of s)) (services_of ss)

-- A path of one segment is its name.
segment : (p : String) → path_to_string (p ∷ []) ≡ p
unfolding path_to_string
segment p = text_append-nil p

-- A field that may be left out, given what a reader of fields makes of it: `put` is the record with
-- the field's value.
module _ {A : Type 0} (reader : A → Fields → Expansion A) (name : String)
    (put : Option String → A) where
  path_field :
      ((p : List String) (rest : Fields)
        → reader (put none) (next_field (named name) (path_expr p) rest)
          ≡ reader (put (some (path_to_string p))) rest)
      → (o : Option String) (rest : Fields)
      → reader (put none) (optional_path name o rest) ≡ reader (put o) rest
  path_field h none rest = refl
  path_field h (some p) rest = h (p ∷ []) rest ∙ ap (λ q. reader (put (some q)) rest) (segment p)

  string_field :
      ((text : String) (rest : Fields)
        → reader (put none) (text_field name text rest) ≡ reader (put (some text)) rest)
      → (o : Option String) (rest : Fields)
      → reader (put none) (optional_text name o rest) ≡ reader (put o) rest
  string_field h none rest = refl
  string_field h (some text) rest = h text rest

descriptor_fields_lem :
    (d : Descriptor) → descriptor_fields default_descriptor (descriptor_of d) ≡ expands d
unfolding descriptor_fields descriptor_field name_of string_of path_of
descriptor_fields_lem d =
    let d₀ = record default_descriptor { uuid = d.uuid } in
    let d₁ = record d₀ { read = d.read } in
    let d₂ = record d₁ { write = d.write } in
    path_field descriptor_fields "read" (λ o. record d₀ { read = o }) (λ p rest. refl) d.read _
    ∙ path_field descriptor_fields "write" (λ o. record d₁ { write = o }) (λ p rest. refl) d.write _
    ∙ path_field descriptor_fields "value" (λ o. record d₂ { value = o }) (λ p rest. refl) d.value
        no_fields

parse_descriptors_lem :
    (acc ds : List Descriptor) → parse_descriptors acc (descriptors_of ds) ≡ expands (acc ++ ds)
unfolding parse_descriptors path_to_string
parse_descriptors_lem acc [] = ap expands (sym (append-nil acc))
parse_descriptors_lem acc (d ∷ ds) =
    ap (λ r. r >>= λ desc. parse_descriptors (acc ++ (desc ∷ [])) (descriptors_of ds))
      (descriptor_fields_lem d)
    ∙ parse_descriptors_lem (acc ++ (d ∷ [])) ds
    ∙ ap expands (append_assoc acc (d ∷ []) ds)

abbrev with_descriptors : Characteristic → List Descriptor → Expansion Characteristic
with_descriptors c ds = expands (record c { descriptors = ds })

abbrev with_characteristics : Service → List Characteristic → Expansion Service
with_characteristics s cs = expands (record s { characteristics = cs })

notify_field :
    (c : Characteristic) (b : Bool) (rest : Fields)
    → characteristic_fields (record c { notify = false }) (optional_notify b rest)
      ≡ characteristic_fields (record c { notify = b }) rest
unfolding characteristic_fields characteristic_field name_of bool_of
notify_field c false rest = refl
notify_field c true rest = refl

characteristic_fields_lem :
    (c : Characteristic)
    → characteristic_fields default_characteristic (characteristic_of c) ≡ expands c
unfolding characteristic_fields characteristic_field name_of string_of path_of array_of
characteristic_fields_lem c =
    let c₀ = record default_characteristic { uuid = c.uuid } in
    let c₁ = record c₀ { content = c.content } in
    let c₂ = record c₁ { value = c.value } in
    let c₃ = record c₂ { read = c.read } in
    let c₄ = record c₃ { write = c.write } in
    let c₅ = record c₄ { description = c.description } in
    let c₆ = record c₅ { notify = c.notify } in
    let c₇ = record c₆ { notify_cb = c.notify_cb } in
    let c₈ = record c₇ { name = c.name } in
    path_field characteristic_fields "data" (λ o. record c₀ { content = o }) (λ p rest. refl)
      c.content _
    ∙ path_field characteristic_fields "value" (λ o. record c₁ { value = o }) (λ p rest. refl)
        c.value _
    ∙ path_field characteristic_fields "read" (λ o. record c₂ { read = o }) (λ p rest. refl) c.read
        _
    ∙ path_field characteristic_fields "write" (λ o. record c₃ { write = o }) (λ p rest. refl)
        c.write _
    ∙ string_field characteristic_fields "description" (λ o. record c₄ { description = o })
        (λ text rest. refl) c.description _
    ∙ notify_field c₅ c.notify _
    ∙ path_field characteristic_fields "notify_cb" (λ o. record c₆ { notify_cb = o })
        (λ p rest. refl) c.notify_cb _
    ∙ string_field characteristic_fields "name" (λ o. record c₇ { name = o }) (λ text rest. refl)
        c.name _
    ∙ ap (λ r. r >>= with_descriptors c₈ >>= expands) (parse_descriptors_lem [] c.descriptors)

parse_characteristics_lem :
    (acc cs : List Characteristic)
    → parse_characteristics acc (characteristics_of cs) ≡ expands (acc ++ cs)
unfolding parse_characteristics path_to_string
parse_characteristics_lem acc [] = ap expands (sym (append-nil acc))
parse_characteristics_lem acc (c ∷ cs) =
    ap (λ r. r >>= λ charact. parse_characteristics (acc ++ (charact ∷ [])) (characteristics_of cs))
      (characteristic_fields_lem c)
    ∙ parse_characteristics_lem (acc ++ (c ∷ [])) cs
    ∙ ap expands (append_assoc acc (c ∷ []) cs)

service_fields_lem : (s : Service) → service_fields default_service (service_of s) ≡ expands s
unfolding service_fields service_field name_of string_of array_of
service_fields_lem s =
    ap (λ r. r >>= with_characteristics (record default_service { uuid = s.uuid }) >>= expands)
      (parse_characteristics_lem [] s.characteristics)

parse_services-append :
    (acc ss : List Service) → parse_services acc (services_of ss) ≡ expands (acc ++ ss)
unfolding parse_services path_to_string
parse_services-append acc [] = ap expands (sym (append-nil acc))
parse_services-append acc (s ∷ ss) =
    ap (λ r. r >>= λ service. parse_services (acc ++ (service ∷ [])) (services_of ss))
      (service_fields_lem s)
    ∙ parse_services-append (acc ++ (s ∷ [])) ss
    ∙ ap expands (append_assoc acc (s ∷ []) ss)

-- Every list of services, with any characteristics and descriptors, can be written as a call of the
-- macro, and the first part of the macro reads from that call exactly those services.
pub parse_services-services_of :
    (services : List Service) → parse_services [] (services_of services) ≡ expands services
parse_services-services_of services = parse_services-append [] services
