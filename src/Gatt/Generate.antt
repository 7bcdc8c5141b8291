-- ===== src/Gatt/Generate.antt =====
-- The second part of `gatt` in bleps-macros/src/lib.rs (273-551): from services to code.
use Prim.Native.String.{String, ◌++◌ as text_append}
use bleps.Common.{
  ℕ, suc, ◌+◌, ◌%◌, ◌^◌, Bool, true, false, ◌||◌, Option, none, some, List, [], ◌∷◌, ◌++◌, ltb,
  bit_or, if◌then◌else◌, length, u16_le,
}
use bleps.Att.{Uuid, uuid16}
use bleps.Gatt.{
  Expansion, expands, compile_error, panics, ◌>>=◌, Descriptor, Characteristic, Service, Exprs,
}
use bleps.Gatt.Parse.{parse_services}
use bleps.Gatt.Code.{
  Crates, ident, checked, text_bytes, uuid_to_bytes, uuid_of, Decl, array_decl, reference_decl,
  variable_decl, closures_decl, attribute_decl, Storage, Code, empty_code,
}

-- `PRIMARY_SERVICE_UUID16` and `CHARACTERISTIC_UUID16`.
abbrev pub primary_service : Uuid
primary_service = uuid16 0x2800

abbrev pub characteristic : Uuid
characteristic = uuid16 0x2803

abbrev pub is_some : {A : Type 0} → Option A → Bool
is_some none = false
is_some (some a) = true

abbrev pub as_u32 : Bool → ℕ
as_u32 false = 0
as_u32 true = 1

-- What the macro does for one attribute: its declarations, its name in `gatt_attributes`, the
-- storage and the constant that go with it, and `current_handle += 1`.
unfoldable pub push : Code → List Storage → List Decl → String → List (String × ℕ) → Expansion Code
push c storage decls attrib constants =
    if ltb (c.current_handle + 1) (2 ^ 16)
    then expands (record {
      pre = c.pre ++ storage;
      decls = c.decls ++ decls;
      attribs = c.attribs ++ (attrib ∷ []);
      post = c.post ++ constants;
      current_handle = c.current_handle + 1;
    })
    else panics

-- An attribute that holds bytes: `let x = […]; let mut y = &x; let z = Attribute::new(uuid, &mut y);`.
abbrev pub constant_decls : String → String → String → Uuid → List ℕ → List Decl
constant_decls x y z uuid bytes =
    array_decl x bytes ∷ reference_decl y x ∷ attribute_decl z uuid y ∷ []

-- `let x_handle = current_handle;`, if the characteristic has a name.
unfoldable pub announce : Crates → Option String → String → ℕ → Expansion (List (String × ℕ))
announce crates none suffix handle = expands []
announce crates (some name) suffix handle = do
  text ← checked crates (text_append name suffix)
  expands ((text, handle) ∷ [])

-- `format_ident!("{}", name)`, for the name of a function or value.
unfoldable pub plain : Crates → Option String → Expansion (Option String)
plain crates none = expands none
plain crates (some name) = do text ← checked crates name; expands (some text)

unfoldable pub push_service : Code → ℕ → List ℕ → Expansion Code
push_service c i uuid_bytes =
    push c []
      (constant_decls (ident "_uuid" (i ∷ [])) (ident "_uuid_data" (i ∷ []))
        (ident "_primary_srv" (i ∷ [])) primary_service uuid_bytes)
      (ident "_primary_srv" (i ∷ [])) []

-- The property bits.
unfoldable pub properties : Characteristic → ℕ
properties charact =
    bit_or
      (bit_or (if is_some charact.read then 0x02 else 0)
        (if is_some charact.write then 0x08 else 0))
      (if charact.notify then 0x10 else 0)

-- The attribute that declares a characteristic.
unfoldable pub push_declaration : Code → ℕ → ℕ → Characteristic → List ℕ → Expansion Code
push_declaration c i j charact uuid_bytes =
    let char_handle : ℕ = (length c.attribs + 1 + 1) % 2 ^ 16 in
    push c []
      (constant_decls (ident "_char_data" (i ∷ j ∷ [])) (ident "_char_data_attr" (i ∷ j ∷ []))
        (ident "_char_data_attribute" (i ∷ j ∷ [])) characteristic
        (properties charact ∷ (u16_le char_handle ++ uuid_bytes)))
      (ident "_char_data_attribute" (i ∷ j ∷ [])) []

-- How many of the three sorts of data a characteristic has.
unfoldable pub source_count : Characteristic → ℕ
source_count charact =
    as_u32 (is_some charact.read || is_some charact.write)
    + as_u32 (is_some charact.value)
    + as_u32 (is_some charact.content)

-- The declaration of a triple of functions, and of a value.
unfoldable pub closures_data :
    Crates → String → Option String → Option String → Option String → Expansion Decl
closures_data crates x read write notify_cb = do
  r ← plain crates read
  w ← plain crates write
  n ← plain crates notify_cb
  expands (closures_decl x r w n)

unfoldable pub variable_data : Crates → String → String → Expansion Decl
variable_data crates x name = do v ← checked crates name; expands (variable_decl x v)

abbrev pub value_duplicated : String
value_duplicated = "Characteristic data fields duplicated: 'read'/'write' or 'value' or 'data'"

abbrev pub value_missing : String
value_missing = "Characteristic data fields missing: 'read'/'write' nor 'value' nor 'data'"

-- `else if let Some(name) = …value … else if let Some(name) = …data … else …`.
unfoldable pub value_data : Crates → String → Option String → Option String → Expansion Decl
value_data crates x (some name) content = variable_data crates x name
value_data crates x none (some name) = variable_data crates x name
value_data crates x none none = compile_error value_missing

-- The declaration of the data of a characteristic.
unfoldable pub value_decl : Crates → String → Characteristic → Expansion Decl
value_decl crates x charact =
    if ltb 1 (source_count charact)
    then compile_error value_duplicated
    else if is_some charact.read || is_some charact.write
    then closures_data crates x charact.read charact.write charact.notify_cb
    else value_data crates x charact.value charact.content

unfoldable pub push_value : Crates → Code → ℕ → ℕ → Characteristic → List ℕ → Expansion Code
push_value crates c i j charact uuid_bytes = do
  decl ← value_decl crates (ident "_gen_attr_att_data" (i ∷ j ∷ [])) charact
  constants ← announce crates charact.name "_handle" c.current_handle
  push c []
      (decl
        ∷ attribute_decl (ident "_gen_attr" (i ∷ j ∷ [])) (uuid_of uuid_bytes)
            (ident "_gen_attr_att_data" (i ∷ j ∷ []))
        ∷ [])
      (ident "_gen_attr" (i ∷ j ∷ [])) constants

abbrev pub storage_at : ℕ → Storage
storage_at handle = record {
  data_name = ident "_attr_data" (handle ∷ []);
  read_name = ident "_attr_read" (handle ∷ []);
  write_name = ident "_attr_write" (handle ∷ []);
}

-- The client characteristic configuration.
unfoldable pub push_cccd : Crates → Code → ℕ → ℕ → Characteristic → Expansion Code
push_cccd crates c i j charact = do
  constants ← announce crates charact.name "_notify_enable_handle" c.current_handle
  let storage = storage_at c.current_handle
  push c (storage ∷ [])
      (array_decl (ident "_char_ccd_data" (i ∷ j ∷ [])) (0 ∷ 0 ∷ [])
        ∷ closures_decl (ident "_char_ccd_data_attr" (i ∷ j ∷ [])) (some storage.read_name)
            (some storage.write_name) none
        ∷ attribute_decl (ident "_char_ccd_data_attribute" (i ∷ j ∷ [])) (uuid16 0x2902)
            (ident "_char_ccd_data_attr" (i ∷ j ∷ []))
        ∷ [])
      (ident "_char_ccd_data_attribute" (i ∷ j ∷ [])) constants

unfoldable pub push_description : Code → ℕ → ℕ → String → Expansion Code
push_description c i j description =
    push c []
      (constant_decls (ident "_char_user_description_data" (i ∷ j ∷ []))
        (ident "_char_user_description_data_attr" (i ∷ j ∷ []))
        (ident "_char_user_description_data_attribute" (i ∷ j ∷ [])) (uuid16 0x2901)
        (text_bytes description))
      (ident "_char_user_description_data_attribute" (i ∷ j ∷ [])) []

unfoldable pub descriptor_source_count : Descriptor → ℕ
descriptor_source_count desc =
    as_u32 (is_some desc.read || is_some desc.write) + as_u32 (is_some desc.value)

abbrev pub descriptor_duplicated : String
descriptor_duplicated = "Descriptor data fields duplicated: 'read'/'write' or 'value'"

abbrev pub descriptor_missing : String
descriptor_missing = "Descriptor data fields missing: 'read'/'write' nor 'value'"

unfoldable pub descriptor_data : Crates → String → Option String → Expansion Decl
descriptor_data crates x (some name) = variable_data crates x name
descriptor_data crates x none = compile_error descriptor_missing

unfoldable pub descriptor_decl : Crates → String → Descriptor → Expansion Decl
descriptor_decl crates x desc =
    if ltb 1 (descriptor_source_count desc)
    then compile_error descriptor_duplicated
    else if is_some desc.read || is_some desc.write
    then closures_data crates x desc.read desc.write none
    else descriptor_data crates x desc.value

unfoldable pub push_descriptor : Crates → Code → ℕ → ℕ → ℕ → Descriptor → Expansion Code
push_descriptor crates c i j k desc = do
  uuid_bytes ← uuid_to_bytes crates desc.uuid
  decl ← descriptor_decl crates (ident "_char_desc_data" (i ∷ j ∷ k ∷ [])) desc
  push c []
      (decl
        ∷ attribute_decl (ident "_char_desc_attr" (i ∷ j ∷ k ∷ [])) (uuid_of uuid_bytes)
            (ident "_char_desc_data" (i ∷ j ∷ k ∷ []))
        ∷ [])
      (ident "_char_desc_attr" (i ∷ j ∷ k ∷ [])) []

-- The loops, each from its index on.
unfoldable pub push_descriptors : Crates → Code → ℕ → ℕ → ℕ → List Descriptor → Expansion Code
push_descriptors crates c i j k [] = expands c
push_descriptors crates c i j k (desc ∷ descs) = do
  c ← push_descriptor crates c i j k desc
  push_descriptors crates c i j (suc k) descs

-- The configuration and the description of a characteristic, if it has them.
unfoldable pub push_extras : Crates → Code → ℕ → ℕ → Characteristic → Expansion Code
push_extras crates c i j charact = do
  c ← if charact.notify then push_cccd crates c i j charact else expands c
  elim charact.description [ none ↦ expands c | some d ↦ push_description c i j d ]

unfoldable pub push_characteristic : Crates → Code → ℕ → ℕ → Characteristic → Expansion Code
push_characteristic crates c i j charact = do
  uuid_bytes ← uuid_to_bytes crates charact.uuid
  c ← push_declaration c i j charact uuid_bytes
  c ← push_value crates c i j charact uuid_bytes
  c ← push_extras crates c i j charact
  push_descriptors crates c i j 0 charact.descriptors

unfoldable pub push_characteristics : Crates → Code → ℕ → ℕ → List Characteristic → Expansion Code
push_characteristics crates c i j [] = expands c
push_characteristics crates c i j (charact ∷ characts) = do
  c ← push_characteristic crates c i j charact
  push_characteristics crates c i (suc j) characts

unfoldable pub push_services : Crates → Code → ℕ → List Service → Expansion Code
push_services crates c i [] = expands c
push_services crates c i (service ∷ services) = do
  uuid_bytes ← uuid_to_bytes crates service.uuid
  c ← push_service c i uuid_bytes
  c ← push_characteristics crates c i 0 service.characteristics
  push_services crates c (suc i) services

unfoldable pub generate : Crates → List Service → Expansion Code
generate crates services = push_services crates empty_code 0 services

-- The macro.
unfoldable pub gatt : Crates → Exprs → Expansion Code
gatt crates ast = do services ← parse_services [] ast; generate crates services
