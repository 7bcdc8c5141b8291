-- ===== src/Gatt/Plan.antt =====
-- What a call of `gatt` in bleps-macros/src/lib.rs asks for, without the names and statements of the
-- code that the macro writes: the attributes in their order, and the constants that go with each.
use Prim.Native.String.{String, ◌++◌ as text_append}
use bleps.Common.{
  ℕ, ◌+◌, ◌*◌, ◌||◌, Option, none, some, List, [], ◌∷◌, ◌++◌, map, length, if◌then◌else◌, u16_le,
}
use bleps.Att.{uuid16}
use bleps.Gatt.{Expansion, expands, compile_error, panics, Descriptor, Characteristic, Service}
use bleps.Gatt.Code.{Crates, uuid_to_bytes, uuid_of, text_bytes, ident}
use bleps.Gatt.Generate.{is_some, as_u32, primary_service, characteristic}
use bleps.Gatt.Running.{Content, constant, variable, functions, Entry}

-- One attribute, with the constants that name its handle.
pub record Planned : Type 0 where
  pub entry : Entry
  pub constants : List (String × ℕ)

abbrev pub expanded : Expansion (List ℕ) → List ℕ
expanded (expands bytes) = bytes
expanded (compile_error message) = []
expanded panics = []

abbrev pub uuid_bytes : Crates → String → List ℕ
uuid_bytes crates uuid = expanded (uuid_to_bytes crates uuid)

abbrev pub bare : Entry → Planned
bare e = record { entry = e; constants = [] }

abbrev pub announced : Option String → String → ℕ → List (String × ℕ)
announced none suffix handle = []
announced (some name) suffix handle = (text_append name suffix, handle) ∷ []

abbrev pub or_text : Option String → String → String
or_text none text = text
or_text (some name) text = name

-- The data of a characteristic: functions if there is one to read or to write, and else its value.
abbrev pub value_content : Characteristic → Content
value_content c =
    if is_some c.read || is_some c.write
    then functions c.read c.write c.notify_cb
    else variable (or_text c.value (or_text c.content ""))

abbrev pub descriptor_content : Descriptor → Content
descriptor_content d =
    if is_some d.read || is_some d.write
    then functions d.read d.write none
    else variable (or_text d.value "")

-- Bit 1 for reading, bit 3 for writing, bit 4 for notifications.
abbrev pub property_sum : Characteristic → ℕ
property_sum c = as_u32 (is_some c.read) * 2 + as_u32 (is_some c.write) * 8 + as_u32 c.notify * 16

abbrev pub plan_descriptor : Crates → Descriptor → Planned
plan_descriptor crates d = bare (uuid_of (uuid_bytes crates d.uuid), descriptor_content d)

abbrev pub plan_cccd : Characteristic → ℕ → List Planned
plan_cccd c handle =
    if c.notify
    then record {
      entry = (
        uuid16 0x2902,
        functions (some (ident "_attr_read" (handle ∷ [])))
            (some (ident "_attr_write" (handle ∷ []))) none,
      );
      constants = announced c.name "_notify_enable_handle" handle;
    }
      ∷ []
    else []

abbrev pub plan_description : Option String → List Planned
plan_description none = []
plan_description (some text) = bare (uuid16 0x2901, constant (text_bytes text)) ∷ []

-- `handle` is that of the declaration, and the value has the next one.
abbrev pub plan_declaration : Crates → ℕ → Characteristic → Planned
plan_declaration crates handle c =
    bare (
      characteristic,
      constant (property_sum c ∷ (u16_le (handle + 1) ++ uuid_bytes crates c.uuid)),
    )

abbrev pub plan_value : Crates → ℕ → Characteristic → Planned
plan_value crates handle c = record {
  entry = (uuid_of (uuid_bytes crates c.uuid), value_content c);
  constants = announced c.name "_handle" handle;
}

abbrev pub plan_characteristic : Crates → ℕ → Characteristic → List Planned
plan_characteristic crates handle c =
    plan_declaration crates handle c
    ∷ plan_value crates (handle + 1) c
    ∷ (plan_cccd c (handle + 2)
        ++ (plan_description c.description ++ map (plan_descriptor crates) c.descriptors))

abbrev pub plan_characteristics : Crates → ℕ → List Characteristic → List Planned
plan_characteristics crates handle [] = []
plan_characteristics crates handle (c ∷ cs) =
    let first = plan_characteristic crates handle c in
    first ++ plan_characteristics crates (handle + length first) cs

abbrev pub plan_service : Crates → ℕ → Service → List Planned
plan_service crates handle s =
    bare (primary_service, constant (uuid_bytes crates s.uuid))
    ∷ plan_characteristics crates (handle + 1) s.characteristics

abbrev pub plan : Crates → ℕ → List Service → List Planned
plan crates handle [] = []
plan crates handle (s ∷ ss) =
    let first = plan_service crates handle s in first ++ plan crates (handle + length first) ss

abbrev pub entries : List Planned → List Entry
entries ps = map (λ p. p.entry) ps

abbrev pub constants : List Planned → List (String × ℕ)
constants [] = []
constants (p ∷ ps) = p.constants ++ constants ps
