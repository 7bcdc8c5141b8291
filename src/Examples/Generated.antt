-- ===== src/Examples/Generated.antt =====
-- The theorems on the macro `gatt`, at a service with one characteristic.
use bleps.Common.{
  suc, ℕ, ◌≡◌, ◌<◌, ◌≤◌, refl, true, some, none, List, [], ◌∷◌, map, length, arith, All, get_elem?,
  done, ◌>>=◌, ok, if◌then◌else◌,
}
use bleps.Att.{uuid16}
use bleps.Attribute.{Attribute, AttData, slice, value, closures, array_read, array_write}
use bleps.Server.{Server, assign_handles}
use bleps.Gatt.{Expansion, expands, compile_error, panics, same, Characteristic, Service}
use bleps.Gatt.Parse.{parse_services}
use bleps.Gatt.Code.{
  Crates, Code, empty_code, uuid_to_bytes, from_str_radix, text_bytes, hex_value, checked, decimal,
  digits, ident, uuid_of,
}
use bleps.Gatt.Generate.{
  generate, push_services, push_service, push, push_characteristics, push_characteristic,
  push_declaration, push_value, value_decl, source_count, closures_data, plain, announce,
  descriptor_data, descriptor_decl, descriptor_source_count, properties, push_cccd,
  push_description, push_descriptor, push_descriptors, push_extras, value_data, variable_data,
}
use bleps.Gatt.Running.{Content, constant, variable, functions, Entry, gatt_attributes, distinct}
use bleps.Gatt.Plan.{Planned, plan, entries, constants}
use bleps.Gatt.Attributes.{generate_lem, generate_handle_bounds}
use bleps.Gatt.Served.{attribute_for, numbered, generate-assign_handles}
use bleps.Gatt.Discovered.{Proper, asked_for, discover_services_of_call}
use bleps.Server.Groups.{grouped, assign_handles_lem}
use bleps.Server.Discovery.{Discovery}
use bleps.Server.Lookup.{long}
use bleps.Examples.{silent}
use bleps.Gatt.Sources.{HasSources, generate-HasSources}
use bleps.Gatt.Cccd.{cccd_read, cccd_write, cccd_read-array_read}
use bleps.Gatt.Printing.{services_of, parse_services-services_of}

-- A parser that knows one UUID, and names that are all identifiers.
abbrev crates : Crates
crates = record {
  parse_str = λ text.
      if same text "00000000-0000-0000-0000-0000000000ff"
      then some (0 ∷ 0 ∷ 0 ∷ 0 ∷ 0 ∷ 0 ∷ 0 ∷ 0 ∷ 0 ∷ 0 ∷ 0 ∷ 0 ∷ 0 ∷ 0 ∷ 0 ∷ 255 ∷ [])
      else none;
  is_ident = λ text. true;
}

abbrev level : Characteristic
level = record {
  uuid = "2a19";
  content = none;
  value = none;
  read = some "read_level";
  write = none;
  description = some "Level";
  notify = true;
  notify_cb = none;
  name = some "level";
  descriptors = record { uuid = "2904"; read = none; write = none; value = some "unit" } ∷ [];
}

abbrev battery : Service
battery = record { uuid = "00000000-0000-0000-0000-0000000000ff"; characteristics = level ∷ [] }

abbrev code_of : Expansion Code → Code
code_of (expands code) = code
code_of (compile_error message) = empty_code
code_of panics = empty_code

abbrev code : Code
code = code_of (generate crates (battery ∷ []))

written : generate crates (battery ∷ []) ≡ expands code
unfolding generate push_services push_service push push_characteristics push_characteristic
    push_declaration push_value value_decl source_count closures_data plain announce descriptor_data
    descriptor_decl descriptor_source_count properties push_cccd push_description push_descriptor
    push_descriptors push_extras value_data variable_data uuid_to_bytes from_str_radix text_bytes
    hex_value checked decimal digits ident uuid_of
written = refl

no_clash : distinct code.decls ≡ true
unfolding generate push_services push_service push push_characteristics push_characteristic
    push_declaration push_value value_decl source_count closures_data plain announce descriptor_data
    descriptor_decl descriptor_source_count properties push_cccd push_description push_descriptor
    push_descriptors push_extras value_data variable_data uuid_to_bytes from_str_radix text_bytes
    hex_value checked decimal digits ident uuid_of
no_clash = refl

generate_lem_example :
    (gatt_attributes code ≡ some (entries (plan crates 1 (battery ∷ []))))
    × (code.post ≡ constants (plan crates 1 (battery ∷ [])))
generate_lem_example = generate_lem crates (battery ∷ []) code written no_clash

generate_handle_bounds_example :
    (length code.attribs < 65535)
    × All (λ x. (1 ≤ x.1) × (x.1 < suc (length code.attribs))) code.post
generate_handle_bounds_example = generate_handle_bounds crates (battery ∷ []) code written

generate-HasSources_example : All HasSources (battery ∷ [])
generate-HasSources_example = generate-HasSources crates (battery ∷ []) code written

-- The application's data.
abbrev data_of : Content → AttData ℕ
data_of (constant bytes) = slice bytes
data_of (variable name) = value (1 ∷ [])
data_of (functions r w n) = closures none none none

-- The attribute with the value.
abbrev level_value : Planned
level_value = record {
  entry = (uuid16 0x2a19, functions (some "read_level") none none);
  constants = ("level_handle", 3) ∷ [];
}

third : get_elem? (plan crates 1 (battery ∷ [])) 2 ≡ some level_value
unfolding uuid_to_bytes from_str_radix text_bytes hex_value uuid_of
third = refl

generate-assign_handles_example :
    (es : List Entry) × (atts : List (Attribute ℕ)) × (end : ℕ) × (gatt_attributes code ≡ some es)
    × (assign_handles (map (attribute_for data_of) es) ≡ done atts)
    × (get_elem? atts 2 ≡ some (numbered (attribute_for data_of level_value.entry) 3 end))
    × (code.post ≡ constants (plan crates 1 (battery ∷ [])))
    × All (λ x. x.1 ≡ 3) level_value.constants
generate-assign_handles_example =
    generate-assign_handles data_of crates battery [] code 2 level_value written no_clash third

abbrev battery_entries : List Entry
battery_entries = entries (plan crates 1 (battery ∷ []))

abbrev battery_attributes : List (Attribute ℕ)
battery_attributes = map (attribute_for data_of) battery_entries

abbrev battery_server : Server ℕ
battery_server = record {
  mtu = 23;
  src_handle = 0;
  attributes = grouped 1 battery_attributes;
  app = 0;
  hci = silent;
  max_mtu = 128;
}

battery-Proper : All (Proper crates) (battery ∷ [])
unfolding uuid_to_bytes from_str_radix text_bytes hex_value uuid_of
battery-Proper = ((long _ refl, ((refl, (refl, tt)), tt)), tt)

discover_services_of_call_example :
    Discovery 64 battery_server 1 (asked_for crates 1 (battery ∷ []))
discover_services_of_call_example =
    discover_services_of_call data_of (λ bytes. refl) crates battery [] code battery_entries 64
      battery_server written no_clash battery-Proper
      (generate_lem crates (battery ∷ []) code written no_clash).0
      (assign_handles_lem _ _ (omega arith))

parse_services-services_of_example :
    parse_services [] (services_of (battery ∷ [])) ≡ expands (battery ∷ [])
parse_services-services_of_example = parse_services-services_of (battery ∷ [])

cccd_read-array_read_example :
    ((cccd_read (1 ∷ 0 ∷ []) 1 (9 ∷ 9 ∷ 9 ∷ []) >>= λ r. done (ok r.0, r.1))
      ≡ array_read (1 ∷ 0 ∷ []) 1 (9 ∷ 9 ∷ 9 ∷ []))
    × ((cccd_write (1 ∷ 0 ∷ []) 1 (5 ∷ 6 ∷ []) >>= λ b. done (ok tt, b))
        ≡ array_write (1 ∷ 0 ∷ []) 1 (5 ∷ 6 ∷ []))
cccd_read-array_read_example = cccd_read-array_read (1 ∷ 0 ∷ []) 1 (9 ∷ 9 ∷ 9 ∷ []) (5 ∷ 6 ∷ [])

-- Different places can get the same name: the second service (1) with its twelfth characteristic
-- (11), and the twelfth service with its second characteristic.
same_name : ident "_char_data" (1 ∷ 11 ∷ []) ≡ ident "_char_data" (11 ∷ 1 ∷ [])
unfolding ident decimal digits
same_name = refl
