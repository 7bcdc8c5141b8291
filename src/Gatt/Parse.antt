-- ===== src/Gatt/Parse.antt =====
-- The first part of `gatt` in bleps-macros/src/lib.rs (40-271): from expressions to services. The
-- fields of a definition are read in their order, and the first fault ends the macro.
use Prim.Native.String.{String, ◌++◌ as text_append}
use bleps.Common.{Bool, Option, some, List, [], ◌∷◌, ◌++◌, not, if◌then◌else◌}
use bleps.Gatt.{
  Expansion, expands, compile_error, ◌>>=◌, same, Expr, struct_expr, lit_expr, path_expr,
  array_expr, other_expr, Exprs, no_exprs, next_expr, Fields, no_fields, next_field, Member, named,
  unnamed, str, bool, other_lit, path_to_string, Descriptor, Characteristic, Service,
  default_descriptor, default_characteristic, default_service,
}

-- The three sorts of plain value, with the message for any other expression.
unfoldable pub string_of : Expr → String → Expansion String
string_of (lit_expr (str s)) message = expands s
string_of (lit_expr (bool b)) message = compile_error message
string_of (lit_expr other_lit) message = compile_error message
string_of (struct_expr p fs) message = compile_error message
string_of (path_expr p) message = compile_error message
string_of (array_expr es) message = compile_error message
string_of other_expr message = compile_error message

unfoldable pub bool_of : Expr → String → Expansion Bool
bool_of (lit_expr (bool b)) message = expands b
bool_of (lit_expr (str s)) message = compile_error message
bool_of (lit_expr other_lit) message = compile_error message
bool_of (struct_expr p fs) message = compile_error message
bool_of (path_expr p) message = compile_error message
bool_of (array_expr es) message = compile_error message
bool_of other_expr message = compile_error message

unfoldable pub path_of : Expr → String → Expansion (Option String)
path_of (path_expr p) message = expands (some (path_to_string p))
path_of (lit_expr l) message = compile_error message
path_of (struct_expr p fs) message = compile_error message
path_of (array_expr es) message = compile_error message
path_of other_expr message = compile_error message

unfoldable pub array_of : Expr → String → Expansion Exprs
array_of (array_expr es) message = expands es
array_of (lit_expr l) message = compile_error message
array_of (struct_expr p fs) message = compile_error message
array_of (path_expr p) message = compile_error message
array_of other_expr message = compile_error message

unfoldable pub name_of : Member → String → Expansion String
name_of (named name) message = expands name
name_of (unnamed i) message = compile_error message

-- `concat!("Unexpected … field '", name, "'")`.
abbrev pub unexpected : String → String → String
unexpected field name = text_append field (text_append name "'")

unfoldable pub descriptor_field : Descriptor → String → Expr → Expansion Descriptor
descriptor_field desc name e =
    if same name "uuid"
    then (do
      s ← string_of e "Descriptor field 'uuid' must be a string literal"
      expands (record desc { uuid = s }))
    else if same name "read"
    then (do
      p ← path_of e "Descriptor field 'read' must be a path"
      expands (record desc { read = p }))
    else if same name "write"
    then (do
      p ← path_of e "Descriptor field 'write' must be a path"
      expands (record desc { write = p }))
    else if same name "value"
    then (do
      p ← path_of e "Descriptor field 'value' must be a path"
      expands (record desc { value = p }))
    else compile_error (unexpected "Unexpected descriptor field '" name)

unfoldable pub descriptor_fields : Descriptor → Fields → Expansion Descriptor
descriptor_fields desc no_fields = expands desc
descriptor_fields desc (next_field member e fields) = do
  name ← name_of member "Descriptor has an unnamed field"
  desc ← descriptor_field desc name e
  descriptor_fields desc fields

-- The loop over an array `descriptors`: an element that is no struct is passed over.
unfoldable pub parse_descriptors : List Descriptor → Exprs → Expansion (List Descriptor)
parse_descriptors descs no_exprs = expands descs
parse_descriptors descs (next_expr (struct_expr path fields) es) =
    if not (same (path_to_string path) "descriptor")
    then compile_error "Descriptor definition must be given as 'descriptor { ... }'"
    else (do
      desc ← descriptor_fields default_descriptor fields
      parse_descriptors (descs ++ (desc ∷ [])) es)
parse_descriptors descs (next_expr (lit_expr l) es) = parse_descriptors descs es
parse_descriptors descs (next_expr (path_expr p) es) = parse_descriptors descs es
parse_descriptors descs (next_expr (array_expr xs) es) = parse_descriptors descs es
parse_descriptors descs (next_expr other_expr es) = parse_descriptors descs es

unfoldable pub characteristic_field : Characteristic → String → Expr → Expansion Characteristic
characteristic_field charact name e =
    if same name "uuid"
    then (do
      s ← string_of e "Characteristic field 'uuid' must be a string literal"
      expands (record charact { uuid = s }))
    else if same name "data"
    then (do
      p ← path_of e "Characteristic field 'data' must be a path"
      expands (record charact { content = p }))
    else if same name "value"
    then (do
      p ← path_of e "Characteristic field 'value' must be a path"
      expands (record charact { value = p }))
    else if same name "read"
    then (do
      p ← path_of e "Characteristic field 'read' must be a path"
      expands (record charact { read = p }))
    else if same name "write"
    then (do
      p ← path_of e "Characteristic field 'write' must be a path"
      expands (record charact { write = p }))
    else if same name "description"
    then (do
      s ← string_of e "Characteristic field 'description' must be a string literal"
      expands (record charact { description = some s }))
    else if same name "notify"
    then (do
      b ← bool_of e "Characteristic field 'notify' must be a boolean"
      expands (record charact { notify = b }))
    else if same name "notify_cb"
    then (do
      p ← path_of e "Characteristic field 'notify_cb' must be a path"
      expands (record charact { notify_cb = p }))
    else if same name "name"
    then (do
      s ← string_of e "Characteristic field 'name' must be a string literal"
      expands (record charact { name = some s }))
    else if same name "descriptors"
    then (do
      es ← array_of e "Characteristic field 'descriptors' must be an array"
      descs ← parse_descriptors charact.descriptors es
      expands (record charact { descriptors = descs }))
    else compile_error (unexpected "Unexpected characteristic field '" name)

unfoldable pub characteristic_fields : Characteristic → Fields → Expansion Characteristic
characteristic_fields charact no_fields = expands charact
characteristic_fields charact (next_field member e fields) = do
  name ← name_of member "Characteristic has an unnamed field"
  charact ← characteristic_field charact name e
  characteristic_fields charact fields

abbrev not_characteristic : String
not_characteristic = "Characteristic definition must be given as 'characteristic { ... }'"

unfoldable pub parse_characteristics : List Characteristic → Exprs → Expansion (List Characteristic)
parse_characteristics cs no_exprs = expands cs
parse_characteristics cs (next_expr (struct_expr path fields) es) =
    if not (same (path_to_string path) "characteristic")
    then compile_error not_characteristic
    else (do
      charact ← characteristic_fields default_characteristic fields
      parse_characteristics (cs ++ (charact ∷ [])) es)
parse_characteristics cs (next_expr (lit_expr l) es) = compile_error not_characteristic
parse_characteristics cs (next_expr (path_expr p) es) = compile_error not_characteristic
parse_characteristics cs (next_expr (array_expr xs) es) = compile_error not_characteristic
parse_characteristics cs (next_expr other_expr es) = compile_error not_characteristic

unfoldable pub service_field : Service → String → Expr → Expansion Service
service_field service name e =
    if same name "uuid"
    then (do
      s ← string_of e "Service field 'uuid' must be a string literal"
      expands (record service { uuid = s }))
    else if same name "characteristics"
    then (do
      es ← array_of e "Service field 'characteristics' must be an array"
      cs ← parse_characteristics service.characteristics es
      expands (record service { characteristics = cs }))
    else compile_error (unexpected "Unexpected service field '" name)

unfoldable pub service_fields : Service → Fields → Expansion Service
service_fields service no_fields = expands service
service_fields service (next_field member e fields) = do
  name ← name_of member "Service has an unnamed field"
  service ← service_field service name e
  service_fields service fields

abbrev not_service : String
not_service = "Service definition must be given as 'service { ... }'"

unfoldable pub parse_services : List Service → Exprs → Expansion (List Service)
parse_services services no_exprs = expands services
parse_services services (next_expr (struct_expr path fields) es) =
    if not (same (path_to_string path) "service") then compile_error not_service else (do
      service ← service_fields default_service fields
      parse_services (services ++ (service ∷ [])) es)
parse_services services (next_expr (lit_expr l) es) = compile_error not_service
parse_services services (next_expr (path_expr p) es) = compile_error not_service
parse_services services (next_expr (array_expr xs) es) = compile_error not_service
parse_services services (next_expr other_expr es) = compile_error not_service
