-- ===== src/Gatt/Running.antt =====
-- What the code that `gatt` of bleps-macros/src/lib.rs writes does where it stands: the statements
-- in their order bind names, and the array takes the attributes by name. Of the application's
-- functions and values only the names are known here.
use Prim.Native.String.{String}
use bleps.Common.{ℕ, Bool, true, not, ◌&&◌, Option, none, some, List, [], ◌∷◌, if◌then◌else◌}
use bleps.Att.{Uuid}
use bleps.Gatt.{same}
use bleps.Gatt.Code.{
  Decl, array_decl, reference_decl, variable_decl, closures_decl, attribute_decl, Code,
}

-- The data of an attribute: bytes, a value of the application, or a triple of functions.
pub data Content : Type 0 where
  constant : List ℕ → Content
  variable : String → Content
  functions : Option String → Option String → Option String → Content

abbrev pub Entry : Type 0
Entry = Uuid × Content

pub data Bound : Type 0 where
  held : Content → Bound
  attribute : Entry → Bound

abbrev pub Env : Type 0
Env = List (String × Bound)

-- The last binding of a name counts.
unfoldable pub lookup : String → Env → Option Bound
lookup x [] = none
lookup x ((y, b) ∷ env) = if same x y then some b else lookup x env

abbrev pub entry_of : Option Bound → Option Entry
entry_of none = none
entry_of (some (held c)) = none
entry_of (some (attribute e)) = some e

abbrev pub refer : String → Option Bound → Env → Option Env
refer x none env = none
refer x (some b) env = some ((x, b) ∷ env)

abbrev pub attach : String → Uuid → Option Bound → Env → Option Env
attach x uuid none env = none
attach x uuid (some (held c)) env = some ((x, attribute (uuid, c)) ∷ env)
attach x uuid (some (attribute e)) env = none

unfoldable pub exec_decl : Env → Decl → Option Env
exec_decl env (array_decl x bytes) = some ((x, held (constant bytes)) ∷ env)
exec_decl env (reference_decl x y) = refer x (lookup y env) env
exec_decl env (variable_decl x v) = some ((x, held (variable v)) ∷ env)
exec_decl env (closures_decl x r w n) = some ((x, held (functions r w n)) ∷ env)
exec_decl env (attribute_decl x uuid y) = attach x uuid (lookup y env) env

unfoldable pub exec : Env → List Decl → Option Env
exec env [] = some env
exec env (d ∷ ds) = elim (exec_decl env d) [ none ↦ none | some env' ↦ exec env' ds ]

abbrev pub cons_entry : Option Entry → Option (List Entry) → Option (List Entry)
cons_entry none es = none
cons_entry (some e) none = none
cons_entry (some e) (some es) = some (e ∷ es)

-- `[a, b, …]`.
unfoldable pub collect : Env → List String → Option (List Entry)
collect env [] = some []
collect env (x ∷ xs) = cons_entry (entry_of (lookup x env)) (collect env xs)

-- The array `gatt_attributes`.
unfoldable pub gatt_attributes : Code → Option (List Entry)
gatt_attributes code = elim (exec [] code.decls) [
  | none ↦ none
  | some env ↦ collect env code.attribs
]

abbrev pub decl_name : Decl → String
decl_name (array_decl x bytes) = x
decl_name (reference_decl x y) = x
decl_name (variable_decl x v) = x
decl_name (closures_decl x r w n) = x
decl_name (attribute_decl x uuid y) = x

-- No statement binds a name again.
abbrev pub fresh : String → List Decl → Bool
fresh x [] = true
fresh x (d ∷ ds) = not (same x (decl_name d)) && fresh x ds

abbrev pub distinct : List Decl → Bool
distinct [] = true
distinct (d ∷ ds) = fresh (decl_name d) ds && distinct ds
