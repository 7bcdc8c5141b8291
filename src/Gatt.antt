-- ===== src/Gatt.antt =====
-- bleps-macros/src/lib.rs: the procedural macro `gatt`. A call of the macro is what the crate `syn`
-- makes of it: of its expressions, those that the macro looks into.
pub mod Parse
pub mod Code
pub mod Generate
pub mod Running
pub mod Slots
pub mod Plan
pub mod Outcomes
pub mod Growth
pub mod Layout
pub mod Steps
pub mod Loops
pub mod Placed
pub mod Attributes
pub mod Served
pub mod Discovered
pub mod Sources
pub mod Cccd
pub mod Stored
pub mod Printing
use Prim.Native.String.{String, ◌++◌ as text_append}
use text.Mathlib.Text as Text
use bleps.Common.{ℕ, Bool, false, Option, none, List, [], ◌∷◌}

abbrev pub same : String → String → Bool
same v w = Text.◌==◌ v w

-- How the macro ends: with what it makes, with the message of a `compile_error!`, or in a panic.
pub data Expansion {ℓ} (A : Type ℓ) : Type ℓ where
  expands : A → Expansion A
  compile_error : String → Expansion A
  panics : Expansion A

infixl 5 ◌>>=◌
abbrev pub ◌>>=◌ {ℓ κ} : {A : Type ℓ} {B : Type κ} → Expansion A → (A → Expansion B) → Expansion B
expands a >>= f = f a
compile_error message >>= f = compile_error message
panics >>= f = panics

-- `unwrap`.
abbrev pub unwrap {ℓ} : {A : Type ℓ} → Option A → Expansion A
unwrap none = panics
unwrap (Option.some a) = expands a

pub data Lit : Type 0 where
  str : String → Lit
  bool : Bool → Lit
  other_lit : Lit

pub data Member : Type 0 where
  named : String → Member
  unnamed : ℕ → Member

-- The identifiers of a path's segments.
abbrev pub Segments : Type 0
Segments = List String

mutual
  pub data Expr : Type 0 where
    struct_expr : Segments → Fields → Expr
    lit_expr : Lit → Expr
    path_expr : Segments → Expr
    array_expr : Exprs → Expr
    other_expr : Expr

  pub data Exprs : Type 0 where
    no_exprs : Exprs
    next_expr : Expr → Exprs → Exprs

  pub data Fields : Type 0 where
    no_fields : Fields
    next_field : Member → Expr → Fields → Fields

unfoldable pub path_to_string : Segments → String
path_to_string [] = ""
path_to_string (segment ∷ segments) = text_append segment (path_to_string segments)

pub record Descriptor : Type 0 where
  pub uuid : String
  pub read : Option String
  pub write : Option String
  pub value : Option String

-- The field `data` of the source is `content`.
pub record Characteristic : Type 0 where
  pub uuid : String
  pub content : Option String
  pub value : Option String
  pub read : Option String
  pub write : Option String
  pub description : Option String
  pub notify : Bool
  pub notify_cb : Option String
  pub name : Option String
  pub descriptors : List Descriptor

pub record Service : Type 0 where
  pub uuid : String
  pub characteristics : List Characteristic

-- The derived `default`.
abbrev pub default_descriptor : Descriptor
default_descriptor = record { uuid = ""; read = none; write = none; value = none }

abbrev pub default_characteristic : Characteristic
default_characteristic = record {
  uuid = "";
  content = none;
  value = none;
  read = none;
  write = none;
  description = none;
  notify = false;
  notify_cb = none;
  name = none;
  descriptors = [];
}

abbrev pub default_service : Service
default_service = record { uuid = ""; characteristics = [] }
