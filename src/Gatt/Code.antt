-- ===== src/Gatt/Code.antt =====
-- The code that `gatt` of bleps-macros/src/lib.rs writes: its statements, the names in them
-- (`format_ident!`), and `uuid_to_bytes`.
use Prim.Native.String.{String, slice, len, ◌++◌ as text_append}
use Prim.Native.Char.{code}
use bleps.Common.{
  ℕ, zero, suc, ◌+◌, ◌-◌, ◌*◌, ◌/◌, ◌%◌, Bool, ◌&&◌, Option, none, some, List, [], ◌∷◌, ◌++◌,
  reverse, ltb, leb, ◌==◌, if◌then◌else◌, u16_le, u16_of,
}
use bleps.Att.{Uuid, uuid16, uuid128}
use bleps.Gatt.{Expansion, expands, panics, ◌>>=◌, unwrap}

-- What the macro calls of other crates: `Uuid::parse_str` of `uuid` with the bytes of its result, and
-- which texts `proc_macro2` takes for an identifier. A `format_ident!` of another text panics.
pub record Crates : Type 0 where
  pub parse_str : String → Option (List ℕ)
  pub is_ident : String → Bool

-- A number in decimal. A `usize` has at most 20 digits.
abbrev pub digit : ℕ → String
digit d = slice "0123456789" d (d + 1)

unfoldable pub digits : ℕ → ℕ → String
digits zero n = ""
digits (suc fuel) n =
    let front = digits fuel (n / 10) in
    if ltb n 10 then digit n else text_append front (digit (n % 10))

unfoldable pub decimal : ℕ → String
decimal n = digits 20 n

-- `format_ident!("prefix{}{}…", …)`.
unfoldable pub ident : String → List ℕ → String
ident prefix [] = prefix
ident prefix (n ∷ ns) = ident (text_append prefix (decimal n)) ns

-- A `format_ident!` with a name that the call gives.
unfoldable pub checked : Crates → String → Expansion String
checked crates text = if crates.is_ident text then expands text else panics

-- `str::bytes`.
abbrev pub utf8 : ℕ → List ℕ
utf8 c =
    if ltb c 0x80
    then c ∷ []
    else if ltb c 0x800
    then (0xc0 + c / 64) ∷ (0x80 + c % 64) ∷ []
    else if ltb c 0x10000
    then (0xe0 + c / 4096) ∷ (0x80 + c / 64 % 64) ∷ (0x80 + c % 64) ∷ []
    else (0xf0 + c / 262144) ∷ (0x80 + c / 4096 % 64) ∷ (0x80 + c / 64 % 64) ∷ (0x80 + c % 64) ∷ []

unfoldable pub text_bytes : String → List ℕ
text_bytes String.[] = []
text_bytes (String.◌∷◌ c s) = utf8 (code c) ++ text_bytes s

abbrev pub hex_digit : ℕ → Option ℕ
hex_digit b =
    if leb 48 b && leb b 57
    then some (b - 48)
    else if leb 97 b && leb b 102
    then some (b - 87)
    else if leb 65 b && leb b 70
    then some (b - 55)
    else none

unfoldable pub hex_value : ℕ → List ℕ → Option ℕ
hex_value acc [] = some acc
hex_value acc (b ∷ bs) = elim (hex_digit b) [ none ↦ none | some d ↦ hex_value (acc * 16 + d) bs ]

-- `u16::from_str_radix` to the base 16, for a text of at most four bytes: a sign `+` may come first.
unfoldable pub from_str_radix : List ℕ → Option ℕ
from_str_radix [] = none
from_str_radix (b ∷ []) = hex_value 0 (b ∷ [])
from_str_radix (b ∷ c ∷ bs) = if b == 43 then hex_value 0 (c ∷ bs) else hex_value 0 (b ∷ c ∷ bs)

unfoldable pub uuid_to_bytes : Crates → String → Expansion (List ℕ)
uuid_to_bytes crates uuid =
    if len uuid == 4
    then (do value ← unwrap (from_str_radix (text_bytes uuid)); expands (u16_le value))
    else (do bytes ← unwrap (crates.parse_str uuid); expands (reverse bytes))

-- The expression for a UUID: `Uuid::Uuid16(u16::from_le_bytes(…))` or `Uuid::Uuid128(…)`.
unfoldable pub uuid_of : List ℕ → Uuid
uuid_of [] = uuid128 []
uuid_of (lo ∷ []) = uuid128 (lo ∷ [])
uuid_of (lo ∷ hi ∷ []) = uuid16 (u16_of lo hi)
uuid_of (a ∷ b ∷ c ∷ bytes) = uuid128 (a ∷ b ∷ c ∷ bytes)

-- The statements before `let mut gatt_attributes`: `let x = [bytes];`, `let mut x = &y;`,
-- `let mut x = v;` for a value of the application, `let mut x = (r, w, n);` for closures, each
-- missing one a `()`, and `let a = Attribute::new(uuid, &mut x);`.
pub data Decl : Type 0 where
  array_decl : String → List ℕ → Decl
  reference_decl : String → String → Decl
  variable_decl : String → String → Decl
  closures_decl : String → Option String → Option String → Option String → Decl
  attribute_decl : String → Uuid → String → Decl

-- The storage of a CCCD with its two closures, by name.
pub record Storage : Type 0 where
  pub data_name : String
  pub read_name : String
  pub write_name : String

-- The four vectors of the macro, and the handle of the next attribute.
pub record Code : Type 0 where
  pub pre : List Storage
  pub decls : List Decl
  pub attribs : List String
  pub post : List (String × ℕ)
  pub current_handle : ℕ

abbrev pub empty_code : Code
empty_code = record { pre = []; decls = []; attribs = []; post = []; current_handle = 1 }
