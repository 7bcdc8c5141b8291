-- ===== src/Common/Bytes.antt =====
-- Bytes and little-endian words.
use Prim.Native.Nat.{ℕ, zero, suc, ◌+◌, ◌*◌, ◌/◌, ◌%◌, ◌<◌}
use mathlib.Core.Path.{◌≡◌, refl, ap, ◌∙◌}
use mathlib.Core.List.{List, [], ◌∷◌, ◌++◌, reverse, reverse-cons}
use bleps.Common.Lists.{length}
use native.Mathlib.Omega.{arith}

abbrev pub IsByte : ℕ → Type 0
IsByte b = b < 256

abbrev pub IsU16 : ℕ → Type 0
IsU16 w = w < 65536

-- `x as u8`, `x & 0xff`, and `(x >> 8) & 0xff`.
abbrev pub low_byte : ℕ → ℕ
low_byte x = x % 256

abbrev pub high_byte : ℕ → ℕ
high_byte x = x / 256 % 256

-- The two bytes of a `u16`, low byte first.
abbrev pub u16_le : ℕ → List ℕ
u16_le x = low_byte x ∷ high_byte x ∷ []

-- `(lo as u16) + ((hi as u16) << 8)`, and `u16::from_le_bytes([lo, hi])`.
abbrev pub u16_of : ℕ → ℕ → ℕ
u16_of lo hi = lo + hi * 256

pub u16_of-bytes : (x : ℕ) → IsU16 x → u16_of (low_byte x) (high_byte x) ≡ x
u16_of-bytes x h = omega arith

-- `to_le_bytes` of a number of `n` bytes, and `from_be_bytes`.
abbrev pub le_bytes : ℕ → ℕ → List ℕ
le_bytes zero x = []
le_bytes (suc n) x = (x % 256) ∷ le_bytes n (x / 256)

abbrev pub be_value : ℕ → List ℕ → ℕ
be_value acc [] = acc
be_value acc (b ∷ bs) = be_value (acc * 256 + b) bs

-- `to_be_bytes` of a number of `n` bytes.
abbrev pub be_bytes : ℕ → ℕ → List ℕ
be_bytes n x = reverse (le_bytes n x)

-- `from_le_bytes`, and `from_ne_bytes` on a little-endian target.
abbrev pub le_value : List ℕ → ℕ
le_value [] = 0
le_value (b ∷ bs) = b + 256 * le_value bs

-- What fits in `n` bytes is below this number.
abbrev pub byte_cap : ℕ → ℕ
byte_cap zero = 1
byte_cap (suc n) = 256 * byte_cap n

pub le_value-le_bytes : (n x : ℕ) → x < byte_cap n → le_value (le_bytes n x) ≡ x
le_value-le_bytes zero x h = omega arith
le_value-le_bytes (suc n) x h = omega (arith, le_value-le_bytes n (x / 256) (omega arith))

be_value-append :
    (acc : ℕ) (xs : List ℕ) (b : ℕ) → be_value acc (xs ++ (b ∷ [])) ≡ be_value acc xs * 256 + b
be_value-append acc [] b = refl
be_value-append acc (x ∷ xs) b = be_value-append (acc * 256 + x) xs b

be_value-reverse : (xs : List ℕ) → be_value 0 (reverse xs) ≡ le_value xs
be_value-reverse [] = refl
be_value-reverse (x ∷ xs) =
    ap (be_value 0) (reverse-cons x xs)
    ∙ be_value-append 0 (reverse xs) x
    ∙ omega (arith, be_value-reverse xs)

pub be_value-be_bytes : (n x : ℕ) → x < byte_cap n → be_value 0 (be_bytes n x) ≡ x
be_value-be_bytes n x h = be_value-reverse (le_bytes n x) ∙ le_value-le_bytes n x h

pub length-le_bytes : (n x : ℕ) → length (le_bytes n x) ≡ n
length-le_bytes zero x = refl
length-le_bytes (suc n) x = ap suc (length-le_bytes n (x / 256))
