-- ===== src/Data.antt =====
-- `Data` of bleps/src/lib.rs (88-179), the packet buffer of 256 bytes, and the slice operations
-- of Rust that the code uses on it.
pub mod Buffer
pub mod Ends
use bleps.Common.{
  ℕ, ◌+◌, ◌-◌, ◌&&◌, List, [], ◌∷◌, ◌++◌, leb, ltb, if◌then◌else◌, length, get_elem?, set, take,
  drop, replicate, Run, done, ◌>>=◌, ◌>>◌, require, unwrap, u16_le,
}

-- `xs[i]`, `&xs[..n]`, `&xs[n..]` and `&xs[from..to]`.
unfoldable pub index : List ℕ → ℕ → Run ℕ
index xs i = unwrap (get_elem? xs i)

unfoldable pub slice_to : List ℕ → ℕ → Run (List ℕ)
slice_to xs n = do require (leb n (length xs)); done (take n xs)

unfoldable pub slice_from : List ℕ → ℕ → Run (List ℕ)
slice_from xs n = do require (leb n (length xs)); done (drop n xs)

unfoldable pub slice : List ℕ → ℕ → ℕ → Run (List ℕ)
slice xs from to = do
  require (leb from to && leb to (length xs))
  done (take (to - from) (drop from xs))

-- `xs[at..at + bytes.len()].copy_from_slice(bytes)`.
unfoldable pub copy_at : List ℕ → ℕ → List ℕ → Run (List ℕ)
copy_at xs at bytes = do
  require (leb (at + length bytes) (length xs))
  done (take at xs ++ (bytes ++ drop (at + length bytes) xs))

-- `a - b` on unsigned numbers.
unfoldable pub checked_sub : ℕ → ℕ → Run ℕ
checked_sub a b = do require (leb b a); done (a - b)

-- The field `data` of the source is `buf`.
pub record Data : Type 0 where
  pub buf : List ℕ
  pub len : ℕ

abbrev pub capacity : ℕ
capacity = 256

-- `[0u8; 256]`.
unfoldable pub zeros : List ℕ
zeros = replicate capacity 0

unfoldable pub new : List ℕ → Run Data
new bytes = do buf ← copy_at zeros 0 bytes; done (record { buf = buf; len = length bytes })

-- `Default::default`.
unfoldable pub default : Run Data
default = new []

unfoldable pub as_slice : Data → Run (List ℕ)
as_slice d = slice_to d.buf d.len

-- What a `&mut` borrow of `as_slice_mut` reads; `write_slice_mut` stores what its user left there.
unfoldable pub as_slice_mut : Data → Run (List ℕ)
as_slice_mut d = slice_from d.buf d.len

unfoldable pub write_slice_mut : Data → List ℕ → Data
write_slice_mut d tail = record d { buf = take d.len d.buf ++ tail }

unfoldable pub set_len : Data → ℕ → Data
set_len d new_len = record d { len = if ltb (length d.buf) new_len then length d.buf else new_len }

unfoldable pub append_len : Data → ℕ → Data
append_len d extra_len = set_len d (d.len + extra_len)

unfoldable pub limit_len : Data → ℕ → Data
limit_len d max_len = record d { len = if ltb max_len d.len then max_len else d.len }

unfoldable pub subdata_from : Data → ℕ → Run Data
subdata_from d from = do
  new_len ← checked_sub d.len from
  bytes ← slice d.buf from (from + new_len)
  buf ← copy_at zeros 0 bytes
  done (record { buf = buf; len = new_len })

unfoldable pub append : Data → List ℕ → Run Data
append d bytes = do
  buf ← copy_at d.buf d.len bytes
  done (record { buf = buf; len = d.len + length bytes })

-- `append_value` at `T = u8` and `T = u16`, on a little-endian target.
unfoldable pub append_u8 : Data → ℕ → Run Data
append_u8 d value = append d (value ∷ [])

unfoldable pub append_u16 : Data → ℕ → Run Data
append_u16 d value = append d (u16_le value)

unfoldable pub set_byte : Data → ℕ → ℕ → Run Data
set_byte d index byte = do
  require (ltb index (length d.buf))
  done (record d { buf = set d.buf index byte })
