-- ===== src/Attribute.antt =====
-- bleps/src/attribute.rs: the trait `AttData` with its implementations, and `Attribute`.
pub mod Memory
use bleps.Common.{
  ℕ, ◌+◌, ◌-◌, min, Bool, true, false, Option, none, some, List, [], ◌∷◌, ◌++◌, Run, done, ◌>>=◌,
  Result, ok, err, ltb, if◌then◌else◌, length, take, drop,
}
use bleps.Data
use bleps.Data.{Data, copy_at, as_slice_mut, write_slice_mut, append_len}
use bleps.Att.{Uuid, AttErrorCode}

-- The application's closures. `S` is the state that they share. A reader gets an offset and the
-- buffer, and gives its result with the bytes that it puts at the start of the buffer.
abbrev pub Reader : Type 0 → Type 0
Reader S = S → ℕ → List ℕ → Result {0, 0} AttErrorCode ℕ × List ℕ × S

abbrev pub Writer : Type 0 → Type 0
Writer S = S → ℕ → List ℕ → Result {0, 0} AttErrorCode (Unit {0}) × S

abbrev pub Notifier : Type 0 → Type 0
Notifier S = S → Bool → Result {0, 0} AttErrorCode (Unit {0}) × S

-- One constructor for each implementation on memory: `&[u8; N]`, `&mut [u8; N]`, `&[u8]`,
-- `&mut [u8]`, `&(T,)` and `&mut (T,)` with the bytes that they stand for; and one for the triples
-- of closures, whose missing parts are `()`.
pub data AttData (S : Type 0) : Type 0 where
  array array_mut : List ℕ → AttData S
  slice slice_mut : List ℕ → AttData S
  value value_mut : List ℕ → AttData S
  closures : Option (Reader S) → Option (Writer S) → Option (Notifier S) → AttData S

-- What a closure left in a buffer: the buffer's length does not change.
unfoldable pub overlay : List ℕ → List ℕ → List ℕ
overlay bytes buffer = take (length buffer) (bytes ++ drop (length bytes) buffer)

-- `read` for arrays: nothing is copied where `len` is 0.
unfoldable pub array_read : List ℕ → ℕ → List ℕ → Run (Result AttErrorCode ℕ × List ℕ)
array_read self offset buffer = if ltb (length self) offset then done (ok 0, buffer) else (do
  let len : ℕ = min (length buffer) (length self - offset)
  buffer' ←
      if ltb 0 len
      then (do copy_at buffer 0 (← Data.slice self offset (offset + len)))
      else done buffer
  done (ok len, buffer'))

-- `read` for slices.
unfoldable pub slice_read : List ℕ → ℕ → List ℕ → Run (Result AttErrorCode ℕ × List ℕ)
slice_read self offset buffer = if ltb (length self) offset then done (ok 0, buffer) else (do
  let len : ℕ = min (length buffer) (length self - offset)
  buffer' ← copy_at buffer 0 (← Data.slice self offset (offset + len))
  done (ok len, buffer'))

-- `write` for arrays: the new content.
unfoldable pub array_write : List ℕ → ℕ → List ℕ → Run (Result AttErrorCode (Unit {0}) × List ℕ)
array_write self offset bytes = if ltb (length self) offset then done (ok tt, self) else (do
  let len : ℕ = min (length bytes) (length self - offset)
  self' ← if ltb 0 len then copy_at self offset (take len bytes) else done self
  done (ok tt, self'))

-- `write` for slices.
unfoldable pub slice_write : List ℕ → ℕ → List ℕ → Run (Result AttErrorCode (Unit {0}) × List ℕ)
slice_write self offset bytes = if ltb (length self) offset then done (ok tt, self) else (do
  let len : ℕ = min (length bytes) (length self - offset)
  self' ← copy_at self offset (take len bytes)
  done (ok tt, self'))

-- `read` and `write` for `(T,)`: those of the array of its bytes.
abbrev pub value_read : List ℕ → ℕ → List ℕ → Run (Result AttErrorCode ℕ × List ℕ)
value_read = array_read

abbrev pub value_write : List ℕ → ℕ → List ℕ → Run (Result AttErrorCode (Unit {0}) × List ℕ)
value_write = array_write

module _ {S : Type 0} where
  -- `self.0(offset, data).into_result()`, for a closure that leaves the buffer's length.
  abbrev pub run_reader : Reader S → S → ℕ → List ℕ → Run (Result AttErrorCode ℕ × List ℕ × S)
  run_reader r s offset buffer =
      let (result, bytes, s') = r s offset buffer in done (result, overlay bytes buffer, s')

  unfoldable pub readable : AttData S → Bool
  readable (array _) = true
  readable (array_mut _) = true
  readable (slice _) = true
  readable (slice_mut _) = true
  readable (value _) = true
  readable (value_mut _) = true
  readable (closures none w n) = false
  readable (closures (some r) w n) = true

  unfoldable pub writable : AttData S → Bool
  writable (array _) = false
  writable (array_mut _) = true
  writable (slice _) = false
  writable (slice_mut _) = true
  writable (value _) = false
  writable (value_mut _) = true
  writable (closures r none n) = false
  writable (closures r (some w) n) = true

  -- The result, the buffer after it, and the state of the application.
  unfoldable pub read : S → AttData S → ℕ → List ℕ → Run (Result AttErrorCode ℕ × List ℕ × S)
  read s (array xs) offset buffer = do (r, b) ← array_read xs offset buffer; done (r, b, s)
  read s (array_mut xs) offset buffer = do (r, b) ← array_read xs offset buffer; done (r, b, s)
  read s (slice xs) offset buffer = do (r, b) ← slice_read xs offset buffer; done (r, b, s)
  read s (slice_mut xs) offset buffer = do (r, b) ← slice_read xs offset buffer; done (r, b, s)
  read s (value xs) offset buffer = do (r, b) ← value_read xs offset buffer; done (r, b, s)
  read s (value_mut xs) offset buffer = do (r, b) ← value_read xs offset buffer; done (r, b, s)
  read s (closures none w n) offset buffer = done (ok 0, buffer, s)
  read s (closures (some r) w n) offset buffer = run_reader r s offset buffer

  -- The result, the data after it, and the state of the application.
  unfoldable pub write :
      S → AttData S → ℕ → List ℕ → Run (Result AttErrorCode (Unit {0}) × AttData S × S)
  write s (array xs) offset bytes = done (ok tt, array xs, s)
  write s (array_mut xs) offset bytes = do
    (r, ys) ← array_write xs offset bytes
    done (r, array_mut ys, s)
  write s (slice xs) offset bytes = done (ok tt, slice xs, s)
  write s (slice_mut xs) offset bytes = do
    (r, ys) ← slice_write xs offset bytes
    done (r, slice_mut ys, s)
  write s (value xs) offset bytes = done (ok tt, value xs, s)
  write s (value_mut xs) offset bytes = do
    (r, ys) ← value_write xs offset bytes
    done (r, value_mut ys, s)
  write s (closures r none n) offset bytes = done (ok tt, closures r none n, s)
  write s (closures r (some w) n) offset bytes =
      let (result, s') = w s offset bytes in done (result, closures r (some w) n, s')

  unfoldable pub enable_notification :
      S → AttData S → Bool → Result {0, 0} AttErrorCode (Unit {0}) × S
  enable_notification s (array _) enabled = (ok tt, s)
  enable_notification s (array_mut _) enabled = (ok tt, s)
  enable_notification s (slice _) enabled = (ok tt, s)
  enable_notification s (slice_mut _) enabled = (ok tt, s)
  enable_notification s (value _) enabled = (ok tt, s)
  enable_notification s (value_mut _) enabled = (ok tt, s)
  enable_notification s (closures r w none) enabled = (ok tt, s)
  enable_notification s (closures r w (some n)) enabled = n s enabled

  -- `att.data.read(offset, data.as_slice_mut())`.
  unfoldable pub read_into : S → AttData S → ℕ → Data → Run (Result AttErrorCode ℕ × Data × S)
  read_into s a offset d = do
    buffer ← as_slice_mut d
    (result, buffer', s') ← read s a offset buffer
    done (result, write_slice_mut d buffer', s')

-- The field `data` of the source is `content`.
pub record Attribute (S : Type 0) : Type 0 where
  pub uuid : Uuid
  pub handle : ℕ
  pub content : AttData S
  pub last_handle_in_group : ℕ

unfoldable pub new : {S : Type 0} → Uuid → AttData S → Attribute S
new uuid a = record { uuid = uuid; handle = 0; content = a; last_handle_in_group = 0 }

-- `Attribute::value`: the content from its start, or no bytes if it cannot be read.
unfoldable pub attribute_value : {S : Type 0} → S → Attribute S → Run (Result AttErrorCode Data × S)
attribute_value s att = do
  d ← Data.default
  if readable att.content
      then (do
        (result, d', s') ← read_into s att.content 0 d
        done (elim result [ ok len ↦ ok (append_len d' len) | err e ↦ err e ], s'))
      else done (ok d, s)
