-- ===== src/Attribute/Memory.antt =====
-- Attributes that stand for bytes in memory: the six implementations of `AttData` on arrays, slices
-- and values are one window on a byte string.
use bleps.Common.{
  ℕ, ◌+◌, ◌-◌, ◌≤◌, ◌<◌, ◌≡◌, refl, sym, ap, ap₂, ◌∙◌, min, true, Option, none, some, List, ◌++◌,
  arith, Run, done, ◌>>=◌, Result, ok, ltb, if◌then◌else◌, length, take, drop, length-take,
  length-drop, length-append, Bool-cases, inl, inr, le→leb, ltb→lt, append-nil, take-append,
  drop-append, take-append-drop, take-all, drop-all,
}
use bleps.Data
use bleps.Data.{copy_at, Data, as_slice_mut, write_slice_mut, append_len, capacity}
use bleps.Att.{AttErrorCode}
use bleps.Attribute.{
  AttData, array, array_mut, slice, slice_mut, value, value_mut, closures, array_read, slice_read,
  array_write, slice_write, read, write, writable,
}

-- The number of bytes that a window at `offset` takes from `xs`, given `room` for them.
abbrev pub window_len : ℕ → ℕ → ℕ → ℕ
window_len room have offset = min room (have - offset)

-- A buffer after a read at `offset`.
abbrev pub filled : List ℕ → ℕ → List ℕ → List ℕ
filled xs offset buffer =
    let n = window_len (length buffer) (length xs) offset in
    take n (drop offset xs) ++ drop n buffer

-- The content after a write at `offset`: it keeps its length.
abbrev pub overwritten : List ℕ → ℕ → List ℕ → List ℕ
overwritten xs offset bytes =
    let n = window_len (length bytes) (length xs) offset in
    take offset xs ++ (take n bytes ++ drop (offset + n) xs)

slice_window :
    (xs : List ℕ) (offset n : ℕ)
    → offset + n ≤ length xs
    → Data.slice xs offset (offset + n) ≡ done (take n (drop offset xs))
unfolding Data.slice
slice_window xs offset n h =
    rw (le→leb offset (offset + n) (omega arith), le→leb (offset + n) (length xs) h)
      (ap (λ k. done (take k (drop offset xs))) (omega arith))

copy_front :
    (bytes buffer : List ℕ) (n : ℕ)
    → length bytes ≡ n
    → n ≤ length buffer
    → copy_at buffer 0 bytes ≡ done (bytes ++ drop n buffer)
unfolding copy_at
copy_front bytes buffer n e h =
    rw (e, le→leb (0 + n) (length buffer) (omega arith))
      (ap (λ k. done (bytes ++ drop k buffer)) (omega arith))

-- A window of no bytes.
no_window : (room have offset : ℕ) → have < offset → 0 ≡ window_len room have offset
no_window room have offset h = omega arith

pub copied :
    (xs buffer : List ℕ) (offset : ℕ)
    → offset ≤ length xs
    → let n = window_len (length buffer) (length xs) offset in
      (Data.slice xs offset (offset + n) >>= copy_at buffer 0) ≡ done (filled xs offset buffer)
copied xs buffer offset h =
    let n = window_len (length buffer) (length xs) offset in
    rw (
      slice_window xs offset n (omega arith),
      copy_front (take n (drop offset xs)) buffer n
          (omega (arith, length-take n (drop offset xs), length-drop offset xs)) (omega arith),
    )

-- Reading an array leaves the copy out where there is nothing to copy.
copied_if_any :
    (xs buffer : List ℕ) (offset : ℕ)
    → offset ≤ length xs
    → let n = window_len (length buffer) (length xs) offset in
      (if ltb 0 n then (Data.slice xs offset (offset + n) >>= copy_at buffer 0) else done buffer)
      ≡ done (filled xs offset buffer)
copied_if_any xs buffer offset h =
    let n = window_len (length buffer) (length xs) offset in
    elim (Bool-cases (ltb 0 n)) [
      | inl some_bytes ↦ rw some_bytes (copied xs buffer offset h)
      | inr none_left ↦
          let e : ◌≡◌ {A = ℕ} 0 n = ground arith in
          rw none_left (ap (λ k. done (take k (drop offset xs) ++ drop k buffer)) e)
    ]

module _ (xs : List ℕ) (offset : ℕ) (buffer : List ℕ) where
  abbrev pub read_result : Run (Result {0, 0} AttErrorCode ℕ × List ℕ)
  read_result = done (ok (window_len (length buffer) (length xs) offset), filled xs offset buffer)

  read_past_end : length xs < offset → done (ok 0, buffer) ≡ read_result
  read_past_end h =
      ap (λ k. done (ok k, take k (drop offset xs) ++ drop k buffer))
        (no_window (length buffer) (length xs) offset h)

  slice_read_lem : slice_read xs offset buffer ≡ read_result
  unfolding slice_read
  slice_read_lem = elim (Bool-cases (ltb (length xs) offset)) [
    | inl past ↦ rw past (read_past_end (ltb→lt _ _ past))
    | inr within ↦
        let n = window_len (length buffer) (length xs) offset in
        rw (
          within,
          slice_window xs offset n (ground arith),
          copy_front (take n (drop offset xs)) buffer n
              (ground (arith, length-take n (drop offset xs), length-drop offset xs)) (omega arith),
        )
  ]

  pub array_read_lem : array_read xs offset buffer ≡ read_result
  unfolding array_read
  array_read_lem = elim (Bool-cases (ltb (length xs) offset)) [
    | inl past ↦ rw past (read_past_end (ltb→lt _ _ past))
    | inr within ↦ rw (within, copied_if_any xs buffer offset (ground arith))
  ]

pub copy_window :
    (xs : List ℕ) (offset : ℕ) (bytes : List ℕ)
    → offset ≤ length xs
    → copy_at xs offset (take (window_len (length bytes) (length xs) offset) bytes)
      ≡ done (overwritten xs offset bytes)
unfolding copy_at
copy_window xs offset bytes h =
    let n = window_len (length bytes) (length xs) offset in
    let e : length (take n bytes) ≡ n = omega (arith, length-take n bytes) in
    rw (e, le→leb (offset + n) (length xs) (omega arith))

module _ (xs : List ℕ) (offset : ℕ) (bytes : List ℕ) where
  abbrev pub write_result : Run (Result {0, 0} AttErrorCode (Unit {0}) × List ℕ)
  write_result = done (ok tt, overwritten xs offset bytes)

  -- A write of no bytes changes nothing.
  pub unchanged :
      0 ≡ window_len (length bytes) (length xs) offset → xs ≡ overwritten xs offset bytes
  unchanged e =
      sym (take-append-drop offset xs)
      ∙ ap (λ k. take offset xs ++ drop k xs) (plus_zero offset)
      ∙ ap (λ k. take offset xs ++ (take k bytes ++ drop (offset + k) xs)) e
    where
      plus_zero : (k : ℕ) → k ≡ k + 0
      plus_zero k = omega arith

  write_past_end : length xs < offset → done (ok tt, xs) ≡ write_result
  write_past_end h =
      ap (λ l. done (ok tt, l)) (unchanged (no_window (length bytes) (length xs) offset h))

  slice_write_lem : slice_write xs offset bytes ≡ write_result
  unfolding slice_write
  slice_write_lem = elim (Bool-cases (ltb (length xs) offset)) [
    | inl past ↦ rw past (write_past_end (ltb→lt _ _ past))
    | inr within ↦ rw (within, copy_window xs offset bytes (ground arith))
  ]

  pub array_write_lem : array_write xs offset bytes ≡ write_result
  unfolding array_write
  array_write_lem = elim (Bool-cases (ltb (length xs) offset)) [
    | inl past ↦ rw past (write_past_end (ltb→lt _ _ past))
    | inr within ↦
        let n = window_len (length bytes) (length xs) offset in
        elim (Bool-cases (ltb 0 n)) [
          | inl some_bytes ↦ rw (within, some_bytes, copy_window xs offset bytes (ground arith))
          | inr none_left ↦
              let e : ◌≡◌ {A = ℕ} 0 n = ground arith in
              rw (within, none_left) (ap (λ l. done (ok tt, l)) (unchanged e))
        ]
  ]

length-overwritten :
    (xs : List ℕ) (offset : ℕ) (bytes : List ℕ) → length (overwritten xs offset bytes) ≡ length xs
length-overwritten xs offset bytes = omega (
  arith,
  length-append (take offset xs) (take n bytes ++ drop (offset + n) xs),
  length-append (take n bytes) (drop (offset + n) xs),
  length-take offset xs,
  length-take n bytes,
  length-drop (offset + n) xs,
)
  where
    n : ℕ
    n = window_len (length bytes) (length xs) offset

-- A write that fits is read back.
module _ (xs : List ℕ) (offset : ℕ) (bytes buffer : List ℕ)
    (fits : offset + length bytes ≤ length xs) (same : length buffer ≡ length bytes) where
  overwritten_exactly :
      overwritten xs offset bytes ≡ take offset xs ++ (bytes ++ drop (offset + length bytes) xs)
  overwritten_exactly =
      ap (λ k. take offset xs ++ (take k bytes ++ drop (offset + k) xs)) whole
      ∙ ap (λ l. take offset xs ++ (l ++ drop (offset + length bytes) xs))
          (take-all (length bytes) bytes (omega arith))
    where
      whole : window_len (length bytes) (length xs) offset ≡ length bytes
      whole = omega arith

  window_back :
      window_len (length buffer) (length (overwritten xs offset bytes)) offset ≡ length bytes
  window_back = omega (arith, length-overwritten xs offset bytes)

  read_back : filled (overwritten xs offset bytes) offset buffer ≡ bytes
  read_back =
      ap (λ k. take k (drop offset (overwritten xs offset bytes)) ++ drop k buffer) window_back
      ∙ ap₂ ◌++◌
          (ap (λ l. take (length bytes) (drop offset l)) overwritten_exactly
            ∙ ap (take (length bytes)) (
                drop-append offset (take offset xs) (bytes ++ drop (offset + length bytes) xs)
                  (omega (arith, length-take offset xs)))
            ∙ take-append (length bytes) bytes (drop (offset + length bytes) xs) refl)
          (drop-all (length bytes) buffer (omega arith))
      ∙ append-nil bytes

module _ {S : Type 0} where
  -- The bytes in memory that an attribute stands for, and those that a client may write.
  abbrev pub bytes_of : AttData S → Option (List ℕ)
  bytes_of (array xs) = some xs
  bytes_of (array_mut xs) = some xs
  bytes_of (slice xs) = some xs
  bytes_of (slice_mut xs) = some xs
  bytes_of (value xs) = some xs
  bytes_of (value_mut xs) = some xs
  bytes_of (closures r w n) = none

  abbrev pub holding : AttData S → List ℕ → AttData S
  holding (array xs) ys = array ys
  holding (array_mut xs) ys = array_mut ys
  holding (slice xs) ys = slice ys
  holding (slice_mut xs) ys = slice_mut ys
  holding (value xs) ys = value ys
  holding (value_mut xs) ys = value_mut ys
  holding (closures r w n) ys = closures r w n

  bytes_of-holding :
      (a : AttData S) (xs ys : List ℕ) → bytes_of a ≡ some xs → bytes_of (holding a ys) ≡ some ys
  bytes_of-holding (array _) xs ys e = refl
  bytes_of-holding (array_mut _) xs ys e = refl
  bytes_of-holding (slice _) xs ys e = refl
  bytes_of-holding (slice_mut _) xs ys e = refl
  bytes_of-holding (value _) xs ys e = refl
  bytes_of-holding (value_mut _) xs ys e = refl
  bytes_of-holding (closures r w n) xs ys e = cc

  -- Every attribute in memory is read as a window on its bytes: as many as there are behind the
  -- offset, or as the buffer has room for, and none for an offset past the end; the rest of the
  -- buffer and the state of the application stay as they are.
  pub read_memory :
      (s : S) (a : AttData S) (xs : List ℕ) (offset : ℕ) (buffer : List ℕ)
      → bytes_of a ≡ some xs
      → read s a offset buffer
        ≡ done (ok (window_len (length buffer) (length xs) offset), filled xs offset buffer, s)
  unfolding read
  read_memory s (array ys) xs offset buffer e =
      let p : ys ≡ xs = cc in rw (array_read_lem ys offset buffer, p)
  read_memory s (array_mut ys) xs offset buffer e =
      let p : ys ≡ xs = cc in rw (array_read_lem ys offset buffer, p)
  read_memory s (slice ys) xs offset buffer e =
      let p : ys ≡ xs = cc in rw (slice_read_lem ys offset buffer, p)
  read_memory s (slice_mut ys) xs offset buffer e =
      let p : ys ≡ xs = cc in rw (slice_read_lem ys offset buffer, p)
  read_memory s (value ys) xs offset buffer e =
      let p : ys ≡ xs = cc in rw (array_read_lem ys offset buffer, p)
  read_memory s (value_mut ys) xs offset buffer e =
      let p : ys ≡ xs = cc in rw (array_read_lem ys offset buffer, p)
  read_memory s (closures r w n) xs offset buffer e = cc

  -- A write to a writable attribute in memory replaces the bytes behind the offset, as many as fit;
  -- it never changes the length of the content, and reports success also where bytes are dropped.
  pub write_memory :
      (s : S) (a : AttData S) (xs : List ℕ) (offset : ℕ) (bytes : List ℕ)
      → bytes_of a ≡ some xs
      → writable a ≡ true
      → (write s a offset bytes ≡ done (ok tt, holding a (overwritten xs offset bytes), s))
        × (length (overwritten xs offset bytes) ≡ length xs)
  unfolding write writable
  write_memory s (array ys) xs offset bytes e w = cc
  write_memory s (array_mut ys) xs offset bytes e w =
      let p : ys ≡ xs = cc in
      (rw (array_write_lem ys offset bytes, p), length-overwritten xs offset bytes)
  write_memory s (slice ys) xs offset bytes e w = cc
  write_memory s (slice_mut ys) xs offset bytes e w =
      let p : ys ≡ xs = cc in
      (rw (slice_write_lem ys offset bytes, p), length-overwritten xs offset bytes)
  write_memory s (value ys) xs offset bytes e w = cc
  write_memory s (value_mut ys) xs offset bytes e w =
      let p : ys ≡ xs = cc in
      (rw (array_write_lem ys offset bytes, p), length-overwritten xs offset bytes)
  write_memory s (closures r w n) xs offset bytes e w' = cc

  -- What was written within the content is read back at the same offset, by a buffer of its size.
  pub read-write :
      (s : S) (a : AttData S) (xs : List ℕ) (offset : ℕ) (bytes buffer : List ℕ)
      → bytes_of a ≡ some xs
      → writable a ≡ true
      → offset + length bytes ≤ length xs
      → length buffer ≡ length bytes
      → (a' : AttData S) × (write s a offset bytes ≡ done (ok tt, a', s))
        × (read s a' offset buffer ≡ done (ok (length bytes), bytes, s))
  read-write s a xs offset bytes buffer e w fits same = (
    holding a (overwritten xs offset bytes),
    (write_memory s a xs offset bytes e w).0,
    read_memory s (holding a (overwritten xs offset bytes)) (overwritten xs offset bytes) offset
          buffer (bytes_of-holding a xs (overwritten xs offset bytes) e)
        ∙ ap₂ (λ n l. done (ok n, l, s)) (window_back xs offset bytes buffer fits same)
            (read_back xs offset bytes buffer fits same),
  )
