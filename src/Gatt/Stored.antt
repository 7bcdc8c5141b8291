-- ===== src/Gatt/Stored.antt =====
-- The data of an attribute with the closures of a generated CCCD (bleps-macros/src/lib.rs, 405-445),
-- whose static array is a part of the application's state; and what bytes an attribute has.
use bleps.Common.{
  ℕ, ◌≡◌, refl, ap, ◌∙◌, true, none, some, List, [], ◌++◌, append-nil, arith, length, take,
  take-all, drop-all, Run, done, panic, hang, stuck, Result, ok,
}
use bleps.Att.{AttErrorCode}
use bleps.Attribute.{AttData, Reader, Writer, closures, readable, read, write, overlay}
use bleps.Attribute.Memory.{bytes_of, window_len, filled, overwritten, read_memory}
use bleps.Server.Reads.{length-filled, readable_memory}
use bleps.Gatt.Cccd.{cccd_read, cccd_write, cccd_read_lem, cccd_write_lem}

overlay_whole : (new old : List ℕ) → length new ≡ length old → overlay new old ≡ new
unfolding overlay
overlay_whole new old same =
    ap (λ l. take (length old) (new ++ l)) (drop-all (length new) old (omega (arith, same)))
    ∙ ap (take (length old)) (append-nil new)
    ∙ take-all (length old) new (omega (arith, same))

module _ {S : Type 0} where
  -- A closure of the application gives a result; these two never panic.
  abbrev pub as_read : S → Run (ℕ × List ℕ) → Result {0, 0} AttErrorCode ℕ × List ℕ × S
  as_read s (done (n, buffer)) = (ok n, buffer, s)
  as_read s panic = (ok 0, [], s)
  as_read s hang = (ok 0, [], s)
  as_read s stuck = (ok 0, [], s)

  abbrev pub as_write :
      (List ℕ → S → S) → S → Run (List ℕ) → Result {0, 0} AttErrorCode (Unit {0}) × S
  as_write put s (done backing) = (ok tt, put backing s)
  as_write put s panic = (ok tt, s)
  as_write put s hang = (ok tt, s)
  as_write put s stuck = (ok tt, s)

  -- `get` is the static array in the state, and `put` replaces it.
  abbrev pub cccd_reader : (S → List ℕ) → Reader S
  cccd_reader get s off buffer = as_read s (cccd_read (get s) off buffer)

  abbrev pub cccd_writer : (S → List ℕ) → (List ℕ → S → S) → Writer S
  cccd_writer get put s off bytes = as_write put s (cccd_write (get s) off bytes)

  abbrev pub cccd_data : (S → List ℕ) → (List ℕ → S → S) → AttData S
  cccd_data get put = closures (some (cccd_reader get)) (some (cccd_writer get put)) none

  read_cccd :
      (s : S) (get : S → List ℕ) (put : List ℕ → S → S) (off : ℕ) (buffer : List ℕ)
      → read s (cccd_data get put) off buffer
        ≡ done (ok (window_len (length buffer) (length (get s)) off), filled (get s) off buffer, s)
  unfolding read
  read_cccd s get put off buffer =
      ap (λ m. let (r, bytes, s') = as_read s m in done (r, overlay bytes buffer, s'))
        (cccd_read_lem (get s) off buffer)
      ∙ ap (λ l. done (ok (window_len (length buffer) (length (get s)) off), l, s))
          (overlay_whole (filled (get s) off buffer) buffer (length-filled (get s) off buffer))

  -- A write to a generated CCCD puts its bytes into the static array, as many as fit.
  pub write_cccd :
      (s : S) (get : S → List ℕ) (put : List ℕ → S → S) (off : ℕ) (bytes : List ℕ)
      → write s (cccd_data get put) off bytes
        ≡ done (ok tt, cccd_data get put, put (overwritten (get s) off bytes) s)
  unfolding write
  write_cccd s get put off bytes =
      ap (λ m. let (r, s') = as_write put s m in done (r, cccd_data get put, s'))
        (cccd_write_lem (get s) off bytes)

  -- The bytes that an attribute has: in memory, or in the static array of a generated CCCD.
  pub data StoredIn (s : S) : AttData S → List ℕ → Type 0 where
    memory : (a : AttData S) (xs : List ℕ) → bytes_of a ≡ some xs → StoredIn s a xs
    generated :
        (get : S → List ℕ) (put : List ℕ → S → S) (xs : List ℕ)
        → get s ≡ xs
        → StoredIn s (cccd_data get put) xs

  pub read_stored :
      (s : S) (a : AttData S) (xs : List ℕ) (off : ℕ) (buffer : List ℕ)
      → StoredIn s a xs
      → (readable a ≡ true)
        × (read s a off buffer
            ≡ done (ok (window_len (length buffer) (length xs) off), filled xs off buffer, s))
  unfolding readable
  read_stored s a xs off buffer (memory _ _ e) =
      (readable_memory a xs e, read_memory s a xs off buffer e)
  read_stored s a xs off buffer (generated get put _ e) = (
    refl,
    read_cccd s get put off buffer
        ∙ ap (λ l. done (ok (window_len (length buffer) (length l) off), filled l off buffer, s)) e,
  )
