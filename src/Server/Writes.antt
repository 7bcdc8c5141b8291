-- ===== src/Server/Writes.antt =====
-- What a write does: `handle_write` of bleps/src/attribute_server.rs (400-424), to an attribute in
-- memory, to a CCCD of any kind, and on its refusals.
use bleps.Common.{
  ℕ, zero, suc, ◌+◌, ◌%◌, ◌<◌, ◌≡◌, refl, ap, ◌∙◌, true, false, some, List, [], ◌∷◌, ◌++◌, arith,
  length, get_elem?, get_elem?-set_ne, set, take, drop, length-take, Run, done, panic, ◌>>=◌,
  Result, ok, err, ◌==◌,
}
use bleps.Data
use bleps.Data.{Data, as_slice, checked_sub}
use bleps.Data.Buffer.{Represents, as_slice-Represents, checked_sub_lem}
use bleps.Att.{AttErrorCode, uuid_eq, invalid_handle, write_not_permitted}
use bleps.Attribute.{AttData, Attribute, writable, write, enable_notification}
use bleps.Attribute.Memory.{bytes_of, holding, overwritten, write_memory}
use bleps.Server.{Server, find_first, has_handle, cccd_uuid, handle_write, notify_parent}
use bleps.Server.Handles.{Numbered, find_first-Numbered, find_first_absent}

set-split {ℓ} :
    {A : Type ℓ} (xs : List A) (i : ℕ) (a b : A)
    → get_elem? xs i ≡ some a
    → take i xs ++ (b ∷ drop (suc i) xs) ≡ set xs i b
set-split [] i a b e = cc
set-split (x ∷ xs) zero a b e = refl
set-split (x ∷ xs) (suc i) a b e = ap (λ l. x ∷ l) (set-split xs i a b e)

get_elem?-bound {ℓ} :
    {A : Type ℓ} (xs : List A) (i : ℕ) (a : A) → get_elem? xs i ≡ some a → i < length xs
get_elem?-bound [] i a e = cc
get_elem?-bound (x ∷ xs) zero a e = omega arith
get_elem?-bound (x ∷ xs) (suc i) a e = omega (arith, get_elem?-bound xs i a e)

module _ {S : Type 0} where
  -- The server after `bytes` were written over the start of the attribute at `i`.
  abbrev pub with_content : Server S → ℕ → Attribute S → List ℕ → Server S
  with_content server i att xs = record server {
    attributes = set server.attributes i (record att { content = holding att.content xs });
  }

  -- The server after the attribute at `i` was written.
  abbrev pub after_write : Server S → ℕ → Attribute S → AttData S → S → Server S
  after_write server i att content app = record server {
    attributes = set server.attributes i (record att { content = content });
    app = app;
  }

  -- What is left to do for a CCCD: its parent learns the lowest bit of the first byte.
  abbrev pub told :
      Server S → Attribute S → List ℕ → Run (Result {0, 0} AttErrorCode (Unit {0}) × Server S)
  told server parent [] = panic
  told server parent (b ∷ bytes) =
      let (result, app) = enable_notification server.app parent.content ((b % 2) == 1) in
      done (result, record server { app = app })

  first_told :
      (server : Server S) (parent : Attribute S) (bytes : List ℕ)
      → (Data.index bytes 0 >>= λ first.
          let (result, app) = enable_notification server.app parent.content ((first % 2) == 1) in
          done (result, record server { app = app }))
        ≡ told server parent bytes
  unfolding Data.index
  first_told server parent [] = refl
  first_told server parent (b ∷ bytes) = refl

module _ {S : Type 0} (server : Server S) (numbered : Numbered 1 server.attributes) where
  found :
      (i : ℕ) (att : Attribute S)
      → get_elem? server.attributes i ≡ some att
      → find_first (has_handle (suc i)) server.attributes
        ≡ some (take i server.attributes, att, drop (suc i) server.attributes)
  found i att e =
      let one : suc i ≡ 1 + i = omega arith in
      ap (λ k. find_first (has_handle k) server.attributes) one
      ∙ find_first-Numbered 1 i server.attributes att numbered e

  -- A write to a handle past the last one is refused as an invalid handle, and changes nothing.
  pub handle_write_unknown :
      (handle : ℕ) (payload : Data)
      → length server.attributes < handle
      → handle_write server handle payload ≡ done (err invalid_handle, server)
  unfolding handle_write
  handle_write_unknown handle payload h =
      rw (handle_write, find_first_absent 1 handle server.attributes numbered (omega arith)) refl

  -- A write to an attribute without a writer is refused, and changes nothing.
  pub handle_write_read_only :
      (i : ℕ) (payload : Data) (att : Attribute S)
      → get_elem? server.attributes i ≡ some att
      → writable att.content ≡ false
      → handle_write server (suc i) payload ≡ done (err write_not_permitted, server)
  unfolding handle_write
  handle_write_read_only i payload att e w = rw (handle_write, found i att e, w) refl

  written_lem :
      (i : ℕ) (att : Attribute S) (bytes : List ℕ) (content : AttData S) (app : S) {payload : Data}
      → get_elem? server.attributes i ≡ some att
      → writable att.content ≡ true
      → Represents payload bytes
      → write server.app att.content 0 bytes ≡ done (ok tt, content, app)
      → handle_write server (suc i) payload
        ≡ notify_parent (after_write server i att content app) i att.uuid payload
  unfolding handle_write
  written_lem i att bytes content app e w r writes =
      let b = get_elem?-bound server.attributes i att e in
      let before : length (take i server.attributes) ≡ i =
        omega (arith, length-take i server.attributes) in
      rw
        (
          handle_write,
          found i att e,
          w,
          as_slice-Represents r,
          writes,
          set-split server.attributes i att (record att { content = content }) e,
          before,
        )
        refl

  -- A write to a writable attribute in memory that is no CCCD succeeds, and replaces the start of
  -- that attribute's bytes, as many as fit: no other attribute and nothing else in the server
  -- changes, and the attribute's bytes keep their number.
  pub handle_write_memory :
      (i : ℕ) (att : Attribute S) (xs bytes : List ℕ) {payload : Data}
      → get_elem? server.attributes i ≡ some att
      → bytes_of att.content ≡ some xs
      → writable att.content ≡ true
      → uuid_eq att.uuid cccd_uuid ≡ false
      → Represents payload bytes
      → (handle_write server (suc i) payload
          ≡ done (ok tt, with_content server i att (overwritten xs 0 bytes)))
        × (length (overwritten xs 0 bytes) ≡ length xs)
  unfolding notify_parent
  handle_write_memory i att xs bytes e m w u r = (
    written_lem i att bytes _ server.app e w r
          (write_memory server.app att.content xs 0 bytes m w).0
        ∙ rw u refl,
    (write_memory server.app att.content xs 0 bytes m w).1,
  )

  -- A write to a CCCD, in memory or with closures, whose data takes the bytes: if there are any, the
  -- attribute before it is told whether the client wants notifications, by the lowest bit of the
  -- first byte, after the write, and its result is reported; if there are none, the server panics.
  pub handle_write_cccd :
      (i : ℕ) (att parent : Attribute S) (bytes : List ℕ) (content : AttData S) (app : S)
      {payload : Data}
      → get_elem? server.attributes (suc i) ≡ some att
      → get_elem? server.attributes i ≡ some parent
      → writable att.content ≡ true
      → uuid_eq att.uuid cccd_uuid ≡ true
      → Represents payload bytes
      → write server.app att.content 0 bytes ≡ done (ok tt, content, app)
      → handle_write server (suc (suc i)) payload
        ≡ told (after_write server (suc i) att content app) parent bytes
  unfolding notify_parent Data.index
  handle_write_cccd i att parent bytes content app {payload} e p w u r writes =
      let server' = after_write server (suc i) att content app in
      let kept : get_elem? server'.attributes i ≡ some parent =
        get_elem?-set_ne server.attributes (suc i) i (record att { content = content })
          (λ h. absurd (omega arith))
        ∙ p in
      let last : notify_parent server' (suc i) att.uuid payload ≡ told server' parent bytes =
        rw (u, checked_sub_lem (suc i) 1 i (omega arith), kept, as_slice-Represents r)
          (first_told server' parent bytes) in
      written_lem (suc i) att bytes content app e w r writes ∙ last
