-- ===== src/Notifier/Filter.antt =====
-- Which notifications `run` of bleps/src/async_attribute_server.rs (132-166) lets through.
use bleps.Common.{
  ℕ, zero, suc, ◌+◌, ◌≤◌, ◌<◌, ◌%◌, ◌^◌, ◌≡◌, refl, ap, ◌∙◌, Bool, true, false, ◌&&◌, Option, none,
  some, List, [], ◌∷◌, arith, length, take, drop, get_elem?, done, ◌==◌, if◌then◌else◌,
  Option-cases, Bool-cases, inl, inr,
}
use bleps.Data.Buffer.{checked_sub_lem}
use bleps.Att.{uuid_eq, uuid16}
use bleps.Attribute.{Attribute}
use bleps.Attribute.Memory.{window_len, filled}
use bleps.Gatt.Stored.{StoredIn, read_stored}
use bleps.Server.{Server, NotificationData, get_characteristic_value, find_first, has_handle}
use bleps.Server.Handles.{Numbered, find_first-Numbered, find_first_absent}
use bleps.Notifier.{filtered, enabled, is_one}

-- A CCCD that enables notifications: its first byte is 1.
abbrev pub first_is_one : List ℕ → Bool
first_is_one [] = false
first_is_one (b ∷ bs) = b == 1

length_before :
    {A : Type 0} (xs : List A) (i : ℕ) (x : A) → get_elem? xs i ≡ some x → length (take i xs) ≡ i
length_before [] i x e = cc
length_before (y ∷ ys) zero x e = refl
length_before (y ∷ ys) (suc i) x e = ap suc (length_before ys i x e)

-- What a buffer of one byte has after a read.
is_one-filled :
    (xs : List ℕ)
    → is_one (some (window_len 1 (length xs) 0)) (filled xs 0 (0 ∷ [])) ≡ first_is_one xs
unfolding is_one
is_one-filled [] = refl
is_one-filled (x ∷ xs) = let one : window_len 1 (suc (length xs)) 0 ≡ 1 = omega arith in rw one refl

-- No element at an index, or before it.
none_at : {A : Type 0} (xs : List A) (i : ℕ) → get_elem? xs i ≡ none → length xs ≤ i
none_at [] i e = omega arith
none_at (x ∷ xs) zero e = cc
none_at (x ∷ xs) (suc i) e = omega (arith, none_at xs i e)

none_behind :
    {A : Type 0} (xs : List A) (i : ℕ) → get_elem? xs i ≡ none → get_elem? xs (suc i) ≡ none
none_behind [] i e = refl
none_behind (x ∷ []) zero e = refl
none_behind (x ∷ y ∷ xs) zero e = cc
none_behind (x ∷ xs) (suc i) e = none_behind xs i e

bound_at : {A : Type 0} (xs : List A) (i : ℕ) (a : A) → get_elem? xs i ≡ some a → i < length xs
bound_at [] i a e = cc
bound_at (x ∷ xs) zero a e = omega arith
bound_at (x ∷ xs) (suc i) a e = omega (arith, bound_at xs i a e)

module _ {S : Type 0} where
  abbrev pub is_cccd : Attribute S → Bool
  is_cccd att = uuid_eq att.uuid (uuid16 0x2902)

  abbrev pub subscribed : Option (Attribute S) → List ℕ → Bool
  subscribed none xs = false
  subscribed (some next) xs = is_cccd next && first_is_one xs

  -- Whether the client has enabled notifications of the attribute with the handle: behind it, at the
  -- index that is its handle, stands a CCCD whose first byte is 1.
  abbrev pub wanted : List (Attribute S) → (ℕ → List ℕ) → ℕ → Bool
  wanted atts contents zero = false
  wanted atts contents (suc i) = subscribed (get_elem? atts (suc i)) (contents (suc i))

  none_below :
      (n handle : ℕ) (atts : List (Attribute S))
      → Numbered n atts
      → handle < n
      → find_first (has_handle handle) atts ≡ none
  unfolding find_first
  none_below n handle [] num h = refl
  none_below n handle (a ∷ atts) (here, num) h =
      let other : (a.handle == handle) ≡ false = ground arith in
      rw (other, none_below (suc n) handle atts num (omega arith))

  value_lem :
      (server : Server S) (i : ℕ) (att : Attribute S) (xs : List ℕ)
      → get_elem? server.attributes i ≡ some att
      → StoredIn server.app att.content xs
      → get_characteristic_value server (suc i) 0 (0 ∷ [])
        ≡ done (some (window_len 1 (length xs) 0), filled xs 0 (0 ∷ []), server)
  unfolding get_characteristic_value
  value_lem server i att xs at_i stored =
      let (can, reads) = read_stored server.app att.content xs 0 (0 ∷ []) stored in
      rw (get_characteristic_value, checked_sub_lem (suc i) 1 i (omega arith), at_i, can, reads)
        refl

  module _ (server : Server S) (contents : ℕ → List ℕ) (numbered : Numbered 1 server.attributes)
      (few : length server.attributes < 2 ^ 16)
      (stored : (i : ℕ) (att : Attribute S)
        → get_elem? server.attributes i ≡ some att
        → is_cccd att ≡ true
        → StoredIn server.app att.content (contents i)) where
    behind_lem :
        (i : ℕ) (att : Attribute S)
        → get_elem? server.attributes i ≡ some att
        → enabled server (suc i) ≡ done (wanted server.attributes contents (suc i), server)
    unfolding enabled
    behind_lem i att at_i =
        let found : find_first (has_handle (suc i)) server.attributes
            ≡ some (take i server.attributes, att, drop (suc i) server.attributes) =
          ap (λ k. find_first (has_handle k) server.attributes) (omega arith)
          ∙ find_first-Numbered 1 i server.attributes att numbered at_i in
        let before = length_before server.attributes i att at_i in
        let next_index : i + 1 ≡ suc i = omega arith in
        elim (Option-cases (get_elem? server.attributes (suc i))) [
          | inl last ↦ rw (enabled, found, before, next_index, last) refl
          | inr (next, at_next) ↦ elim (Bool-cases (is_cccd next)) [
            | inr other ↦ rw (enabled, found, before, next_index, at_next, other) refl
            | inl cccd ↦
                let xs = contents (suc i) in
                let handle : (i + 2) % 2 ^ 16 ≡ suc (suc i) =
                  omega (arith, few, bound_at server.attributes (suc i) next at_next) in
                let value =
                  value_lem server (suc i) next xs at_next (stored (suc i) next at_next cccd) in
                rw
                  (
                    enabled,
                    found,
                    before,
                    next_index,
                    at_next,
                    cccd,
                    before,
                    handle,
                    value,
                    is_one-filled xs,
                  )
                  refl
          ]
        ]

    enabled_lem :
        (handle : ℕ)
        → enabled server handle ≡ done (wanted server.attributes contents handle, server)
    unfolding enabled
    enabled_lem zero = rw (enabled, none_below 1 0 server.attributes numbered (omega arith)) refl
    enabled_lem (suc i) = elim (Option-cases (get_elem? server.attributes i)) [
      | inr (att, at_i) ↦ behind_lem i att at_i
      | inl gone ↦
          let past = none_at server.attributes i gone in
          rw
            (
              enabled,
              find_first_absent 1 (suc i) server.attributes numbered (omega (arith, past)),
              ap (λ o. subscribed o (contents (suc i))) (none_behind server.attributes i gone),
            )
            refl
    ]

    -- On a server whose fewer than 65536 attributes are numbered from 1, and whose CCCDs are in memory
    -- or those that `gatt!` writes: a notification passes exactly if behind the attribute with
    -- its handle stands a CCCD whose first byte is 1, whatever the handle is (0, the last
    -- attribute's, past the end); the server stays as it is.
    pub filtered_lem :
        (n : NotificationData)
        → filtered server (some n)
          ≡ done (if wanted server.attributes contents n.handle then some n else none, server)
    unfolding filtered
    filtered_lem n = rw (filtered, enabled_lem n.handle) refl
