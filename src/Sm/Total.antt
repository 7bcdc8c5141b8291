-- ===== src/Sm/Total.antt =====
-- Which messages of a peer the security manager of bleps/src/sm.rs (209-449) takes without a panic.
use bleps.Common.{
  ℕ, suc, ◌≡◌, refl, ap₂, subst, ◌∙◌, false, Option, none, some, List, [], ◌∷◌, ◌++◌, arith, length,
  length-take, length-drop, length-append, length-reverse, take, drop, take-append-drop,
  reverse-reverse, Run, done, ◌>>=◌, Returns, returns, require, unwrap, ◌==◌, if◌then◌else◌,
  le_bytes, Option-cases, inl, inr, ◌⊎◌,
}
use mathlib.Core.List.{reverse}
use bleps.Data.{Data, new, append}
use bleps.Data.Buffer.{Represents, new-Represents, append-Represents}
use bleps.Event.{Addr}
use bleps.Crypto.{
  IsReliable, Primitives, public_key_from_bytes, IoCap, PublicKey, secret_key_new, public_key,
  dh_key,
}
use bleps.Sm.{
  SecurityManagerError, World, write_sm, refuse, handle, handle_pairing_public_key,
  handle_pairing_random, answer_random, answer_check, handle_pairing_dhkey_check,
  unspecified_reason, command_not_supported, is_none,
}
use bleps.Sm.Consistent.{Exchanged, Checked, Consistent, handle-Consistent}
use bleps.Sm.Replies.{write_sm_lem, refuse_lem, request_lem, key_bytes, public_key_from_bytes_lem}
use bleps.Sm.Steps.{own_secret, own_nonce, own_key, public_key_lem, handle_lem}

-- The messages of the four kinds, each at least as long as its handler reads, and all others.
pub data Sized : ℕ → List ℕ → Type 0 where
  request : (io oob auth : ℕ) (rest : List ℕ) → Sized 0x01 (io ∷ oob ∷ auth ∷ rest)
  key : (bytes : List ℕ) → length bytes ≡ 64 → Sized 0x0c bytes
  random : (bytes : List ℕ) → length bytes ≡ 16 → Sized 0x04 bytes
  check : (bytes : List ℕ) → Sized 0x0d bytes
  unknown :
      (command : ℕ) (bytes : List ℕ)
      → (command == 0x01) ≡ false
      → (command == 0x0c) ≡ false
      → (command == 0x04) ≡ false
      → (command == 0x0d) ≡ false
      → Sized command bytes

-- A call returns.
abbrev Ok : {A : Type 0} → Run A → Type 0
Ok m = Returns m (λ a. Unit {0})

module _ {A B : Type 0} where
  -- A guard on a missing field.
  guarded :
      (o : Option A) (x y : Run B)
      → Ok x
      → ((a : A) → o ≡ some a → Ok y)
      → Ok (if is_none o then x else y)
  guarded none x y hx hy = hx
  guarded (some a) x y hx hy = hy a refl

module _ {A B : Type 0} where
  -- A call whose value is known, and what follows.
  then-Ok : (m : Run A) (f : A → Run B) (a : A) → m ≡ done a → Ok (f a) → Ok (m >>= f)
  then-Ok m f a e h = rw (e) h

  -- A field that is there.
  field-Ok : (o : Option A) (f : A → Run B) (a : A) → o ≡ some a → Ok (f a) → Ok (unwrap o >>= f)
  field-Ok o f a e h = rw (e) h

some_exchanged : {A C : Type 0} (o : Option A) (a : A) → (o ≡ none ⊎ C) → o ≡ some a → C
some_exchanged o a (inl e) h = cc
some_exchanged o a (inr c) h = c

module _ {S : Type 0} (p : Primitives) (w : World S) (src_handle : ℕ) where
  refuse-Ok : (error : SecurityManagerError) → Ok (refuse w src_handle error)
  refuse-Ok error = rw (refuse_lem w src_handle error) (returns _ tt)

  answer_random-Ok :
      (bytes : List ℕ) (nb : ℕ) (pka pkb : PublicKey) (a b : Addr) (shared : List ℕ)
      → length bytes ≡ 16
      → w.manager.nb ≡ some nb
      → w.manager.pka ≡ some pka
      → w.manager.pkb ≡ some pkb
      → w.manager.peer_address ≡ some a
      → w.manager.local_address ≡ some b
      → w.manager.shared ≡ some shared
      → Ok (answer_random p w src_handle bytes)
  unfolding answer_random
  answer_random-Ok bytes nb pka pkb a b shared size h₁ h₂ h₃ h₄ h₅ h₆ =
      let (d₀, e₀, r₀) = new-Represents (0x04 ∷ []) (omega arith) in
      let (d₁, e₁, r₁) = append-Represents (le_bytes 16 nb) r₀ (omega arith) in
      let fits : require (length bytes == 16) ≡ done tt = rw (size) refl in
      then-Ok (new (0x04 ∷ [])) _ d₀ e₀ (
        field-Ok w.manager.nb _ nb h₁ (
          then-Ok (append d₀ (le_bytes 16 nb)) _ d₁ e₁ (
            then-Ok (write_sm w src_handle d₁) _ _ (write_sm_lem w src_handle r₁ (omega arith)) (
              then-Ok (require (length bytes == 16)) _ tt fits (
                field-Ok w.manager.pka _ pka h₂ (
                  field-Ok w.manager.pkb _ pkb h₃ (
                    field-Ok w.manager.peer_address _ a h₄ (
                      field-Ok w.manager.local_address _ b h₅
                        (field-Ok w.manager.shared _ shared h₆ (returns _ tt))))))))))

  random-Ok :
      (bytes : List ℕ)
      → length bytes ≡ 16
      → Consistent p w.manager
      → Ok (handle_pairing_random p w src_handle bytes)
  unfolding handle_pairing_random
  random-Ok bytes size c =
      let no = refuse-Ok unspecified_reason in
      guarded w.manager.nb _ _ no λ nb h₁. guarded w.manager.pka _ _ no λ pka h₂.
        guarded w.manager.pkb _ _ no λ pkb h₃. guarded w.manager.peer_address _ _ no λ a h₄.
          guarded w.manager.local_address _ _ no λ b h₅.
            let keys : Exchanged p w.manager = some_exchanged w.manager.nb nb c.0 h₁ in
            let (_, _, _, shared, _, _, _, _, _, h₆, _) = keys in
            answer_random-Ok bytes nb pka pkb a b shared size h₁ h₂ h₃ h₄ h₅ h₆

  answer_check-Ok :
      (bytes : List ℕ) (na nb eb : ℕ) (mac_key : List ℕ) (ioa : IoCap) (a b : Addr)
      → w.manager.mac_key ≡ some mac_key
      → w.manager.na ≡ some na
      → w.manager.nb ≡ some nb
      → w.manager.ioa ≡ some ioa
      → w.manager.peer_address ≡ some a
      → w.manager.local_address ≡ some b
      → w.manager.eb ≡ some eb
      → Ok (answer_check p w src_handle bytes)
  unfolding answer_check
  answer_check-Ok bytes na nb eb mac_key ioa a b h₁ h₂ h₃ h₄ h₅ h₆ h₇ =
      let (d₀, e₀, r₀) = new-Represents (0x0d ∷ []) (omega arith) in
      let (d₁, e₁, r₁) = append-Represents (le_bytes 16 eb) r₀ (omega arith) in
      field-Ok w.manager.mac_key _ mac_key h₁ (
        field-Ok w.manager.na _ na h₂ (
          field-Ok w.manager.nb _ nb h₃ (
            field-Ok w.manager.ioa _ ioa h₄ (
              field-Ok w.manager.peer_address _ a h₅ (
                field-Ok w.manager.local_address _ b h₆ (
                  then-Ok (new (0x0d ∷ [])) _ d₀ e₀ (
                    field-Ok w.manager.eb _ eb h₇ (
                      then-Ok (append d₀ (le_bytes 16 eb)) _ d₁ e₁ (
                        then-Ok (write_sm w src_handle d₁) _ _
                          (write_sm_lem w src_handle r₁ (omega arith)) (returns _ tt))))))))))

  check-Ok :
      (bytes : List ℕ)
      → Consistent p w.manager
      → Ok (handle_pairing_dhkey_check p w src_handle bytes)
  unfolding handle_pairing_dhkey_check
  check-Ok bytes c =
      let no = refuse-Ok unspecified_reason in
      guarded w.manager.na _ _ no λ na h₁. guarded w.manager.nb _ _ no λ nb h₂.
        guarded w.manager.ioa _ _ no λ ioa h₃. guarded w.manager.peer_address _ _ no λ a h₄.
          guarded w.manager.local_address _ _ no λ b h₅.
            let both : Exchanged p w.manager × Checked p w.manager =
              some_exchanged w.manager.na na c.1 h₁ in
            let (_, _, _, _, _, _, _, _, _, h₆, _, h₇) = both.1 in
            answer_check-Ok bytes na nb _ _ ioa a b h₆ h₁ h₂ h₃ h₄ h₅ h₇

module _ {S : Type 0} (p : Primitives) (reliable : IsReliable p) (w : World S)
    (src_handle : ℕ) where
  -- The key of the peer with which no secret is computed.
  key_refused :
      (pka : PublicKey)
      → length pka.x ≡ 32
      → length pka.y ≡ 32
      → dh_key p (own_secret p w) pka ≡ none
      → Ok (handle_pairing_public_key p w src_handle (key_bytes pka))
  unfolding handle_pairing_public_key secret_key_new public_key
  key_refused pka hx hy dh =
      let drawn = record w {
        manager = record w.manager {
          rng = record w.manager.rng { drawn = suc w.manager.rng.drawn };
        };
      } in
      let x = reverse (own_key p w).x in
      let y = reverse (own_key p w).y in
      let sx : length x ≡ 32 = length-reverse (own_key p w).x ∙ reliable.x_size (own_secret p w) in
      let sy : length y ≡ 32 = length-reverse (own_key p w).y ∙ reliable.y_size (own_secret p w) in
      let both : length (x ++ y) ≡ 64 = omega (arith, length-append x y) in
      let (d₀, e₀, r₀) = new-Represents (0x0c ∷ []) (omega arith) in
      let (d₁, e₁, r₁) = append-Represents x r₀ (omega arith) in
      let (d₂, e₂, r₂) = append-Represents y r₁ (omega arith) in
      then-Ok (public_key_from_bytes (key_bytes pka)) _ pka (public_key_from_bytes_lem pka hx hy) (
        then-Ok (new (0x0c ∷ [])) _ d₀ e₀ (
          then-Ok (append d₀ x) _ d₁ e₁ (
            then-Ok (append d₁ y) _ d₂ e₂ (
              then-Ok (write_sm drawn src_handle d₂) _ _
                (write_sm_lem drawn src_handle r₂ (omega arith)) (rw (dh) (returns _ tt))))))

  key-Ok :
      (bytes : List ℕ)
      → length bytes ≡ 64
      → (own_nonce p w == 0) ≡ false
      → Ok (handle_pairing_public_key p w src_handle bytes)
  key-Ok bytes size fresh =
      let pka : PublicKey = record { x = reverse (take 32 bytes); y = reverse (drop 32 bytes) } in
      let hx : length pka.x ≡ 32 =
        omega (arith, length-reverse (take 32 bytes), length-take 32 bytes) in
      let hy : length pka.y ≡ 32 =
        omega (arith, length-reverse (drop 32 bytes), length-drop 32 bytes) in
      let sent_so : key_bytes pka ≡ bytes =
        ap₂ ◌++◌ (reverse-reverse (take 32 bytes)) (reverse-reverse (drop 32 bytes))
        ∙ take-append-drop 32 bytes in
      subst (λ l. Ok (handle_pairing_public_key p w src_handle l)) sent_so
        (elim (Option-cases (dh_key p (own_secret p w) pka)) [
          | inl none_made ↦ key_refused pka hx hy none_made
          | inr (shared, made) ↦
              rw (public_key_lem p reliable w src_handle pka shared hx hy made fresh) (returns _ tt)
        ])

  handle-Ok :
      {payload : Data} {command : ℕ} {rest : List ℕ}
      → Sized command rest
      → Represents payload (command ∷ rest)
      → Consistent p w.manager
      → (own_nonce p w == 0) ≡ false
      → Ok (handle p w src_handle payload)
  handle-Ok (request io oob auth rest) r c fresh =
      rw (handle_lem p w src_handle r, request_lem w src_handle io oob auth rest) (returns _ tt)
  handle-Ok (key bytes size) r c fresh = rw (handle_lem p w src_handle r) (key-Ok bytes size fresh)
  handle-Ok (random bytes size) r c fresh =
      rw (handle_lem p w src_handle r) (random-Ok p w src_handle bytes size c)
  handle-Ok (check bytes) r c fresh =
      rw (handle_lem p w src_handle r) (check-Ok p w src_handle bytes c)
  handle-Ok (unknown command bytes h₁ h₂ h₃ h₄) r c fresh =
      rw (handle_lem p w src_handle r, h₁, h₂, h₃, h₄)
        (refuse-Ok p w src_handle command_not_supported)

  -- With reliable primitives and a manager whose fields are consistent with each other, every message
  -- that is as long as its kind wants (three bytes of a pairing request, 64 of a public key, 16 of
  -- a random value; a check value and a message of no known kind have any length) is answered
  -- without a panic, in whatever order messages come, and leaves the manager consistent. The
  -- nonce that the generator gives next must not be 0.
  pub handle_returns :
      {payload : Data} {command : ℕ} {rest : List ℕ}
      → Sized command rest
      → Represents payload (command ∷ rest)
      → Consistent p w.manager
      → (own_nonce p w == 0) ≡ false
      → Returns (handle p w src_handle payload) (λ r. Consistent p r.1.manager)
  handle_returns {payload} sized r c fresh =
      let (a, e, _) = handle-Ok sized r c fresh in
      let kept = handle-Consistent p w src_handle payload c in (a, e, (kept.ends a e).0)
