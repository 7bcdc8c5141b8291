-- ===== src/Sm/Order.antt =====
-- Messages that come too early for the security manager of bleps/src/sm.rs (209-449).
use bleps.Common.{
  ℕ, ◌≡◌, refl, ◌∙◌, false, none, List, [], ◌∷◌, done, err, Result, ◌==◌, if◌then◌else◌, Ends,
  if-Ends,
}
use bleps.Data.{Data}
use bleps.Data.Buffer.{Represents}
use bleps.Server.{AttributeServerError, security_manager_error}
use bleps.Crypto.{Primitives}
use bleps.Sm.{
  SecurityManager, SecurityManagerError, World, handle, sm_error_byte, unspecified_reason,
  command_not_supported,
}
use bleps.Sm.Steps.{handle_lem}
use bleps.Sm.Replies.{said}
use bleps.Sm.Refusals.{handle_refusal}
use bleps.Sm.Keeping.{request-Kept, random-Kept, key-Kept, check-Kept, refuse-Kept}

-- The error of a message out of order, by its first byte.
abbrev pub early_error : ℕ → SecurityManagerError
early_error command =
    if command == 0x04
    then unspecified_reason
    else if command == 0x0d
    then unspecified_reason
    else command_not_supported

module _ {S : Type 0} (p : Primitives) where
  -- The manager gets a nonce of its own from a public key alone, and the peer's from a random value.
  handle-nb :
      (w : World S) (src_handle : ℕ) {payload : Data} {command : ℕ} {rest : List ℕ}
      → Represents payload (command ∷ rest)
      → (command == 0x0c) ≡ false
      → w.manager.nb ≡ none
      → Ends (λ r. r.1.manager.nb ≡ none) (handle p w src_handle payload)
  handle-nb w src_handle {payload} {command} {rest} r other h =
      let P : SecurityManager → Type 0 = λ m. m.nb ≡ none in
      rw (handle_lem p w src_handle r, other)
        (if-Ends _ _ _ (request-Kept p P (λ m c k. k) w src_handle h rest) (
          if-Ends _ _ _ (random-Kept p P (λ m na eb ltk mac k. k) w src_handle h rest) (
            if-Ends _ _ _ (check-Kept p P w src_handle h rest) (refuse-Kept p P w src_handle h _))))

  handle-na :
      (w : World S) (src_handle : ℕ) {payload : Data} {command : ℕ} {rest : List ℕ}
      → Represents payload (command ∷ rest)
      → (command == 0x04) ≡ false
      → w.manager.na ≡ none
      → Ends (λ r. r.1.manager.na ≡ none) (handle p w src_handle payload)
  handle-na w src_handle {payload} {command} {rest} r other h =
      let P : SecurityManager → Type 0 = λ m. m.na ≡ none in
      rw (handle_lem p w src_handle r, other)
        (if-Ends _ _ _ (request-Kept p P (λ m c k. k) w src_handle h rest) (
          if-Ends _ _ _
            (key-Kept p P (λ m rng k. k) (λ m pka pkb skb c nb shared rng k. k) w src_handle h rest)
            (if-Ends _ _ _ (check-Kept p P w src_handle h rest)
              (refuse-Kept p P w src_handle h _))))

  -- From `w₀` on no message with the given first byte was taken. Between messages the server may change
  -- all but the two nonces.
  pub data Heard (without : ℕ) (w₀ : World S) : World S → Type 0 where
    start : Heard without w₀ w₀
    message :
        {w w' : World S} {payload : Data} {command : ℕ} {rest : List ℕ}
        {r : Result {0, 0} AttributeServerError (Unit {0})} (src_handle : ℕ)
        → Heard without w₀ w
        → Represents payload (command ∷ rest)
        → (command == without) ≡ false
        → handle p w src_handle payload ≡ done (r, w')
        → Heard without w₀ w'
    between :
        {w w' : World S}
        → Heard without w₀ w
        → w'.manager.nb ≡ w.manager.nb
        → w'.manager.na ≡ w.manager.na
        → Heard without w₀ w'

  Heard-nb : {w₀ w : World S} → Heard 0x0c w₀ w → w₀.manager.nb ≡ none → w.manager.nb ≡ none
  Heard-nb start h = h
  Heard-nb (message {w = w} src_handle before r other e) h =
      (handle-nb w src_handle r other (Heard-nb before h)).ends _ e
  Heard-nb (between before nb na) h = nb ∙ Heard-nb before h

  Heard-na : {w₀ w : World S} → Heard 0x04 w₀ w → w₀.manager.na ≡ none → w.manager.na ≡ none
  Heard-na start h = h
  Heard-na (message {w = w} src_handle before r other e) h =
      (handle-na w src_handle r other (Heard-na before h)).ends _ e
  Heard-na (between before nb na) h = na ∙ Heard-na before h

  -- The first byte of a message out of order: a random value before every public key, a check value
  -- before every random value, and what is no message of a pairing at all.
  pub data Early (w : World S) : ℕ → Type 0 where
    before_key :
        (w₀ : World S) (command : ℕ)
        → w₀.manager.nb ≡ none
        → Heard 0x0c w₀ w
        → command ≡ 0x04
        → Early w command
    before_random :
        (w₀ : World S) (command : ℕ)
        → w₀.manager.na ≡ none
        → Heard 0x04 w₀ w
        → command ≡ 0x0d
        → Early w command
    unknown :
        (command : ℕ)
        → (command == 0x01) ≡ false
        → (command == 0x0c) ≡ false
        → (command == 0x04) ≡ false
        → (command == 0x0d) ≡ false
        → Early w command

  -- A manager that starts without nonces refuses what comes too early, after any other messages and
  -- whatever the server does between them: a random value as long as no public key was taken, a check
  -- value as long as no random value was, and every unknown message. It answers with
  -- pairing-failed and the error, and changes nothing else.
  pub handle-Early :
      {w : World S} {payload : Data} {command : ℕ} {rest : List ℕ} (src_handle : ℕ)
      → Early w command
      → Represents payload (command ∷ rest)
      → handle p w src_handle payload
        ≡ done (
          err security_manager_error,
          said w src_handle (0x05 ∷ sm_error_byte (early_error command) ∷ []),
        )
  handle-Early {w} src_handle (before_key w₀ command fresh heard e) r =
      let none_yet = Heard-nb heard fresh in
      handle_refusal p w src_handle r (early_error command) (rw (e, none_yet) refl)
  handle-Early {w} src_handle (before_random w₀ command fresh heard e) r =
      let none_yet = Heard-na heard fresh in
      handle_refusal p w src_handle r (early_error command) (rw (e, none_yet) refl)
  handle-Early {w} src_handle (unknown command h₁ h₂ h₃ h₄) r =
      handle_refusal p w src_handle r (early_error command) (rw (h₁, h₂, h₃, h₄) refl)
