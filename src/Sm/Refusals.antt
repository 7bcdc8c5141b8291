-- ===== src/Sm/Refusals.antt =====
-- The messages that the handlers of bleps/src/sm.rs (209-449) refuse, and what they answer.
use bleps.Common.{
  ℕ, ◌≡◌, refl, ap, ◌∙◌, Bool, true, false, ◌||◌, Option, none, some, List, [], ◌∷◌, done, err,
  ◌==◌, if◌then◌else◌,
}
use bleps.Data.{Data}
use bleps.Data.Buffer.{Represents}
use bleps.Server.{security_manager_error}
use bleps.Crypto.{Primitives}
use bleps.Sm.{
  SecurityManager, SecurityManagerError, World, refuse, handle, handle_pairing_random,
  handle_pairing_dhkey_check, sm_error_byte, unspecified_reason, command_not_supported, is_none,
}
use bleps.Sm.Steps.{handle_lem}
use bleps.Sm.Replies.{said, refuse_lem}

-- What the random value and the check value of the peer need.
abbrev lacks_for_random : SecurityManager → Bool
lacks_for_random m =
    is_none m.nb
    || (is_none m.pka || (is_none m.pkb || (is_none m.peer_address || is_none m.local_address)))

abbrev lacks_for_check : SecurityManager → Bool
lacks_for_check m =
    is_none m.na
    || (is_none m.nb || (is_none m.ioa || (is_none m.peer_address || is_none m.local_address)))

-- The error that a message is refused with, by its first byte.
abbrev pub refusal : SecurityManager → ℕ → Option SecurityManagerError
refusal m command =
    if command == 0x01
    then none
    else if command == 0x0c
    then none
    else if command == 0x04
    then (if lacks_for_random m then some unspecified_reason else none)
    else if command == 0x0d
    then (if lacks_for_check m then some unspecified_reason else none)
    else some command_not_supported

module _ {A : Type 0} (x y : A) where
  -- Five guards with one answer.
  any_of_five :
      (b c d e f : Bool)
      → (b || (c || (d || (e || f)))) ≡ true
      → (if b then x else if c then x else if d then x else if e then x else if f then x else y) ≡ x
  any_of_five true c d e f h = refl
  any_of_five false true d e f h = refl
  any_of_five false false true e f h = refl
  any_of_five false false false true f h = refl
  any_of_five false false false false true h = refl
  any_of_five false false false false false h = cc

module _ {A : Type 0} (reply : SecurityManagerError → A) (w x y z : A)
    (error : SecurityManagerError) where
  -- The dispatch, when the guards of a message lead to its refusal.
  dispatch_refusal :
      (b c d e no_random no_check : Bool)
      → (no_random ≡ true → y ≡ reply unspecified_reason)
      → (no_check ≡ true → z ≡ reply unspecified_reason)
      → (if b
          then none
          else if c
          then none
          else if d
          then (if no_random then some unspecified_reason else none)
          else if e
          then (if no_check then some unspecified_reason else none)
          else some command_not_supported)
        ≡ some error
      → (if b
          then w
          else if c
          then x
          else if d
          then y
          else if e
          then z
          else reply command_not_supported)
        ≡ reply error
  dispatch_refusal true c d e nr nc hr hc h = cc
  dispatch_refusal false true d e nr nc hr hc h = cc
  dispatch_refusal false false true e true nc hr hc h = hr refl ∙ ap reply cc
  dispatch_refusal false false true e false nc hr hc h = cc
  dispatch_refusal false false false true nr true hr hc h = hc refl ∙ ap reply cc
  dispatch_refusal false false false true nr false hr hc h = cc
  dispatch_refusal false false false false nr nc hr hc h = ap reply cc

module _ {S : Type 0} (p : Primitives) (w : World S) (src_handle : ℕ) where
  -- A random value while the own nonce, a key or an address is missing, a check value while a nonce,
  -- the peer's capabilities or an address is missing, and every message that is none of the four:
  -- each is answered with pairing-failed and its error, and changes nothing else. What is there
  -- from an earlier exchange counts as not missing.
  pub handle_refusal :
      {payload : Data} {command : ℕ} {rest : List ℕ}
      → Represents payload (command ∷ rest)
      → (error : SecurityManagerError) → refusal w.manager command ≡ some error
      → handle p w src_handle payload
        ≡ done (err security_manager_error, said w src_handle (0x05 ∷ sm_error_byte error ∷ []))
  unfolding handle_pairing_random handle_pairing_dhkey_check
  handle_refusal {payload} {command} {rest} r error h =
      let m = w.manager in
      let chosen : handle p w src_handle payload ≡ refuse w src_handle error =
        rw (handle_lem p w src_handle r) (
          dispatch_refusal (refuse w src_handle) _ _ _ _ error (command == 0x01) (command == 0x0c)
            (command == 0x04) (command == 0x0d) (lacks_for_random m) (lacks_for_check m)
            (any_of_five _ _ (is_none m.nb) (is_none m.pka) (is_none m.pkb) (is_none m.peer_address)
              (is_none m.local_address))
            (any_of_five _ _ (is_none m.na) (is_none m.nb) (is_none m.ioa) (is_none m.peer_address)
              (is_none m.local_address))
            h) in
      chosen ∙ refuse_lem w src_handle error
