-- ===== src/Sm/Unchecked.antt =====
-- The end of a pairing: a random value and then a check value, `handle_pairing_random` and
-- `handle_pairing_dhkey_check` of bleps/src/sm.rs (304-426).
use bleps.Common.{ℕ, ◌<◌, ◌≡◌, refl, ◌∙◌, some, List, [], ◌∷◌, done, ok, le_bytes, byte_cap}
use bleps.Data.{Data}
use bleps.Data.Buffer.{Represents}
use bleps.Event.{Addr}
use bleps.Crypto.{IsReliable, Primitives, IoCap, PublicKey, f5, f6}
use bleps.Sm.{World, displayed, handle}
use bleps.Sm.Replies.{said}
use bleps.Sm.Steps.{
  handle_lem, random_lem, check_lem, with_keys, own_io_cap, code_of, authenticated,
}
use bleps.Sm.Pairing.{converse, converse_next}

module _ {S : Type 0} (p : Primitives) (reliable : IsReliable p) (w : World S) (src_handle : ℕ)
    (nb : ℕ) (pka pkb : PublicKey) (shared : List ℕ) (ioa : IoCap) (a b : Addr) where
  -- A device that has the keys, its nonce, the peer's capabilities and both addresses.
  abbrev pub before_random : World S
  before_random = record w {
    manager =
        with_keys p reliable w src_handle (record w.manager { ioa = some ioa }) nb pka pkb shared a
          b;
  }

  -- The check value of stage 2 for the peer's nonce.
  abbrev pub own_check : ℕ → ℕ
  own_check na = f6 p (f5 p shared na nb a b).0 nb na 0 own_io_cap b a

  abbrev pub after_random : ℕ → World S
  after_random na = record (said w src_handle (0x04 ∷ le_bytes 16 nb)) {
    app = displayed p w (code_of p w na nb pka pkb);
    manager = authenticated p w before_random.manager na nb shared a b;
  }

  -- A device with the keys of an exchange, its nonce, the peer's capabilities and both addresses answers
  -- a random value and then a check value, whatever bytes the check value has, right or wrong, or
  -- of another length: with its own nonce, and with the check value that the specification gives for
  -- the shared secret, both nonces, its capabilities and both addresses. It ends with the long
  -- term key of the same.
  pub converse_any_check :
      {random check : Data} (na : ℕ) (ea : List ℕ)
      → na < byte_cap 16
      → Represents random (0x04 ∷ le_bytes 16 na)
      → Represents check (0x0d ∷ ea)
      → (converse p before_random src_handle (random ∷ check ∷ [])
          ≡ done (ok tt, said (after_random na) src_handle (0x0d ∷ le_bytes 16 (own_check na))))
        × ((after_random na).manager.ltk ≡ some (f5 p shared na nb a b).1)
  unfolding converse displayed
  converse_any_check {random} {check} na ea small r₁ r₂ =
      let w' = record w { manager = record w.manager { ioa = some ioa } } in
      let first : handle p before_random src_handle random ≡ done (ok tt, after_random na) =
        rw (handle_lem p before_random src_handle r₁)
          (random_lem p reliable w' src_handle na nb pka pkb shared a b small) in
      let second : handle p (after_random na) src_handle check
          ≡ done (ok tt, said (after_random na) src_handle (0x0d ∷ le_bytes 16 (own_check na))) =
        rw (handle_lem p (after_random na) src_handle r₂) (
          check_lem p reliable (after_random na) src_handle na nb (own_check na)
            (f5 p shared na nb a b).0 ea ioa a b) in
      (
        converse_next p before_random (after_random na) src_handle random (check ∷ []) first
            ∙ converse_next p (after_random na) _ src_handle check [] second,
        refl,
      )
