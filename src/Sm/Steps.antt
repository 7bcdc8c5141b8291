-- ===== src/Sm/Steps.antt =====
-- What each message of a pairing does to the security manager: the handlers of bleps/src/sm.rs
-- (209-426).
use bleps.Common.{
  ℕ, suc, ◌<◌, ◌≡◌, refl, false, some, List, [], ◌∷◌, arith, length, length-append, done, ◌>>=◌, ok,
  ◌==◌, if◌then◌else◌, le_bytes, le_value, byte_cap, le_value-le_bytes, length-le_bytes,
  length-reverse,
}
use mathlib.Core.List.{reverse}
use bleps.Data.{Data, index}
use bleps.Data.Buffer.{
  Represents, new-Represents, append-Represents, as_slice-Represents, slice_from_lem,
}
use bleps.Event.{Addr}
use bleps.Crypto.{
  IsReliable, Primitives, IoCap, PublicKey, secret_key_new, nonce_new, f4, f5, f6, g2, public_key,
  dh_key,
}
use bleps.Sm.{
  SecurityManager, World, refuse, handle, handle_pairing_request, handle_pairing_public_key,
  handle_pairing_random, answer_random, answer_check, handle_pairing_dhkey_check,
  command_not_supported, displayed, make_auth_req, io_capability_byte,
}
use bleps.Sm.Replies.{said, write_sm_lem, key_bytes, public_key_from_bytes_lem}

-- The capabilities that the device announces, as `f6` takes them.
abbrev pub own_io_cap : IoCap
own_io_cap = record { auth_req = 0x2d; oob_data = false; io_cap = 0x01 }

module _ {S : Type 0} (p : Primitives) (w : World S) where
  -- The secret and the nonce that the generator gives next.
  abbrev pub own_secret : ℕ
  own_secret = let rng = w.manager.rng in rng.scalars rng.drawn

  abbrev pub own_nonce : ℕ
  own_nonce = let rng = w.manager.rng in le_value (rng.blocks (suc rng.drawn))

  abbrev pub own_key : PublicKey
  own_key = public_key p own_secret

  abbrev pub confirm_value : PublicKey → ℕ
  confirm_value pka = f4 p own_nonce own_key.x pka.x 0

  -- The manager after the keys are exchanged.
  abbrev pub keyed : PublicKey → List ℕ → SecurityManager
  keyed pka shared = record w.manager {
    pka = some pka;
    pkb = some own_key;
    skb = some own_secret;
    confirm = some (confirm_value pka);
    nb = some own_nonce;
    shared = some shared;
    rng = record w.manager.rng { drawn = suc (suc w.manager.rng.drawn) };
  }

  abbrev pub code_of : ℕ → ℕ → PublicKey → PublicKey → ℕ
  code_of na nb pka pkb = g2 p na pka.x pkb.x nb

  -- The manager after stage 2.
  abbrev pub authenticated : SecurityManager → ℕ → ℕ → List ℕ → Addr → Addr → SecurityManager
  authenticated m na nb shared a b =
      let (mac_key, ltk) = f5 p shared na nb a b in
      record m {
        na = some na;
        mac_key = some mac_key;
        ltk = some ltk;
        eb = some (f6 p mac_key nb na 0 own_io_cap b a);
      }

module _ {S : Type 0} (p : Primitives) (reliable : IsReliable p) (w : World S)
    (src_handle : ℕ) where
  pub public_key_lem :
      (pka : PublicKey) (shared : List ℕ)
      → length pka.x ≡ 32
      → length pka.y ≡ 32
      → dh_key p (own_secret p w) pka ≡ some shared
      → (own_nonce p w == 0) ≡ false
      → handle_pairing_public_key p w src_handle (key_bytes pka)
        ≡ done (
          ok tt,
          said
              (said
                (record w { manager = keyed p w pka shared })
                src_handle
                (0x0c ∷ key_bytes (own_key p w)))
              src_handle
              (0x03 ∷ le_bytes 16 (confirm_value p w pka)),
        )
  unfolding handle_pairing_public_key secret_key_new nonce_new public_key
  public_key_lem pka shared hx hy dh fresh =
      let drawn = record w {
        manager = record w.manager {
          rng = record w.manager.rng { drawn = suc w.manager.rng.drawn };
        };
      } in
      let sx = length-reverse (own_key p w).x in
      let sy = length-reverse (own_key p w).y in
      let nx = reliable.x_size (own_secret p w) in
      let ny = reliable.y_size (own_secret p w) in
      let cb = le_bytes 16 (confirm_value p w pka) in
      let sc = length-le_bytes 16 (confirm_value p w pka) in
      let (d₀, e₀, r₀) = new-Represents (0x0c ∷ []) (omega arith) in
      let (d₁, e₁, r₁) = append-Represents (reverse (own_key p w).x) r₀ (omega (arith, sx, nx)) in
      let (d₂, e₂, r₂) =
        append-Represents (reverse (own_key p w).y) r₁ (omega (arith, sx, nx, sy, ny)) in
      let (d₃, e₃, r₃) = new-Represents (0x03 ∷ []) (omega arith) in
      let (d₄, e₄, r₄) = append-Represents cb r₃ (omega (arith, sc)) in
      rw
        (
          public_key_from_bytes_lem pka hx hy,
          e₀,
          e₁,
          e₂,
          write_sm_lem drawn src_handle r₂ (
              omega (
                arith,
                sx,
                nx,
                sy,
                ny,
                length-append (reverse (own_key p w).x) (reverse (own_key p w).y),
              )),
          dh,
          fresh,
          e₃,
          e₄,
          write_sm_lem (said drawn src_handle (0x0c ∷ key_bytes (own_key p w))) src_handle r₄
              (omega (arith, sc)),
        )
        refl

  -- A manager that has the keys, the own nonce and both addresses.
  abbrev pub with_keys :
      SecurityManager → ℕ → PublicKey → PublicKey → List ℕ → Addr → Addr → SecurityManager
  with_keys m nb pka pkb shared a b = record m {
    nb = some nb;
    pka = some pka;
    pkb = some pkb;
    shared = some shared;
    peer_address = some a;
    local_address = some b;
  }

  pub random_lem :
      (na nb : ℕ) (pka pkb : PublicKey) (shared : List ℕ) (a b : Addr)
      → na < byte_cap 16
      → let m = with_keys w.manager nb pka pkb shared a b in
        handle_pairing_random p (record w { manager = m }) src_handle (le_bytes 16 na)
        ≡ done (
          ok tt,
          record (said w src_handle (0x04 ∷ le_bytes 16 nb)) {
            app = displayed p w (code_of p w na nb pka pkb);
            manager = authenticated p w m na nb shared a b;
          },
        )
  unfolding handle_pairing_random answer_random make_auth_req io_capability_byte displayed
  random_lem na nb pka pkb shared a b small =
      let m = with_keys w.manager nb pka pkb shared a b in
      let (d₀, e₀, r₀) = new-Represents (0x04 ∷ []) (omega arith) in
      let (d₁, e₁, r₁) = append-Represents (le_bytes 16 nb) r₀ (omega arith) in
      rw
        (
          e₀,
          e₁,
          write_sm_lem (record w { manager = m }) src_handle r₁ (omega arith),
          le_value-le_bytes 16 na small,
        )
        refl

  -- A manager that has both nonces, the peer's capabilities and both addresses.
  abbrev pub with_check :
      SecurityManager → ℕ → ℕ → ℕ → List ℕ → IoCap → Addr → Addr → SecurityManager
  with_check m na nb eb mac_key ioa a b = record m {
    na = some na;
    nb = some nb;
    eb = some eb;
    mac_key = some mac_key;
    ioa = some ioa;
    peer_address = some a;
    local_address = some b;
  }

  pub check_lem :
      (na nb eb : ℕ) (mac_key ea : List ℕ) (ioa : IoCap) (a b : Addr)
      → let w' = record w { manager = with_check w.manager na nb eb mac_key ioa a b } in
        handle_pairing_dhkey_check p w' src_handle ea
        ≡ done (ok tt, said w' src_handle (0x0d ∷ le_bytes 16 eb))
  unfolding handle_pairing_dhkey_check answer_check
  check_lem na nb eb mac_key ea ioa a b =
      let w' = record w { manager = with_check w.manager na nb eb mac_key ioa a b } in
      let (d₀, e₀, r₀) = new-Represents (0x0d ∷ []) (omega arith) in
      let (d₁, e₁, r₁) = append-Represents (le_bytes 16 eb) r₀ (omega arith) in
      rw (e₀, e₁, write_sm_lem w' src_handle r₁ (omega arith)) refl

module _ {S : Type 0} (p : Primitives) (w : World S) (src_handle : ℕ) where
  -- A message is dispatched by its first byte.
  pub handle_lem :
      {payload : Data} {command : ℕ} {rest : List ℕ}
      → Represents payload (command ∷ rest)
      → handle p w src_handle payload ≡ (
          if command == 0x01
          then (handle_pairing_request w src_handle rest >>= λ w'. done (ok tt, w'))
          else if command == 0x0c
          then handle_pairing_public_key p w src_handle rest
          else if command == 0x04
          then handle_pairing_random p w src_handle rest
          else if command == 0x0d
          then handle_pairing_dhkey_check p w src_handle rest
          else refuse w src_handle command_not_supported)
  unfolding handle index
  handle_lem {payload} {command} {rest} r =
      rw (as_slice-Represents r, slice_from_lem (command ∷ rest) 1 (omega arith)) refl
