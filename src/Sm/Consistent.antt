-- ===== src/Sm/Consistent.antt =====
-- What every message leaves true of the security manager of bleps/src/sm.rs (209-449).
use bleps.Common.{
  ℕ, suc, ◌≡◌, refl, sym, ap, ◌∙◌, require, subst, Option, none, some, List, Run, unwrap,
  Option-cases, inl, inr, ◌⊎◌, Ends, Ends-mono, done-Ends, if-Ends, bind-Ends, bind-any,
}
use bleps.Data
use bleps.Data.{Data, append, as_slice, slice_from, index}
use bleps.Event.{Addr}
use bleps.Crypto.{
  Primitives, PublicKey, public_key_from_bytes, secret_key_new, nonce_new, f4, f5, f6, public_key,
  dh_key,
}
use bleps.Sm.{
  SecurityManager, SecurityManagerError, World, Answer, make_auth_req, io_capability_byte, write_sm,
  refuse, handle, handle_pairing_public_key, handle_pairing_random, answer_random,
}
use bleps.Sm.Steps.{own_io_cap}
use bleps.Sm.Keeping.{write_sm-Held, request-Kept, check-Kept, refuse-Kept}

-- The keys of an exchange fit together: the own key belongs to the secret, the confirm value to both
-- keys and the nonce, and the shared secret to the own secret and the peer's key.
abbrev pub Exchanged : Primitives → SecurityManager → Type 0
Exchanged p m =
    (pka : PublicKey) × (skb : ℕ) × (nb : ℕ) × (shared : List ℕ) × (m.pka ≡ some pka)
    × (m.skb ≡ some skb)
    × (m.pkb ≡ some (public_key p skb))
    × (m.nb ≡ some nb)
    × (m.confirm ≡ some (f4 p nb (public_key p skb).x pka.x 0))
    × (m.shared ≡ some shared)
    × (dh_key p skb pka ≡ some shared)

-- The results of stage 2 belong together: with the peer's nonce that the manager has, there are an
-- own nonce, a shared secret of two keys, and two addresses, of which the key for the check values,
-- the long term key and the own check value are computed. The nonce and the secret may be of an
-- earlier exchange, since a new public key leaves these results as they are.
abbrev pub Checked : Primitives → SecurityManager → Type 0
Checked p m =
    (na : ℕ) × (nb : ℕ) × (skb : ℕ) × (pka : PublicKey) × (shared : List ℕ) × (a : Addr)
    × (b : Addr) × (dh_key p skb pka ≡ some shared)
    × (m.na ≡ some na)
    × (m.mac_key ≡ some (f5 p shared na nb a b).0)
    × (m.ltk ≡ some (f5 p shared na nb a b).1)
    × (m.eb ≡ some (f6 p (f5 p shared na nb a b).0 nb na 0 own_io_cap b a))

-- The own nonce stands only beside keys that fit, and the peer's only after an exchange, beside the
-- results of a stage 2 with it.
abbrev pub Consistent : Primitives → SecurityManager → Type 0
Consistent p m = (m.nb ≡ none ⊎ Exchanged p m) × (m.na ≡ none ⊎ (Exchanged p m × Checked p m))

-- Of the results of stage 2 nothing has changed.
abbrev Same : SecurityManager → SecurityManager → Type 0
Same before m =
    (m.na ≡ before.na) × (m.mac_key ≡ before.mac_key) × (m.ltk ≡ before.ltk) × (m.eb ≡ before.eb)

-- They are computed of both nonces, the shared secret and both addresses that the manager has.
abbrev Current : Primitives → SecurityManager → Type 0
Current p m =
    (na : ℕ) × (nb : ℕ) × (shared : List ℕ) × (a : Addr) × (b : Addr) × (m.na ≡ some na)
    × (m.nb ≡ some nb)
    × (m.shared ≡ some shared)
    × (m.peer_address ≡ some a)
    × (m.local_address ≡ some b)
    × (m.mac_key ≡ some (f5 p shared na nb a b).0)
    × (m.ltk ≡ some (f5 p shared na nb a b).1)
    × (m.eb ≡ some (f6 p (f5 p shared na nb a b).0 nb na 0 own_io_cap b a))

-- What a message makes of a manager: a consistent one, whose results of stage 2 are either those of
-- before or computed of what it has.
abbrev pub Advances : Primitives → SecurityManager → SecurityManager → Type 0
Advances p before m = Consistent p m × (Same before m ⊎ Current p m)

abbrev Steady : Primitives → SecurityManager → SecurityManager → Type 0
Steady p before m = Consistent p m × Same before m

unwrap-Ends : {A : Type 0} (o : Option A) → Ends (λ a. o ≡ some a) (unwrap o)
unwrap-Ends (some a) = done-Ends a refl
unwrap-Ends none = record { ends = λ a e. cc }

module _ {S : Type 0} (p : Primitives) (before : SecurityManager) where
  -- The goal of a handler.
  abbrev Kept : Run (Answer S) → Type 0
  Kept m = Ends (λ r. Advances p before r.1.manager) m

  -- What changes nothing of stage 2.
  steady-Kept : {m : Run (Answer S)} → Ends (λ r. Steady p before r.1.manager) m → Kept m
  steady-Kept h = Ends-mono h λ r k. (k.0, inl k.1)

  write_sm_keeps :
      (w : World S) (handle : ℕ) (d : Data)
      → Ends (λ w'. w'.manager ≡ w.manager) (write_sm w handle d)
  unfolding write_sm
  write_sm_keeps w handle d = search (bind-any, done-Ends, refl) depth 8

  public_key-Kept :
      (w : World S) (src_handle : ℕ) (bytes : List ℕ)
      → Steady p before w.manager
      → Kept (handle_pairing_public_key p w src_handle bytes)
  unfolding handle_pairing_public_key secret_key_new
  public_key-Kept w src_handle bytes h =
      let rng = w.manager.rng in
      let skb = rng.scalars rng.drawn in
      bind-any (public_key_from_bytes bytes) _ λ pka. bind-any (Data.new _) _ λ d.
        bind-any (append d _) _ λ d₁. bind-any (append d₁ _) _ λ d₂.
          bind-Ends
            (write_sm
              (record w {
                manager = record w.manager { rng = record rng { drawn = suc rng.drawn } };
              })
              src_handle d₂)
            _ (write_sm-Held p (Steady p before) _ src_handle h d₂)
            λ w₁ h₁. elim (Option-cases (dh_key p skb pka)) [
              | inl none_made ↦ rw none_made (done-Ends _ (h₁.0, inl h₁.1))
              | inr (shared, made) ↦ rw made (
                  bind-any (nonce_new w₁.manager.rng) _ λ (nb, rng'). bind-any (Data.new _) _ λ d₃.
                    bind-any (append d₃ _) _ λ d₄.
                      bind-Ends (write_sm w₁ src_handle d₄) _
                        (write_sm-Held p (Steady p before) w₁ src_handle h₁ d₄)
                        λ w₂ h₂.
                          let keys : Exchanged p (record w₂.manager {
                            pka = some pka;
                            pkb = some (public_key p skb);
                            skb = some skb;
                            confirm = some (f4 p nb (public_key p skb).x pka.x 0);
                            nb = some nb;
                            shared = some shared;
                          }) =
                            (pka, skb, nb, shared, refl, refl, refl, refl, refl, refl, made) in
                          done-Ends _ (
                            (inr keys, elim h₂.0.1 [ inl e ↦ inl e | inr x ↦ inr (keys, x.1) ]),
                            inl h₂.1,
                          ))
            ]

  answer_random-Kept :
      (w : World S) (src_handle : ℕ) (bytes : List ℕ)
      → Steady p before w.manager
      → Kept (answer_random p w src_handle bytes)
  unfolding answer_random make_auth_req io_capability_byte
  answer_random-Kept w src_handle bytes h = bind-any (Data.new _) _ λ d.
      bind-Ends (unwrap w.manager.nb) _ (unwrap-Ends w.manager.nb) λ nb e.
        bind-any (append d _) _ λ d'.
          bind-Ends (write_sm w src_handle d') _ (write_sm_keeps w src_handle d') λ w' same.
            let h' : Consistent p w'.manager = subst (Consistent p) (sym same) h.0 in
            let e' : w'.manager.nb ≡ some nb = ap (λ m. m.nb) same ∙ e in
            let keys : Exchanged p w'.manager = elim h'.0 [ inl n ↦ cc | inr x ↦ x ] in
            let (pka', skb, _, secret, _, _, _, _, _, stored, made) = keys in
            bind-any (require _) _ λ _. bind-any (unwrap w'.manager.pka) _ λ pka.
              bind-any (unwrap w'.manager.pkb) _ λ pkb.
                bind-Ends (unwrap w'.manager.peer_address) _ (unwrap-Ends w'.manager.peer_address)
                  λ a at_a.
                    bind-Ends (unwrap w'.manager.local_address) _
                      (unwrap-Ends w'.manager.local_address)
                      λ b at_b.
                        bind-Ends (unwrap w'.manager.shared) _ (unwrap-Ends w'.manager.shared)
                          λ shared found.
                            let fits : dh_key p skb pka' ≡ some shared = cc in
                            done-Ends _ (
                              (
                                inr keys,
                                inr (
                                  keys,
                                  (_, nb, skb, pka', shared, a, b, fits, refl, refl, refl, refl),
                                ),
                              ),
                              inr (
                                _, nb, shared, a, b, refl, e', found, at_a, at_b, refl, refl, refl,
                              ),
                            )

  refused :
      (w : World S) (src_handle : ℕ) (error : SecurityManagerError)
      → Steady p before w.manager
      → Kept (refuse w src_handle error)
  refused w src_handle error h = steady-Kept (refuse-Kept p (Steady p before) w src_handle h error)

  random-Kept :
      (w : World S) (src_handle : ℕ) (bytes : List ℕ)
      → Steady p before w.manager
      → Kept (handle_pairing_random p w src_handle bytes)
  unfolding handle_pairing_random
  random-Kept w src_handle bytes h = search (if-Ends, refused, answer_random-Kept, h) depth 20

module _ {S : Type 0} (p : Primitives) where
  -- A message that is answered without a panic leaves a consistent manager consistent, whatever its
  -- bytes and whatever came before: an own nonce stands beside keys, a confirm value and a shared
  -- secret of one exchange, and the peer's nonce stands beside a check key, a long term key and a
  -- check value that are computed of it and of one shared secret, by `f5` and `f6` with the nonces
  -- and the addresses in their order. The message either
  -- leaves these results as they were, or computes them of the nonces, the secret and the
  -- addresses that the manager then has.
  pub handle-Consistent :
      (w : World S) (src_handle : ℕ) (payload : Data)
      → Consistent p w.manager
      → Ends (λ r. Advances p w.manager r.1.manager) (handle p w src_handle payload)
  unfolding handle
  handle-Consistent w src_handle payload c = bind-any (as_slice payload) _ λ bytes.
      let m = w.manager in
      let h : Steady p m m = (c, (refl, refl, refl, refl)) in
      bind-any (slice_from bytes 1) _ λ rest. bind-any (index bytes 0) _ λ command.
        let P = Steady p m in
        if-Ends _ _ _ (steady-Kept p m (request-Kept p P (λ m' c k. k) w src_handle h rest)) (
          if-Ends _ _ _ (public_key-Kept p m w src_handle rest h) (
            if-Ends _ _ _ (random-Kept p m w src_handle rest h) (
              if-Ends _ _ _ (steady-Kept p m (check-Kept p P w src_handle h rest))
                (refused p m w src_handle _ h))))
