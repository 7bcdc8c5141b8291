-- ===== src/Sm/Keeping.antt =====
-- What the handlers of bleps/src/sm.rs (209-449) keep of the manager, whatever the property: they keep
-- it if the assignments that they make do.
use bleps.Common.{
  ℕ, suc, ok, not, some, List, Run, done, ◌>>=◌, require, unwrap, Result, ◌==◌, Option-cases, inl,
  inr, Ends, done-Ends, if-Ends, bind-Ends, bind-any,
}
use bleps.Data
use bleps.Data.{Data, append, index}
use bleps.Server.{AttributeServerError}
use bleps.Crypto.{
  IoCap, Rng, PublicKey, public_key, Primitives, public_key_from_bytes, secret_key_new, nonce_new,
  dh_key,
}
use bleps.Sm.{
  SecurityManager, SecurityManagerError, World, Answer, write_sm, report_error, refuse,
  handle_pairing_request, handle_pairing_public_key, handle_pairing_random, answer_random,
  answer_check, handle_pairing_dhkey_check,
}

module _ {S : Type 0} (p : Primitives) (P : SecurityManager → Type 0) where
  abbrev pub Held : Run (World S) → Type 0
  Held m = Ends (λ w. P w.manager) m

  abbrev pub Kept : Run (Answer S) → Type 0
  Kept m = Ends (λ r. P r.1.manager) m

  module _ (w : World S) (src_handle : ℕ) (h : P w.manager) where
    pub write_sm-Held : (d : Data) → Held (write_sm w src_handle d)
    unfolding write_sm
    write_sm-Held d = search (bind-any, done-Ends, h) depth 8

    pub refuse-Kept : (error : SecurityManagerError) → Kept (refuse w src_handle error)
    unfolding refuse report_error
    refuse-Kept error =
        bind-Ends (report_error w src_handle error) _
          (bind-any (Data.new _) _ λ d. bind-any (append d _) _ λ d'. write_sm-Held d')
          λ w' h'. done-Ends _ h'

    said-Kept :
        (d : Data) (r : Result {0, 0} AttributeServerError (Unit {0}))
        → Kept (write_sm w src_handle d >>= λ w'. done (r, w'))
    said-Kept d r = bind-Ends (write_sm w src_handle d) _ (write_sm-Held d) λ w' h'. done-Ends _ h'

    answer_check-Kept : (bytes : List ℕ) → Kept (answer_check p w src_handle bytes)
    unfolding answer_check
    answer_check-Kept bytes = search (bind-any, said-Kept) depth 20

    pub check-Kept : (bytes : List ℕ) → Kept (handle_pairing_dhkey_check p w src_handle bytes)
    unfolding handle_pairing_dhkey_check
    check-Kept bytes = search (if-Ends, refuse-Kept, answer_check-Kept) depth 20

  request-Held :
      ((m : SecurityManager) (c : IoCap) → P m → P (record m { ioa = some c }))
      → (w : World S) (src_handle : ℕ) → P w.manager
      → (bytes : List ℕ) → Held (handle_pairing_request w src_handle bytes)
  unfolding handle_pairing_request
  request-Held closed w src_handle h bytes = bind-any (index bytes 2) _ λ auth.
      bind-any (index bytes 1) _ λ oob. bind-any (index bytes 0) _ λ io.
        let c : IoCap = record { auth_req = auth; oob_data = not (oob == 0); io_cap = io } in
        let w' : World S = record w { manager = record w.manager { ioa = some c } } in
        let h' : P w'.manager = closed w.manager c h in
        search (bind-any, write_sm-Held w' src_handle h') depth 20

  answer_random-Kept :
      ((m : SecurityManager) (na eb ltk : ℕ) (mac_key : List ℕ)
        → P m
        → P (record m { na = some na; mac_key = some mac_key; ltk = some ltk; eb = some eb }))
      → (w : World S) (src_handle : ℕ) → P w.manager
      → (bytes : List ℕ) → Kept (answer_random p w src_handle bytes)
  unfolding answer_random
  answer_random-Kept closed w src_handle h bytes = bind-any (Data.new _) _ λ d.
      bind-any (unwrap w.manager.nb) _ λ nb. bind-any (append d _) _ λ d'.
        bind-Ends (write_sm w src_handle d') _ (write_sm-Held w src_handle h d') λ w' h'.
          bind-any (require _) _ λ _. bind-any (unwrap w'.manager.pka) _ λ pka.
            bind-any (unwrap w'.manager.pkb) _ λ pkb.
              bind-any (unwrap w'.manager.peer_address) _ λ a.
                bind-any (unwrap w'.manager.local_address) _ λ b.
                  bind-any (unwrap w'.manager.shared) _
                    λ shared. done-Ends _ (closed w'.manager _ _ _ _ h')

  pub request-Kept :
      ((m : SecurityManager) (c : IoCap) → P m → P (record m { ioa = some c }))
      → (w : World S) (src_handle : ℕ) → P w.manager
      → (bytes : List ℕ)
      → Kept (handle_pairing_request w src_handle bytes >>= λ w'. done (ok tt, w'))
  request-Kept closed w src_handle h bytes =
      bind-Ends (handle_pairing_request w src_handle bytes) _
        (request-Held closed w src_handle h bytes) λ w' h'. done-Ends _ h'

  -- Stage 2 replaces its four results.
  pub random-Kept :
      ((m : SecurityManager) (na eb ltk : ℕ) (mac_key : List ℕ)
        → P m
        → P (record m { na = some na; mac_key = some mac_key; ltk = some ltk; eb = some eb }))
      → (w : World S) (src_handle : ℕ) → P w.manager
      → (bytes : List ℕ) → Kept (handle_pairing_random p w src_handle bytes)
  unfolding handle_pairing_random
  random-Kept closed w src_handle h bytes =
      search (if-Ends, refuse-Kept w src_handle h, answer_random-Kept closed w src_handle h) depth
        20

  pub key-Kept :
      ((m : SecurityManager) (rng : Rng) → P m → P (record m { rng = rng }))
      → ((m : SecurityManager) (pka pkb : PublicKey) (skb confirm nb : ℕ) (shared : List ℕ)
            (rng : Rng)
          → P m
          → P (record m {
            pka = some pka;
            pkb = some pkb;
            skb = some skb;
            confirm = some confirm;
            nb = some nb;
            shared = some shared;
            rng = rng;
          }))
      → (w : World S) (src_handle : ℕ) → P w.manager
      → (bytes : List ℕ) → Kept (handle_pairing_public_key p w src_handle bytes)
  unfolding handle_pairing_public_key secret_key_new
  key-Kept drawn closed w src_handle h bytes =
      let rng = w.manager.rng in
      let skb = rng.scalars rng.drawn in
      let w₀ : World S = record w {
        manager = record w.manager { rng = record rng { drawn = suc rng.drawn } };
      } in
      bind-any (public_key_from_bytes bytes) _ λ pka. bind-any (Data.new _) _ λ d.
        bind-any (append d _) _ λ d₁. bind-any (append d₁ _) _ λ d₂.
          bind-Ends (write_sm w₀ src_handle d₂) _
            (write_sm-Held w₀ src_handle (drawn w.manager (record rng { drawn = suc rng.drawn }) h)
              d₂)
            λ w₁ h₁. elim (Option-cases (dh_key p skb pka)) [
              | inl none_made ↦ rw none_made (done-Ends _ h₁)
              | inr (shared, made) ↦ rw made (
                  bind-any (nonce_new w₁.manager.rng) _ λ (nb, rng'). bind-any (Data.new _) _ λ d₃.
                    bind-any (append d₃ _) _ λ d₄.
                      bind-Ends (write_sm w₁ src_handle d₄) _ (write_sm-Held w₁ src_handle h₁ d₄)
                        λ w₂ h₂.
                          done-Ends _
                            (closed w₂.manager pka (public_key p skb) skb _ nb shared rng' h₂))
            ]
