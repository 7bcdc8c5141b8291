-- ===== src/Crypto/Agreement.antt =====
-- What the key exchange of bleps/src/crypto.rs (215-241) accepts, and that both sides end with the
-- same secret.
use bleps.Common.{
  ℕ, ◌≡◌, refl, Bool, true, false, ◌&&◌, some, List, bytes_eq, bytes_eq_refl, Bool-cases, inl, inr,
}
use bleps.Crypto.{Primitives, IsReliable, PublicKey, is_debug, public_key, dh_key}

-- Two points with the same coordinates.
abbrev pub same_point : List ℕ × List ℕ → List ℕ × List ℕ → Bool
same_point a b = bytes_eq a.0 b.0 && bytes_eq a.1 b.1

-- A shared secret is computed only with a key that is a point of the curve, is not the debug key and
-- is not the own key; and it is then the Diffie-Hellman secret with that key.
pub dh_key_accepts :
    (p : Primitives) (secret : ℕ) (pk : PublicKey) (shared : List ℕ)
    → dh_key p secret pk ≡ some shared
    → (is_debug pk ≡ false)
      × (p.is_point pk.x pk.y ≡ true)
      × (same_point (pk.x, pk.y) (p.public_point secret) ≡ false)
      × (shared ≡ p.diffie_hellman secret (pk.x, pk.y))
unfolding dh_key
dh_key_accepts p secret pk shared e = elim (Bool-cases (is_debug pk)) [
  | inl debug ↦ (let h = rw debug at e in cc)
  | inr fine ↦ elim (Bool-cases (p.is_point pk.x pk.y)) [
    | inr off ↦
        (let h =
            rw
              (
                fine,
                off,
                bytes_eq_refl (p.public_point secret).0,
                bytes_eq_refl (p.public_point secret).1,
              )
              at e in
          cc)
    | inl point ↦ elim (Bool-cases (same_point (pk.x, pk.y) (p.public_point secret))) [
      | inl own ↦ (let h = rw (fine, point, own) at e in cc)
      | inr other ↦ (let h = rw (fine, point, other) at e in (fine, point, other, cc))
    ]
  ]
]

-- The secret that one side computes from the other's public key is the one that the other side
-- computes from its secret and this side's key.
pub dh_key-agree :
    (p : Primitives) (reliable : IsReliable p) (a b : ℕ)
    → is_debug (public_key p a) ≡ false
    → same_point (p.public_point a) (p.public_point b) ≡ false
    → dh_key p b (public_key p a) ≡ some (p.diffie_hellman a (p.public_point b))
unfolding dh_key public_key
dh_key-agree p reliable a b fine other =
    rw (fine, reliable.on_curve a, other, reliable.shared_secret a b) refl
