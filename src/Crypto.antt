-- ===== src/Crypto.antt =====
-- bleps/src/crypto.rs: the cryptographic toolbox of LE Secure Connections, over AES-CMAC and the
-- curve P-256, which are other crates' and stand as parameters.
pub mod Agreement
use bleps.Common.{
  ℕ, ◌≡◌, zero, suc, ◌+◌, ◌*◌, ◌%◌, ◌^◌, Bool, true, false, not, ◌&&◌, Option, none, some, List, [],
  ◌∷◌, ◌++◌, Run, done, panic, ◌>>=◌, ◌>>◌, require, ◌==◌, bytes_eq, if◌then◌else◌, length, take,
  drop, be_bytes, be_value, le_value,
}
use mathlib.Core.List.{reverse}
use bleps.Data.{slice_to, slice_from}
use bleps.Event.{Addr}

-- What the crates `cmac`, `aes` and `p256` compute. A key of AES and a tag are 16 bytes; a secret
-- scalar is a number; a point is its two coordinates, 32 bytes each, most significant byte first.
pub record Primitives : Type 0 where
  pub aes_cmac : List ℕ → List ℕ → List ℕ
  pub public_point : ℕ → List ℕ × List ℕ
  pub is_point : List ℕ → List ℕ → Bool
  pub diffie_hellman : ℕ → List ℕ × List ℕ → List ℕ

-- A generator of random numbers: its answers to the draws to come, as scalars or as 16 bytes.
pub record Rng : Type 0 where
  pub scalars : ℕ → ℕ
  pub blocks : ℕ → List ℕ
  pub drawn : ℕ

-- `Key::new`, and `u128::from(&key)`.
abbrev pub key_of : ℕ → List ℕ
key_of k = be_bytes 16 k

abbrev pub key_value : List ℕ → ℕ
key_value key = be_value 0 key

-- `AesCmac`: the key, and what was fed to it.
pub record AesCmac : Type 0 where
  pub key : List ℕ
  pub message : List ℕ

unfoldable pub cmac_new : List ℕ → AesCmac
cmac_new key = record { key = key; message = [] }

unfoldable pub update : AesCmac → List ℕ → AesCmac
update m bytes = record m { message = m.message ++ bytes }

-- `IoCap`: authentication requirements, OOB flag, IO capability.
pub record IoCap : Type 0 where
  pub auth_req : ℕ
  pub oob_data : Bool
  pub io_cap : ℕ

abbrev pub io_cap_bytes : IoCap → List ℕ
io_cap_bytes c = c.auth_req ∷ (if c.oob_data then 1 else 0) ∷ c.io_cap ∷ []

pub record PublicKey : Type 0 where
  pub x : List ℕ
  pub y : List ℕ

-- `PublicKey::from_bytes`: the coordinates come least significant byte first, and the second takes
-- all that is left, which must be 32 bytes.
unfoldable pub public_key_from_bytes : List ℕ → Run PublicKey
public_key_from_bytes bytes = do
  x ← slice_to bytes 32
  y ← slice_from bytes 32
  require (length y == 32)
  done (record { x = reverse x; y = reverse y })

-- `PublicKey::is_debug`.
unfoldable pub is_debug : PublicKey → Bool
is_debug pk =
    (bytes_eq (take 16 pk.x) (be_bytes 16 0x20b003d2f297be2c5e2c83a7e9f9a5b9)
      && bytes_eq (drop 16 pk.x) (be_bytes 16 0xeff49111acf4fddbcc0301480e359de6))
    && (bytes_eq (take 16 pk.y) (be_bytes 16 0xdc809c49652aeb6d63329abf5a52155c)
        && bytes_eq (drop 16 pk.y) (be_bytes 16 0x766345c28fed3024741c8ed01589d28b))

-- `SecretKey::new`.
unfoldable pub secret_key_new : Rng → ℕ × Rng
secret_key_new rng = (rng.scalars rng.drawn, record rng { drawn = suc rng.drawn })

-- `Nonce::new`: a nonce of 0 fails the assertion.
unfoldable pub nonce_new : Rng → Run (ℕ × Rng)
nonce_new rng = do
  let n : ℕ = le_value (rng.blocks rng.drawn)
  require (not (n == 0))
  done (n, record rng { drawn = suc rng.drawn })

module _ (p : Primitives) where
  -- `AesCmac::finalize` and `finalize_key`, which also forgets what was fed.
  unfoldable pub finalize : AesCmac → ℕ
  finalize m = be_value 0 (p.aes_cmac m.key m.message)

  unfoldable pub finalize_key : AesCmac → List ℕ × AesCmac
  finalize_key m = (p.aes_cmac m.key m.message, record m { message = [] })

  -- `MacKey::f6`.
  unfoldable pub f6 : List ℕ → ℕ → ℕ → ℕ → IoCap → Addr → Addr → ℕ
  unfolding cmac_new update finalize
  f6 mac_key n1 n2 r io_cap a1 a2 =
      let m = cmac_new mac_key in
      let m = update m (be_bytes 16 n1) in
      let m = update m (be_bytes 16 n2) in
      let m = update m (be_bytes 16 r) in
      let m = update m (io_cap_bytes io_cap) in
      let m = update m a1.bytes in finalize (update m a2.bytes)

  -- `Nonce::f4`.
  unfoldable pub f4 : ℕ → List ℕ → List ℕ → ℕ → ℕ
  unfolding cmac_new update finalize
  f4 nonce u v z =
      let m = cmac_new (key_of nonce) in
      let m = update m u in let m = update m v in finalize (update m (z ∷ []))

  -- `Nonce::g2`: the low 32 bits of the tag, as six decimal digits.
  unfoldable pub g2 : ℕ → List ℕ → List ℕ → ℕ → ℕ
  unfolding cmac_new update finalize
  g2 nonce pkax pkbx nb =
      let m = cmac_new (key_of nonce) in
      let m = update m pkax in
      let m = update m pkbx in finalize (update m (be_bytes 16 nb)) % 2 ^ 32 % 1000000

  -- `SecretKey::public_key`.
  unfoldable pub public_key : ℕ → PublicKey
  public_key secret = let (x, y) = p.public_point secret in record { x = x; y = y }

  -- `SecretKey::dh_key`. A key that is no point of the curve is taken for the local one.
  unfoldable pub dh_key : ℕ → PublicKey → Option (List ℕ)
  dh_key secret pk =
      let (lx, ly) = p.public_point secret in
      let (rx, ry) = if p.is_point pk.x pk.y then (pk.x, pk.y) else (lx, ly) in
      if is_debug pk
      then none
      else if not (bytes_eq rx lx && bytes_eq ry ly)
      then some (p.diffie_hellman secret (rx, ry))
      else none

  -- The closure `half` of `DHKey::f5`.
  unfoldable pub half : AesCmac → ℕ → ℕ → ℕ → Addr → Addr → List ℕ × AesCmac
  unfolding update finalize_key
  half m counter n1 n2 a1 a2 =
      let m = update m (counter ∷ []) in
      let m = update m (0x62 ∷ 0x74 ∷ 0x6c ∷ 0x65 ∷ []) in
      let m = update m (be_bytes 16 n1) in
      let m = update m (be_bytes 16 n2) in
      let m = update m a1.bytes in
      let m = update m a2.bytes in finalize_key (update m (be_bytes 2 256))

  -- `DHKey::f5`: the key for checks, and the long term key.
  unfoldable pub f5 : List ℕ → ℕ → ℕ → Addr → Addr → List ℕ × ℕ
  unfolding cmac_new update finalize_key half
  f5 shared n1 n2 a1 a2 =
      let (t, _) =
        finalize_key (update (cmac_new (key_of 0x6C888391AAF5A53860370BDB5A6083BE)) shared) in
      let (mac_key, m) = half (cmac_new t) 0 n1 n2 a1 a2 in
      let (ltk, _) = half m 1 n1 n2 a1 a2 in (mac_key, key_value ltk)

-- What the code relies on in the other crates: coordinates of 32 bytes, the points of secret scalars
-- on the curve, and a secret that two parties share.
pub record IsReliable (p : Primitives) : Type 0 where
  pub x_size : (secret : ℕ) → length ((p.public_point secret).0) ≡ 32
  pub y_size : (secret : ℕ) → length ((p.public_point secret).1) ≡ 32
  pub on_curve :
      (secret : ℕ) → p.is_point (p.public_point secret).0 (p.public_point secret).1 ≡ true
  pub shared_secret :
      (a b : ℕ) → p.diffie_hellman a (p.public_point b) ≡ p.diffie_hellman b (p.public_point a)
