-- ===== src/Sm/Pairing.antt =====
-- A whole pairing: the messages of bleps/src/sm.rs with a peer that follows the specification.
use bleps.Common.{
  ℕ, ◌<◌, ◌≡◌, refl, ◌∙◌, false, not, some, List, [], ◌∷◌, ◌++◌, append_assoc, Run, done, ◌>>=◌, ok,
  err, ◌==◌, le_bytes, byte_cap,
}
use bleps.Data.{Data}
use bleps.Data.Buffer.{Represents}
use bleps.Event.{Addr}
use bleps.Crypto.{Primitives, IsReliable, IoCap, PublicKey, f4, f5, f6, g2, public_key, is_debug}
use bleps.Crypto.Agreement.{same_point, dh_key-agree}
use bleps.Sm.{World, Answer, handle, displayed}
use bleps.Sm.Steps.{
  own_secret, own_nonce, own_key, keyed, code_of, authenticated, own_io_cap, confirm_value,
  handle_lem, public_key_lem, random_lem, check_lem,
}
use bleps.Sm.Replies.{sm_frame, said, key_bytes, request_lem}

-- The messages of a peer, in the order in which they come; an error ends the pairing.
unfoldable pub converse : {S : Type 0} → Primitives → World S → ℕ → List Data → Run (Answer S)
converse p w src_handle [] = done (ok tt, w)
converse p w src_handle (message ∷ messages) = handle p w src_handle message >>= λ answer.
    elim answer.0 [
      | ok _ ↦ converse p answer.1 src_handle messages
      | err e ↦ done (err e, answer.1)
    ]

-- The peer's part: its secret and nonce, and the capabilities that it announces.
pub record Peer : Type 0 where
  pub secret : ℕ
  pub nonce : ℕ
  pub io : ℕ
  pub oob : ℕ
  pub auth : ℕ
  pub features : List ℕ

-- What the peer computes by the specification from the device's key and nonce, with its own address
-- `a` and the device's `b`.
module _ (p : Primitives) (peer : Peer) (key : PublicKey) (nonce : ℕ) (a b : Addr) where
  abbrev pub peer_keys : List ℕ × ℕ
  peer_keys = f5 p (p.diffie_hellman peer.secret (key.x, key.y)) peer.nonce nonce a b

  abbrev pub peer_ltk : ℕ
  peer_ltk = peer_keys.1

  abbrev pub peer_io_cap : IoCap
  peer_io_cap = record { auth_req = peer.auth; oob_data = not (peer.oob == 0); io_cap = peer.io }

  -- The check value that the peer sends, the one that it expects, and the code that it shows.
  abbrev pub peer_check : ℕ
  peer_check = f6 p peer_keys.0 peer.nonce nonce 0 peer_io_cap a b

  abbrev pub expected_check : ℕ
  expected_check = f6 p peer_keys.0 nonce peer.nonce 0 own_io_cap b a

  abbrev pub expected_confirm : ℕ
  expected_confirm = f4 p nonce key.x (public_key p peer.secret).x 0

  abbrev pub peer_code : ℕ
  peer_code = g2 p peer.nonce (public_key p peer.secret).x key.x nonce

  -- The four messages.
  abbrev pub request_pdu : List ℕ
  request_pdu = 0x01 ∷ peer.io ∷ peer.oob ∷ peer.auth ∷ peer.features

  abbrev pub key_pdu : List ℕ
  key_pdu = 0x0c ∷ key_bytes (public_key p peer.secret)

  abbrev pub random_pdu : List ℕ
  random_pdu = 0x04 ∷ le_bytes 16 peer.nonce

  abbrev pub check_pdu : List ℕ
  check_pdu = 0x0d ∷ le_bytes 16 peer_check

  -- The five answers that the peer expects.
  abbrev pub answers : ℕ → List ℕ
  answers handle =
      sm_frame handle (0x02 ∷ 0x01 ∷ 0x00 ∷ 0x2d ∷ 0x10 ∷ 0x00 ∷ 0x00 ∷ [])
      ++ (sm_frame handle (0x0c ∷ key_bytes key)
          ++ (sm_frame handle (0x03 ∷ le_bytes 16 expected_confirm)
              ++ (sm_frame handle (0x04 ∷ le_bytes 16 nonce)
                  ++ sm_frame handle (0x0d ∷ le_bytes 16 expected_check))))

-- A message that is answered leaves the rest of them to the state after it.
pub converse_next :
    {S : Type 0} (p : Primitives) (w w' : World S) (src_handle : ℕ) (message : Data)
    (messages : List Data)
    → handle p w src_handle message ≡ done (ok tt, w')
    → converse p w src_handle (message ∷ messages) ≡ converse p w' src_handle messages
unfolding converse
converse_next p w w' src_handle message messages e = rw e refl

module _ {S : Type 0} (p : Primitives) (reliable : IsReliable p) (peer : Peer) (w : World S)
    (src_handle : ℕ) (a b : Addr) where
  -- A device whose addresses are known, before the pairing.
  abbrev pub connected : World S
  connected = record w {
    manager = record w.manager { peer_address = some a; local_address = some b };
  }

  -- The device after each of the four messages.
  abbrev after_request : World S
  after_request =
      let ioa : IoCap = peer_io_cap p peer (own_key p connected) (own_nonce p connected) a b in
      said (record connected { manager = record connected.manager { ioa = some ioa } }) src_handle
        (0x02 ∷ 0x01 ∷ 0x00 ∷ 0x2d ∷ 0x10 ∷ 0x00 ∷ 0x00 ∷ [])

  abbrev shared : List ℕ
  shared = p.diffie_hellman peer.secret (p.public_point (own_secret p connected))

  abbrev after_key : World S
  after_key =
      let pka = public_key p peer.secret in
      said
        (said (record after_request { manager = keyed p after_request pka shared }) src_handle
          (0x0c ∷ key_bytes (own_key p connected)))
        src_handle (0x03 ∷ le_bytes 16 (confirm_value p connected pka))

  abbrev after_random : World S
  after_random =
      let nb = own_nonce p connected in
      record (said after_key src_handle (0x04 ∷ le_bytes 16 nb)) {
        app =
            displayed p w
              (code_of p w peer.nonce nb (public_key p peer.secret) (own_key p connected));
        manager = authenticated p w after_key.manager peer.nonce nb shared a b;
      }

  abbrev after_check : World S
  after_check =
      said after_random src_handle (
        0x0d
        ∷ le_bytes 16 (expected_check p peer (own_key p connected) (own_nonce p connected) a b))

  abbrev pub request_bytes : List ℕ
  request_bytes = request_pdu p peer (own_key p connected) (own_nonce p connected) a b

  abbrev pub key_message : List ℕ
  key_message = key_pdu p peer (own_key p connected) (own_nonce p connected) a b

  abbrev pub random_bytes : List ℕ
  random_bytes = random_pdu p peer (own_key p connected) (own_nonce p connected) a b

  abbrev pub check_bytes : List ℕ
  check_bytes = check_pdu p peer (own_key p connected) (own_nonce p connected) a b

  request_step :
      {d : Data} (messages : List Data)
      → Represents d request_bytes
      → converse p connected src_handle (d ∷ messages)
        ≡ converse p after_request src_handle messages
  request_step {d} messages r = converse_next p connected after_request src_handle d messages (
      rw
        (
          handle_lem p connected src_handle r,
          request_lem connected src_handle peer.io peer.oob peer.auth peer.features,
        )
        refl)

  key_step :
      {d : Data} (messages : List Data)
      → Represents d key_message
      → (own_nonce p connected == 0) ≡ false
      → is_debug (public_key p peer.secret) ≡ false
      → same_point (p.public_point peer.secret) (p.public_point (own_secret p connected)) ≡ false
      → converse p after_request src_handle (d ∷ messages)
        ≡ converse p after_key src_handle messages
  unfolding public_key
  key_step {d} messages r fresh fine other =
      let pka = public_key p peer.secret in
      let dh = dh_key-agree p reliable peer.secret (own_secret p connected) fine other in
      converse_next p after_request after_key src_handle d messages (
        rw (handle_lem p after_request src_handle r) (
          public_key_lem p reliable after_request src_handle pka shared
            (reliable.x_size peer.secret) (reliable.y_size peer.secret) dh fresh))

  random_step :
      {d : Data} (messages : List Data)
      → Represents d random_bytes
      → peer.nonce < byte_cap 16
      → converse p after_key src_handle (d ∷ messages) ≡ converse p after_random src_handle messages
  unfolding displayed
  random_step {d} messages r small =
      let pka = public_key p peer.secret in
      converse_next p after_key after_random src_handle d messages (
        rw (handle_lem p after_key src_handle r) (
          random_lem p reliable after_key src_handle peer.nonce (own_nonce p connected) pka
            (own_key p connected) shared a b small))

  check_step :
      {d : Data} (messages : List Data)
      → Represents d check_bytes
      → converse p after_random src_handle (d ∷ messages)
        ≡ converse p after_check src_handle messages
  unfolding public_key
  check_step {d} messages r =
      let ioa = peer_io_cap p peer (own_key p connected) (own_nonce p connected) a b in
      let ea = le_bytes 16 (peer_check p peer (own_key p connected) (own_nonce p connected) a b) in
      let eb = expected_check p peer (own_key p connected) (own_nonce p connected) a b in
      let mac_key = (peer_keys p peer (own_key p connected) (own_nonce p connected) a b).0 in
      converse_next p after_random after_check src_handle d messages (
        rw (handle_lem p after_random src_handle r) (
          check_lem p reliable after_random src_handle peer.nonce (own_nonce p connected) eb mac_key
            ea ioa a b))

  -- The pairing of a device, whose addresses are known, with a peer that follows the specification
  -- and does not use the debug key. When the generator gives a nonce other than 0 and a key that is
  -- not the peer's, and the curve is reliable, the device sends the five answers that the peer
  -- expects, with the check value that the peer computes, shows the peer's code, and ends with the
  -- long term key that the peer computes.
  pub pairing_agrees :
      {request key random check : Data}
      → Represents request request_bytes
      → Represents key key_message
      → Represents random random_bytes
      → Represents check check_bytes
      → peer.nonce < byte_cap 16
      → (own_nonce p connected == 0) ≡ false
      → is_debug (public_key p peer.secret) ≡ false
      → same_point (p.public_point peer.secret) (p.public_point (own_secret p connected)) ≡ false
      → (w' : World S) × (converse p connected src_handle (request ∷ key ∷ random ∷ check ∷ [])
          ≡ done (ok tt, w'))
        × (w'.manager.ltk
            ≡ some (peer_ltk p peer (own_key p connected) (own_nonce p connected) a b))
        × (w'.hci.written
            ≡ w.hci.written
              ++ answers p peer (own_key p connected) (own_nonce p connected) a b src_handle)
        × (w'.app
            ≡ displayed p w (peer_code p peer (own_key p connected) (own_nonce p connected) a b))
  unfolding public_key converse displayed
  pairing_agrees {request} {key} {random} {check} rq rk rr rc small fresh fine other = (
    after_check,
    request_step (key ∷ random ∷ check ∷ []) rq
        ∙ (key_step (random ∷ check ∷ []) rk fresh fine other
            ∙ (random_step (check ∷ []) rr small ∙ check_step [] rc)),
    refl,
    rw (append_assoc, append_assoc, append_assoc, append_assoc) refl,
    refl,
  )
