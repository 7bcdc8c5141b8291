-- ===== src/Sm/Handlers.antt =====
-- The handlers of bleps/src/sm.rs (205-450).
use bleps.Common.{
  ℕ, false, not, none, some, List, [], ◌∷◌, Run, done, ◌>>=◌, ◌>>◌, require, unwrap, Result, ok,
  err, ◌==◌, if◌then◌else◌, length, le_bytes, le_value,
}
use mathlib.Core.List.{reverse}
use bleps.Data
use bleps.Data.{Data, as_slice, index, slice_from, append, append_u8}
use bleps.Hci.{write_bytes}
use bleps.Acl
use bleps.L2cap
use bleps.Crypto.{
  Primitives, IoCap, public_key_from_bytes, secret_key_new, nonce_new, f4, f5, f6, g2, public_key,
  dh_key,
}
use bleps.Server.{AttributeServerError, security_manager_error}
use bleps.Sm.State.{
  SecurityManagerError, sm_error_byte, unspecified_reason, command_not_supported,
  io_capability_byte, display_yes_no, oob_data_flag_byte, not_present, make_auth_req,
  sm_pairing_request, sm_pairing_response, sm_pairing_confirm, sm_pairing_random, sm_pairing_failed,
  sm_pairing_public_key, sm_pairing_dhkey_check, World, is_none,
}

abbrev pub Answer : Type 0 → Type 0
Answer S = Result {0, 0} AttributeServerError (Unit {0}) × World S

module _ {S : Type 0} where
  unfoldable pub write_sm : World S → ℕ → Data → Run (World S)
  write_sm w handle d = do
    res ← L2cap.encode_sm d
    res ← Acl.encode handle Acl.first_auto_flushable Acl.no_broadcast res
    bytes ← as_slice res
    (_, hci) ← write_bytes bytes w.hci
    done (record w { hci = hci })

  unfoldable pub report_error : World S → ℕ → SecurityManagerError → Run (World S)
  report_error w src_handle error = do
    d ← Data.new (sm_pairing_failed ∷ [])
    d ← append d (sm_error_byte error ∷ [])
    write_sm w src_handle d

  -- `self.report_error(…).await; return Err(AttributeServerError::SecurityManagerError);`
  unfoldable pub refuse : World S → ℕ → SecurityManagerError → Run (Answer S)
  refuse w src_handle error = do
    w ← report_error w src_handle error
    done (err security_manager_error, w)

  unfoldable pub handle_pairing_request : World S → ℕ → List ℕ → Run (World S)
  handle_pairing_request w src_handle bytes = do
    auth ← index bytes 2
    oob ← index bytes 1
    io ← index bytes 0
    let io_cap : IoCap = record { auth_req = auth; oob_data = not (oob == 0); io_cap = io }
    let w = record w { manager = record w.manager { ioa = some io_cap } }
    d ← Data.new (sm_pairing_response ∷ [])
    d ← append_u8 d (io_capability_byte display_yes_no)
    d ← append_u8 d (oob_data_flag_byte not_present)
    d ← append_u8 d make_auth_req
    d ← append_u8 d 0x10
    d ← append_u8 d 0
    d ← append_u8 d 0
    write_sm w src_handle d

module _ {S : Type 0} (p : Primitives) where
  unfoldable pub handle_pairing_public_key : World S → ℕ → List ℕ → Run (Answer S)
  handle_pairing_public_key w src_handle bytes = do
    pka ← public_key_from_bytes bytes
    d ← Data.new (sm_pairing_public_key ∷ [])
    let (skb, rng) = secret_key_new w.manager.rng
    let pkb = public_key p skb
    d ← append d (reverse pkb.x)
    d ← append d (reverse pkb.y)
    w ← write_sm (record w { manager = record w.manager { rng = rng } }) src_handle d
    elim (dh_key p skb pka) [
      | none ↦ done (err security_manager_error, w)
      | some shared ↦ do
        (nb, rng) ← nonce_new w.manager.rng
        let cb = f4 p nb pkb.x pka.x 0
        d ← Data.new (sm_pairing_confirm ∷ [])
        d ← append d (le_bytes 16 cb)
        w ← write_sm w src_handle d
        done (
          ok tt,
          record w {
            manager = record w.manager {
              pka = some pka;
              pkb = some pkb;
              skb = some skb;
              confirm = some cb;
              nb = some nb;
              shared = some shared;
              rng = rng;
            };
          },
        )
    ]

  -- `if let Some(pin_callback) = pin_callback { pin_callback(vb.0); }`
  unfoldable pub displayed : World S → ℕ → S
  displayed w code = elim w.pin_callback [ none ↦ w.app | some callback ↦ callback code w.app ]

  -- `handle_pairing_random` past its guards.
  unfoldable pub answer_random : World S → ℕ → List ℕ → Run (Answer S)
  answer_random w src_handle random = do
    d ← Data.new (sm_pairing_random ∷ [])
    nb ← unwrap w.manager.nb
    d ← append d (le_bytes 16 nb)
    w ← write_sm w src_handle d
    require (length random == 16)
    let na : ℕ = le_value random
    pka ← unwrap w.manager.pka
    pkb ← unwrap w.manager.pkb
    let w = record w { app = displayed w (g2 p na pka.x pkb.x nb) }
    a ← unwrap w.manager.peer_address
    b ← unwrap w.manager.local_address
    let iob : IoCap = record {
      auth_req = make_auth_req;
      oob_data = false;
      io_cap = io_capability_byte display_yes_no;
    }
    shared ← unwrap w.manager.shared
    let (mac_key, ltk) = f5 p shared na nb a b
    let eb = f6 p mac_key nb na 0 iob b a
    done (
      ok tt,
      record w {
        manager = record w.manager {
          na = some na;
          mac_key = some mac_key;
          ltk = some ltk;
          eb = some eb;
        };
      },
    )

  unfoldable pub handle_pairing_random : World S → ℕ → List ℕ → Run (Answer S)
  handle_pairing_random w src_handle random =
      if is_none w.manager.nb
      then refuse w src_handle unspecified_reason
      else if is_none w.manager.pka
      then refuse w src_handle unspecified_reason
      else if is_none w.manager.pkb
      then refuse w src_handle unspecified_reason
      else if is_none w.manager.peer_address
      then refuse w src_handle unspecified_reason
      else if is_none w.manager.local_address
      then refuse w src_handle unspecified_reason
      else answer_random w src_handle random

  -- The comparison of `ea` with the expected value only logs.
  unfoldable pub answer_check : World S → ℕ → List ℕ → Run (Answer S)
  answer_check w src_handle ea = do
    mac_key ← unwrap w.manager.mac_key
    na ← unwrap w.manager.na
    nb ← unwrap w.manager.nb
    ioa ← unwrap w.manager.ioa
    a ← unwrap w.manager.peer_address
    b ← unwrap w.manager.local_address
    let expected : List ℕ = le_bytes 16 (f6 p mac_key na nb 0 ioa a b)
    d ← Data.new (sm_pairing_dhkey_check ∷ [])
    eb ← unwrap w.manager.eb
    d ← append d (le_bytes 16 eb)
    w ← write_sm w src_handle d
    done (ok tt, w)

  unfoldable pub handle_pairing_dhkey_check : World S → ℕ → List ℕ → Run (Answer S)
  handle_pairing_dhkey_check w src_handle ea =
      if is_none w.manager.na
      then refuse w src_handle unspecified_reason
      else if is_none w.manager.nb
      then refuse w src_handle unspecified_reason
      else if is_none w.manager.ioa
      then refuse w src_handle unspecified_reason
      else if is_none w.manager.peer_address
      then refuse w src_handle unspecified_reason
      else if is_none w.manager.local_address
      then refuse w src_handle unspecified_reason
      else answer_check w src_handle ea

  unfoldable pub handle : World S → ℕ → Data → Run (Answer S)
  handle w src_handle payload = do
    bytes ← as_slice payload
    rest ← slice_from bytes 1
    command ← index bytes 0
    if command == sm_pairing_request
        then (do w ← handle_pairing_request w src_handle rest; done (ok tt, w))
        else if command == sm_pairing_public_key
        then handle_pairing_public_key w src_handle rest
        else if command == sm_pairing_random
        then handle_pairing_random w src_handle rest
        else if command == sm_pairing_dhkey_check
        then handle_pairing_dhkey_check w src_handle rest
        else refuse w src_handle command_not_supported
