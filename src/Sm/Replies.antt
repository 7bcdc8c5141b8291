-- ===== src/Sm/Replies.antt =====
-- What the security manager of bleps/src/sm.rs (239-252, 428-449) puts on the wire, and the keys that
-- it reads.
use bleps.Common.{
  ℕ, ◌+◌, ◌≤◌, ◌≡◌, refl, not, some, List, [], ◌∷◌, ◌++◌, arith, length, length-append, take-append,
  drop-append, reverse-reverse, done, err, ◌==◌, length-reverse,
}
use mathlib.Core.List.{reverse}
use bleps.Data.{Data, capacity, index}
use bleps.Data.Buffer.{
  Represents, new-Represents, append-Represents, append_u8-Represents, as_slice-Represents,
  slice_from_lem, slice_to_lem,
}
use bleps.Acl.{first_auto_flushable, no_broadcast, packet_type_async_data}
use bleps.Acl.RoundTrip as Acl
use bleps.Acl.RoundTrip.{acl_bytes}
use bleps.L2cap.{sm_channel}
use bleps.L2cap.RoundTrip.{l2cap_bytes, encode_sm-Represents}
use bleps.Server.{security_manager_error}
use bleps.Hci.Writes.{write_bytes_lem}
use bleps.Crypto.{IoCap, PublicKey, public_key_from_bytes}
use bleps.Sm.{
  SecurityManagerError, World, write_sm, report_error, refuse, handle, handle_pairing_request,
  sm_error_byte, make_auth_req, io_capability_byte, oob_data_flag_byte,
}

-- A message of the security manager on the wire.
abbrev pub sm_frame : ℕ → List ℕ → List ℕ
sm_frame handle pdu =
    packet_type_async_data
    ∷ acl_bytes handle first_auto_flushable no_broadcast (l2cap_bytes sm_channel pdu)

module _ {S : Type 0} where
  abbrev pub said : World S → ℕ → List ℕ → World S
  said w handle pdu = record w {
    hci = record w.hci { written = w.hci.written ++ sm_frame handle pdu };
  }

  pub write_sm_lem :
      {d : Data} {pdu : List ℕ} (w : World S) (handle : ℕ)
      → Represents d pdu
      → length pdu + 9 ≤ capacity
      → write_sm w handle d ≡ done (said w handle pdu)
  unfolding write_sm
  write_sm_lem {d} {pdu} w handle r h =
      let (l, el, rl) = encode_sm-Represents r (omega arith) in
      let (a, ea, ra) =
        Acl.encode-Represents handle first_auto_flushable no_broadcast rl (omega arith) in
      rw (el, ea, as_slice-Represents ra, write_bytes_lem (sm_frame handle pdu) w.hci)

  pub refuse_lem :
      (w : World S) (src_handle : ℕ) (error : SecurityManagerError)
      → refuse w src_handle error
        ≡ done (err security_manager_error, said w src_handle (0x05 ∷ sm_error_byte error ∷ []))
  unfolding refuse report_error
  refuse_lem w src_handle error =
      let (d, e, r) = new-Represents (0x05 ∷ []) (omega arith) in
      let (d', e', r') = append-Represents (sm_error_byte error ∷ []) r (omega arith) in
      rw (e, e', write_sm_lem w src_handle r' (omega arith)) refl

  -- The features that a peer sends are kept, and answered with the device's own.
  pub request_lem :
      (w : World S) (src_handle io oob auth : ℕ) (rest : List ℕ)
      → let ioa : IoCap = record { auth_req = auth; oob_data = not (oob == 0); io_cap = io } in
        handle_pairing_request w src_handle (io ∷ oob ∷ auth ∷ rest)
        ≡ done (
            said
              (record w { manager = record w.manager { ioa = some ioa } })
              src_handle
              (0x02 ∷ 0x01 ∷ 0x00 ∷ 0x2d ∷ 0x10 ∷ 0x00 ∷ 0x00 ∷ []))
  unfolding handle_pairing_request index io_capability_byte oob_data_flag_byte make_auth_req
  request_lem w src_handle io oob auth rest =
      let (d₀, e₀, r₀) = new-Represents (0x02 ∷ []) (omega arith) in
      let (d₁, e₁, r₁) = append_u8-Represents 0x01 r₀ (omega arith) in
      let (d₂, e₂, r₂) = append_u8-Represents 0x00 r₁ (omega arith) in
      let (d₃, e₃, r₃) = append_u8-Represents 0x2d r₂ (omega arith) in
      let (d₄, e₄, r₄) = append_u8-Represents 0x10 r₃ (omega arith) in
      let (d₅, e₅, r₅) = append_u8-Represents 0x00 r₄ (omega arith) in
      let (d₆, e₆, r₆) = append_u8-Represents 0x00 r₅ (omega arith) in
      let ioa : IoCap = record { auth_req = auth; oob_data = not (oob == 0); io_cap = io } in
      rw (e₀, e₁, e₂, e₃, e₄, e₅, e₆)
        (write_sm_lem (record w { manager = record w.manager { ioa = some ioa } }) src_handle r₆
          (omega arith))

-- A public key as a peer sends it.
abbrev pub key_bytes : PublicKey → List ℕ
key_bytes pk = reverse pk.x ++ reverse pk.y

pub public_key_from_bytes_lem :
    (pk : PublicKey)
    → length pk.x ≡ 32
    → length pk.y ≡ 32
    → public_key_from_bytes (key_bytes pk) ≡ done pk
unfolding public_key_from_bytes
public_key_from_bytes_lem pk hx hy =
    let nx = length-reverse pk.x in
    let ny = length-reverse pk.y in
    let size = length-append (reverse pk.x) (reverse pk.y) in
    rw
      (
        slice_to_lem (key_bytes pk) 32 (omega (arith, nx, ny, size)),
        slice_from_lem (key_bytes pk) 32 (omega (arith, nx, ny, size)),
        take-append 32 (reverse pk.x) (reverse pk.y) (omega (arith, nx)),
        drop-append 32 (reverse pk.x) (reverse pk.y) (omega (arith, nx)),
        ny,
        hy,
        reverse-reverse pk.x,
        reverse-reverse pk.y,
      )
      refl
