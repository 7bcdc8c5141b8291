-- ===== src/Ble/Reassembly.antt =====
-- `poll` of bleps/src/lib.rs puts the fragments of an L2CAP packet together again.
use bleps.Common.{
  false, subst, ℕ, zero, suc, ◌+◌, ◌-◌, ◌≤◌, ◌<◌, ◌≡◌, ap, ◌∙◌, Option, some, List, [], ◌∷◌, ◌++◌,
  append_assoc, append-nil, map, arith, length, length-map, length-append, done, ◌==◌, All,
  low_byte, high_byte, u16_of-bytes, ==_refl,
}
use mathlib.Core.List.{map-append}
use bleps.Data.{Data, capacity, index}
use bleps.Data.Buffer.{
  Represents, append-Represents, as_slice-Represents, checked_sub_lem, slice_to_lem,
}
use bleps.Acl.{AclPacket, BoundaryFlag, HostBroadcastFlag}
use bleps.Acl.RoundTrip.{acl_bytes, mirrored}
use bleps.L2cap.RoundTrip.{l2cap_bytes}
use bleps.Acl.Read as Acl
use bleps.Acl.Read.Laws.{read_lem}
use bleps.Hci
use bleps.Hci.{Hci, M, ◌>>=◌, lift, pure}
use bleps.Hci.Reads.{delivering}
use bleps.Ble.{
  async_data, join, wanted_of, reassemble, read_acl_packet, poll_packet, poll,
  packet_type_async_data,
}

-- One ACL packet of a fragmented L2CAP packet.
pub record Fragment : Type 0 where
  pub handle : ℕ
  pub pb : BoundaryFlag
  pub bc : HostBroadcastFlag
  pub bytes : List ℕ

-- Packets that carry something, and whose header fits.
pub record IsSent (f : Fragment) : Type 0 where
  pub handle_fits : f.handle < 4096
  pub fits : length f.bytes ≤ capacity
  pub carries : 1 ≤ length f.bytes

abbrev pub fragment_bytes : Fragment → List ℕ
fragment_bytes f = packet_type_async_data ∷ acl_bytes f.handle f.pb f.bc f.bytes

-- The bytes of a series of ACL packets, and what they carry.
abbrev pub stream : List Fragment → List ℕ
stream [] = []
stream (f ∷ fs) = fragment_bytes f ++ stream fs

abbrev pub carried : List Fragment → List ℕ
carried [] = []
carried (f ∷ fs) = f.bytes ++ carried fs

join_lem :
    (packet next : AclPacket) {xs ys : List ℕ}
    → Represents packet.payload xs
    → Represents next.payload ys
    → length xs + length ys ≤ capacity
    → (d : Data) × (join packet next ≡ done (record packet { payload = d }))
      × Represents d (xs ++ ys)
unfolding join
join_lem packet next {xs} {ys} rx ry h =
    let (d, e, r) = append-Represents ys rx h in (d, rw (as_slice-Represents ry, e), r)

delivering-append :
    (xs ys : List ℕ) (rest : List (Option ℕ)) (h : Hci)
    → delivering (xs ++ ys) rest h ≡ delivering xs (map some ys ++ rest) h
delivering-append xs ys rest h =
    ap (λ (rs : List (Option ℕ)). record h { reads = rs })
      (rw (map-append some xs ys, append_assoc (map some xs) (map some ys) rest))

reassemble_stops :
    (fuel wanted : ℕ) (packet : AclPacket) (h : Hci)
    → packet.payload.len ≡ wanted + 4
    → reassemble (suc fuel) wanted packet h ≡ done (packet, h)
unfolding reassemble
reassemble_stops fuel wanted packet h e =
    rw (checked_sub_lem packet.payload.len 4 wanted e, ==_refl wanted)

reassemble_goes_on :
    (fuel wanted : ℕ) (packet next joined : AclPacket) (have : ℕ) (h h₁ h₂ : Hci) (t : Option ℕ)
    → packet.payload.len ≡ have + 4
    → (wanted == have) ≡ false
    → Hci.read h ≡ done (t, h₁)
    → Acl.read h₁ ≡ done (next, h₂)
    → join packet next ≡ done joined
    → reassemble (suc fuel) wanted packet h ≡ reassemble fuel wanted joined h₂
unfolding reassemble
reassemble_goes_on fuel wanted packet next joined have h h₁ h₂ t e ne r₁ r₂ j =
    rw (checked_sub_lem packet.payload.len 4 have e, ne, ◌>>=◌, r₁, r₂, j)

first_read_lem :
    (f : Fragment) (fs : List Fragment) (rest : List (Option ℕ)) (h : Hci)
    → Hci.read (delivering (stream (f ∷ fs)) rest h)
      ≡ done (
        some packet_type_async_data,
        delivering (acl_bytes f.handle f.pb f.bc f.bytes) (map some (stream fs) ++ rest) h,
      )
unfolding Hci.read
first_read_lem f fs rest h =
    ap (λ (s : Hci). done (some packet_type_async_data, s))
      (delivering-append (acl_bytes f.handle f.pb f.bc f.bytes) (stream fs) rest h)

-- The loop appends fragments until the packet is as long as its header says.
reassemble_lem :
    (fs : List Fragment) (fuel wanted : ℕ) (packet : AclPacket) (xs : List ℕ)
    (rest : List (Option ℕ)) (h : Hci)
    → length fs < fuel
    → All IsSent fs
    → Represents packet.payload xs
    → 4 ≤ length xs
    → length (xs ++ carried fs) ≡ wanted + 4
    → length (xs ++ carried fs) ≤ capacity
    → (d : Data) × (reassemble fuel wanted packet (delivering (stream fs) rest h)
        ≡ done (record packet { payload = d }, record h { reads = rest }))
      × Represents d (xs ++ carried fs)
unfolding reassemble
reassemble_lem fs zero wanted packet xs rest h lt sent r four total fits = absurd (omega arith)
reassemble_lem [] (suc fuel) wanted packet xs rest h lt sent r four total fits = (
  packet.payload,
  reassemble_stops fuel wanted packet (record h { reads = rest })
      (omega (arith, r.size, ap (λ (l : List ℕ). length l) (append-nil xs))),
  rw append-nil r,
)
reassemble_lem (f ∷ fs) (suc fuel) wanted packet xs rest h lt (s, sent) r four total fits =
    let (d₁, e₁, r₁) =
      read_lem f.handle f.pb f.bc f.bytes (map some (stream fs) ++ rest) h s.handle_fits s.fits in
    let next : AclPacket = record {
      handle = f.handle;
      boundary_flag = f.pb;
      bc_flag = mirrored f.bc;
      payload = d₁;
    } in
    let (d₂, e₂, r₂) = join_lem packet next r r₁ (omega (arith, sizes)) in
    let (d, e, rd) =
      reassemble_lem fs fuel wanted (record packet { payload = d₂ }) (xs ++ f.bytes) rest h
        (omega arith) sent r₂ (omega (arith, length-append xs f.bytes)) (omega (arith, same))
        (omega (arith, same)) in
    (
      d,
      reassemble_goes_on fuel wanted packet next (record packet { payload = d₂ }) (length xs - 4)
            (delivering (stream (f ∷ fs)) rest h) _ _ _ (omega (arith, r.size))
            (ground (arith, sizes)) (first_read_lem f fs rest h) e₁ e₂
          ∙ e,
      subst (λ (l : List ℕ). Represents d l) (append_assoc xs f.bytes (carried fs)) rd,
    )
  where
    sizes : length (xs ++ carried (f ∷ fs)) ≡ length xs + (length f.bytes + length (carried fs))
    sizes = omega (arith, length-append xs (carried (f ∷ fs)), length-append f.bytes (carried fs))

    same : length ((xs ++ f.bytes) ++ carried fs) ≡ length (xs ++ carried (f ∷ fs))
    same = ap (λ (l : List ℕ). length l) (append_assoc xs f.bytes (carried fs))

fragments_short : (fs : List Fragment) → length fs ≤ length (stream fs)
fragments_short [] = omega arith
fragments_short (f ∷ fs) =
    omega (arith, fragments_short fs, length-append (fragment_bytes f) (stream fs))

-- A first fragment with the length bytes of the L2CAP packet tells its length.
wanted_of_lem :
    (packet : AclPacket) (first more payload : List ℕ) (channel : ℕ)
    → Represents packet.payload first
    → 2 ≤ length first
    → first ++ more ≡ l2cap_bytes channel payload
    → length payload ≤ capacity
    → wanted_of packet ≡ done (length payload)
unfolding wanted_of index
wanted_of_lem packet [] more payload channel r two e fits = absurd (omega arith)
wanted_of_lem packet (a ∷ []) more payload channel r two e fits = absurd (omega arith)
wanted_of_lem packet (a ∷ b ∷ t) more payload channel r two e fits = rw (
  as_slice-Represents r,
  slice_to_lem (a ∷ b ∷ t) 2 (omega arith),
  lo,
  hi,
  u16_of-bytes (length payload) (omega arith),
)
  where
    lo : a ≡ low_byte (length payload)
    lo = cc e

    hi : b ≡ high_byte (length payload)
    hi = cc e

-- `poll` on the ACL fragments of one L2CAP packet, each non-empty and the first with the L2CAP
-- header, returns one ACL packet with the handle of the first fragment and the whole L2CAP packet
-- in its buffer, for a payload of at most 252 bytes; it takes nothing that follows.
pub poll_reassembles :
    (f : Fragment) (fs : List Fragment) (channel : ℕ) (payload : List ℕ) (rest : List (Option ℕ))
    (h : Hci)
    → IsSent f
    → All IsSent fs
    → 4 ≤ length f.bytes
    → carried (f ∷ fs) ≡ l2cap_bytes channel payload
    → length payload + 4 ≤ capacity
    → (d : Data) × (poll (delivering (stream (f ∷ fs)) rest h)
        ≡ done (
          some (
              async_data (record {
                handle = f.handle;
                boundary_flag = f.pb;
                bc_flag = mirrored f.bc;
                payload = d;
              })),
          record h { reads = rest },
        ))
      × Represents d (l2cap_bytes channel payload)
unfolding poll poll_packet read_acl_packet
poll_reassembles f fs channel payload rest h s sent four whole fits =
    let (d₁, e₁, r₁) =
      read_lem f.handle f.pb f.bc f.bytes (map some (stream fs) ++ rest) h s.handle_fits s.fits in
    let packet : AclPacket = record {
      handle = f.handle;
      boundary_flag = f.pb;
      bc_flag = mirrored f.bc;
      payload = d₁;
    } in
    let w =
      wanted_of_lem packet f.bytes (carried fs) payload channel r₁ (omega arith) whole
        (omega arith) in
    let (d, e, r) =
      reassemble_lem fs (suc (length (map some (stream fs) ++ rest))) (length payload) packet
        f.bytes rest h enough sent r₁ four (omega (arith, size)) (omega (arith, size)) in
    (
      d,
      rw (◌>>=◌, first_read_lem f fs rest h, e₁, w, e),
      subst (λ (l : List ℕ). Represents d l) whole r,
    )
  where
    enough : length fs < suc (length (map some (stream fs) ++ rest))
    enough = omega (
      arith,
      fragments_short fs,
      length-append (map some (stream fs)) rest,
      length-map (stream fs) some,
    )

    size : length (carried (f ∷ fs)) ≡ 4 + length payload
    size = ap (λ (l : List ℕ). length l) whole ∙ omega arith
