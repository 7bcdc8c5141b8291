-- ===== src/Acl/RoundTrip.antt =====
-- What `AclPacket::encode` writes, and that `decode_raw_handle` reads its header back.
use bleps.Common.{
  ℕ, ◌+◌, ◌*◌, ◌≤◌, ◌<◌, ◌≡◌, List, [], ◌∷◌, ◌++◌, arith, bit_or_disjoint, length, done, Returns,
  u16_le, u16_of, low_byte, high_byte, ap,
}
use bleps.Data.{Data, capacity, append}
use bleps.Data.Buffer.{Represents, append-Represents, new-then, append-then, as_slice-then}
use bleps.Acl.{
  BoundaryFlag, ControllerBroadcastFlag, HostBroadcastFlag, encode, raw_handle_of, boundary_bits,
  host_bits, field, decode_raw_handle, boundary_flag_of, bc_flag_of, packet_type_async_data,
  first_non_auto_flushable, continuing, first_auto_flushable, complete, no_broadcast,
  active_slave_broadcast, parked_slave_broadcast, point_to_point, not_parked_state, parked_state,
}

-- The bytes of an ACL packet behind the type byte.
abbrev pub acl_bytes : ℕ → BoundaryFlag → HostBroadcastFlag → List ℕ → List ℕ
acl_bytes handle pb bc payload =
    u16_le (raw_handle_of handle pb bc) ++ (u16_le (length payload) ++ payload)

-- The controller's flag with the bits of the host's.
abbrev pub mirrored : HostBroadcastFlag → ControllerBroadcastFlag
mirrored no_broadcast = point_to_point
mirrored active_slave_broadcast = not_parked_state
mirrored parked_slave_broadcast = parked_state
mirrored HostBroadcastFlag.reserved = ControllerBroadcastFlag.reserved

flag_bounds :
    (pb : BoundaryFlag) (bc : HostBroadcastFlag) → (boundary_bits pb < 4) × (host_bits bc < 4)
unfolding boundary_bits host_bits
flag_bounds pb bc = ground arith

pub raw_handle_of_sum :
    (handle : ℕ) (pb : BoundaryFlag) (bc : HostBroadcastFlag)
    → handle < 4096
    → raw_handle_of handle pb bc ≡ handle + boundary_bits pb * 4096 + host_bits bc * 16384
unfolding raw_handle_of
raw_handle_of_sum handle pb bc h = rw (bit_or_disjoint 12 handle (boundary_bits pb) h) (
    bit_or_disjoint 14 (handle + boundary_bits pb * 4096) (host_bits bc)
      (omega (arith, flag_bounds pb bc)))

boundary_flag_of_bits :
    (pb : BoundaryFlag) (x : ℕ) → x ≡ boundary_bits pb → boundary_flag_of x ≡ done pb
unfolding boundary_flag_of boundary_bits
boundary_flag_of_bits first_non_auto_flushable x h = rw h
boundary_flag_of_bits continuing x h = rw h
boundary_flag_of_bits first_auto_flushable x h = rw h
boundary_flag_of_bits complete x h = rw h

bc_flag_of_bits :
    (bc : HostBroadcastFlag) (x : ℕ) → x ≡ host_bits bc → bc_flag_of x ≡ done (mirrored bc)
unfolding bc_flag_of host_bits
bc_flag_of_bits no_broadcast x h = rw h
bc_flag_of_bits active_slave_broadcast x h = rw h
bc_flag_of_bits parked_slave_broadcast x h = rw h
bc_flag_of_bits HostBroadcastFlag.reserved x h = rw h

-- For a 12-bit connection handle the two header bytes that `encode` writes are read back by
-- `decode_raw_handle` as the same handle, the same boundary flag, and the controller's broadcast
-- flag with the same bits.
pub decode_raw_handle-raw_handle_of :
    (handle : ℕ) (pb : BoundaryFlag) (bc : HostBroadcastFlag)
    → handle < 4096
    → decode_raw_handle
        (low_byte (raw_handle_of handle pb bc))
        (high_byte (raw_handle_of handle pb bc))
      ≡ done (pb, mirrored bc, handle)
unfolding decode_raw_handle
decode_raw_handle-raw_handle_of handle pb bc h =
    rw
      (
        boundary_flag_of_bits pb (field raw 12 2) (omega (arith, sum, flag_bounds pb bc)),
        bc_flag_of_bits bc (field raw 14 2) (omega (arith, sum, flag_bounds pb bc)),
      )
      (ap (λ x. done (pb, mirrored bc, x)) (omega (arith, sum, flag_bounds pb bc)))
  where
    raw : ℕ
    raw = let r = raw_handle_of handle pb bc in u16_of (low_byte r) (high_byte r)

    sum : raw_handle_of handle pb bc ≡ handle + boundary_bits pb * 4096 + host_bits bc * 16384
    sum = raw_handle_of_sum handle pb bc h

pub encode-Represents :
    {payload : Data} {bytes : List ℕ} (handle : ℕ) (pb : BoundaryFlag) (bc : HostBroadcastFlag)
    → Represents payload bytes
    → length bytes + 5 ≤ capacity
    → Returns
        (encode handle pb bc payload)
        (λ d. Represents d (packet_type_async_data ∷ acl_bytes handle pb bc bytes))
unfolding encode
encode-Represents {payload} {bytes} handle pb bc r h =
    new-then (packet_type_async_data ∷ []) (omega arith) λ d₀ r₀.
      append-then _ r₀ (omega arith) λ d₁ r₁. append-then _ r₁ (omega arith) λ d₂ r₂.
        as_slice-then (append d₂) r (rw r.size at (append-Represents bytes r₂ (omega arith)))
