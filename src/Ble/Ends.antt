-- ===== src/Ble/Ends.antt =====
-- `poll` of bleps/src/lib.rs on every sequence of reads: its loops need no more fuel than the model
-- gives them.
use bleps.Common.{
  ℕ, zero, suc, ◌≤◌, ◌<◌, ◌≡◌, ◌≢◌, Option, none, some, arith, length, done, stuck, u16_of,
  Bool-cases, inl, inr, ◌==◌, if◌then◌else◌,
}
use bleps.Data.{checked_sub}
use bleps.Data.Ends.{ends, checked_sub-ne-stuck}
use bleps.Acl.{decode_raw_handle, boundary_flag_of, bc_flag_of, AclPacket}
use bleps.Acl.Read as Acl
use bleps.Hci
use bleps.Hci.{Hci, M, ◌>>=◌, lift, pure, read_unwrap, read_data}
use bleps.Event.Decode.{decode-ne-stuck}
use bleps.Hci.Progress.{
  Progress, Leaves, Leaves-weaken, Leaves-ne-stuck, bind-Leaves, Leaves-at-done, if-Progress,
  Progress-weaken, bind-Progress, pure-Progress, lift-Progress, read-Progress, read_unwrap-Progress,
  read_data-Progress,
}
use bleps.Event.Read as Event
use bleps.Ble.{PollResult, join, wanted_of, reassemble, read_acl_packet, poll_packet, poll}

join-ne-stuck : (packet next : AclPacket) → join packet next ≢ stuck
unfolding join
join-ne-stuck packet next = search ends depth 8

wanted_of-ne-stuck : (packet : AclPacket) → wanted_of packet ≢ stuck
unfolding wanted_of
wanted_of-ne-stuck packet = search ends depth 8

decode_raw_handle-ne-stuck : (lo hi : ℕ) → decode_raw_handle lo hi ≢ stuck
unfolding decode_raw_handle boundary_flag_of bc_flag_of
decode_raw_handle-ne-stuck lo hi = ground arith

read_acl-Progress : Progress 4 Acl.read
unfolding Acl.read
read_acl-Progress = bind-Progress 1 3 read_unwrap _ read_unwrap-Progress λ raw0.
    bind-Progress 1 2 read_unwrap _ read_unwrap-Progress λ raw1.
      bind-Progress 0 2 (lift (decode_raw_handle raw0 raw1)) _
        (lift-Progress _ (decode_raw_handle-ne-stuck raw0 raw1))
        λ header. bind-Progress 1 1 read_unwrap _ read_unwrap-Progress λ len0.
          bind-Progress 1 0 read_unwrap _ read_unwrap-Progress λ len1.
            bind-Progress 0 0 (read_data (u16_of len0 len1)) _
              (read_data-Progress (u16_of len0 len1)) λ d h. omega arith

-- The loop ends, or waits for a byte that never comes: with more fuel than reads it has fuel enough.
reassemble-Leaves :
    (fuel wanted : ℕ) (packet : AclPacket) (h : Hci)
    → length h.reads < fuel
    → Leaves 0 (length h.reads) (reassemble fuel wanted packet h)
unfolding reassemble
reassemble-Leaves zero wanted packet h lt = elim lt [ ]
reassemble-Leaves (suc fuel) wanted packet h lt =
    bind-Leaves 0 0 (lift (checked_sub packet.payload.len 4)) _ h
      (lift-Progress (checked_sub packet.payload.len 4) (checked_sub-ne-stuck packet.payload.len 4))
      λ have h₁ le₁. elim (Bool-cases (wanted == have)) [
        | inl e ↦ rw (e, if◌then◌else◌) (omega arith)
        | inr e ↦
            rw (e, if◌then◌else◌)
              (Leaves-weaken 4 0 (length h₁.reads) (length h₁.reads) _ (omega arith) (
                bind-Leaves 0 4 Hci.read _ h₁ read-Progress λ t h₂ le₂.
                  bind-Leaves 4 0 Acl.read _ h₂ read_acl-Progress λ next h₃ le₃.
                    bind-Leaves 0 0 (lift (join packet next)) _ h₃
                      (lift-Progress (join packet next) (join-ne-stuck packet next))
                      λ joined h₄ le₄. reassemble-Leaves fuel wanted joined h₄ (omega arith)))
      ]

read_acl_packet-Progress : Progress 4 read_acl_packet
unfolding read_acl_packet
read_acl_packet-Progress = bind-Progress 4 0 Acl.read _ read_acl-Progress λ packet.
    bind-Progress 0 0 (lift (wanted_of packet)) _ (lift-Progress _ (wanted_of-ne-stuck packet))
      λ wanted h. reassemble-Leaves (suc (length h.reads)) wanted packet h (omega arith)

read_event-Progress : Progress 2 Event.read
unfolding Event.read Event.read_event
read_event-Progress =
    bind-Progress 2 0 Event.read_event _
      (bind-Progress 1 1 read_unwrap _ read_unwrap-Progress λ code.
        bind-Progress 1 0 read_unwrap _ read_unwrap-Progress
          λ len. bind-Progress 0 0 (read_data len) _ (read_data-Progress len) λ d h. omega arith)
      λ e. lift-Progress _ (decode-ne-stuck e.0 e.1)

poll_packet-Progress : (packet_type : ℕ) → Progress 0 (poll_packet packet_type)
unfolding poll_packet
poll_packet-Progress t =
    if-Progress 0 (t == 0x01) _ _ (pure-Progress {A = Option PollResult} none) (
      if-Progress 0 (t == 0x02) _ _
        (bind-Progress 0 0 read_acl_packet _ (Progress-weaken 4 _ read_acl_packet-Progress)
          λ packet h. omega arith)
        (if-Progress 0 (t == 0x04) _ _
          (bind-Progress 0 0 Event.read _ (Progress-weaken 2 _ read_event-Progress)
            λ e h. omega arith)
          (λ h. tt)))

poll-Progress : Progress 0 poll
unfolding poll
poll-Progress = bind-Progress 0 0 Hci.read _ read-Progress λ r.
    elim r as (λ r. Progress 0 (elim r [ some t ↦ poll_packet t | none ↦ pure none ])) [
      | none ↦ pure-Progress {A = Option PollResult} none
      | some t ↦ poll_packet-Progress t
    ]

-- `poll` returns, panics, or waits for ever for a byte that never comes, on every sequence of reads;
-- and it never leaves more to read than it found.
pub poll_ends :
    (h : Hci)
    → (poll h ≢ stuck)
      × ((r : Option PollResult) (h' : Hci)
          → poll h ≡ done (r, h')
          → length h'.reads ≤ length h.reads)
poll_ends h = (
  Leaves-ne-stuck 0 (length h.reads) (poll h) (poll-Progress h),
  λ r h' e. omega (arith, Leaves-at-done 0 (length h.reads) (poll h) (poll-Progress h) r h' e),
)
