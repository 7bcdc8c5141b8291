-- ===== src/Asynch/Waiting.antt =====
-- The asynchronous `wait_for_command_complete` of bleps/src/lib.rs (677-705), and what a read of
-- `Data::async_read` (774-796) takes from the connection.
use bleps.Common.{
  ℕ, suc, ◌+◌, ◌≤◌, ◌<◌, ◌≡◌, ◌==◌, false, if◌then◌else◌, le→leb, take-all, length-drop,
  length-append, length-take, subst, take-append_le, take-append-drop, append_assoc, Bool-cases,
  inl, inr, refl, sym, ap, ◌∙◌, List, [], ◌∷◌, ◌++◌, arith, length, take, drop, done, hang, leb,
}
use bleps.Data.{Data}
use bleps.Data.{zeros}
use bleps.Data.Buffer.{Represents, copy_at-append, length-zeros, new-Represents}
use bleps.Asynch.{poll, wait_loop, wait_for_command_complete}
use bleps.Asynch.Wire.{
  Wire, read, read_buffer, read_byte, read_data, read_loop, total, left_over, millis, ◌>>=◌,
}

-- On a connection on which nothing more arrives, waiting for a command never ends: the time is
-- looked at only behind a packet.
pub wait_for_command_complete-hang :
    (ogf ocf : ℕ) (w : Wire) → wait_for_command_complete ogf ocf (record w { chunks = [] }) ≡ hang
unfolding wait_for_command_complete wait_loop poll read_byte read_buffer read millis
wait_for_command_complete-hang ogf ocf w = refl

-- A round of the loop, when a chunk is no longer than what is asked for.
one_read :
    (n : ℕ) (bs spare c : List ℕ) (cs : List (List ℕ)) (fuel : ℕ) (w : Wire)
    → 0 < n
    → length c ≤ n
    → length c ≤ length spare
    → length bs + n ≤ 256
    → read_loop (suc fuel) (length bs) n (bs ++ spare) (record w { chunks = c ∷ cs }) ≡ (
        if leb n (length bs + length c)
        then done ((bs ++ c) ++ drop (length c) spare, record w { chunks = cs })
        else read_loop fuel
            (length bs + length c)
            n
            ((bs ++ c) ++ drop (length c) spare)
            (record w { chunks = cs }))
unfolding read_loop read
one_read n bs spare c cs fuel w some_asked short room fits =
    let asked : (n == 0) ≡ false = ground arith in
    let left : left_over n c cs ≡ cs = rw (le→leb (length c) n short) refl in
    elim (Bool-cases (leb n (length bs + length c))) [
      | inl last ↦
          rw
            (
              read_loop,
              ◌>>=◌,
              le→leb (length bs + n) 256 fits,
              read,
              asked,
              take-all n c short,
              copy_at-append bs spare c room,
              left,
              take-all n c short,
              last,
            )
            refl
      | inr more ↦
          rw
            (
              read_loop,
              ◌>>=◌,
              le→leb (length bs + n) 256 fits,
              read,
              asked,
              take-all n c short,
              copy_at-append bs spare c room,
              left,
              take-all n c short,
              more,
            )
            refl
    ]

-- A string cut at `n` by its length alone.
cut-Represents :
    {d : Data} {bs : List ℕ} (n : ℕ)
    → n ≤ length bs
    → Represents d bs
    → Represents (record d { len = n }) (take n bs)
cut-Represents {d} {bs} n h r = record {
  spare = drop n bs ++ r.spare;
  layout =
      r.layout
      ∙ ap (λ l. l ++ r.spare) (sym (take-append-drop n bs))
      ∙ append_assoc (take n bs) (drop n bs) r.spare;
  size = omega (arith, length-take n bs);
  full =
      omega (arith, length-take n bs, length-drop n bs, length-append (drop n bs) r.spare, r.full);
}

-- When the first read gives only a part, the second takes as much as the whole packet again, so that
-- what stands behind the packet in the second chunk is taken with it, and is lost: the packet is
-- right, and the next read starts behind both chunks.
pub read_data_overruns :
    (n : ℕ) (c₁ c₂ : List ℕ) (rest : List (List ℕ)) (w : Wire)
    → 0 < length c₁
    → length c₁ < n
    → n ≤ length c₁ + length c₂
    → length c₂ ≤ n
    → length c₁ + n ≤ 256
    → (d : Data) × (read_data n (record w { chunks = c₁ ∷ c₂ ∷ rest })
        ≡ done (d, record w { chunks = rest }))
      × Represents d (take n (c₁ ++ c₂))
unfolding read_data
read_data_overruns n c₁ c₂ rest w some_read short enough long fits =
    let z = length-zeros in
    let spare = drop (length c₁) zeros in
    let buffer = (c₁ ++ c₂) ++ drop (length c₂) spare in
    let left = length-drop (length c₁) zeros in
    let whole = length-append c₁ c₂ in
    let k = length c₁ + length c₂ + total rest in
    let rounds : total (c₁ ∷ c₂ ∷ rest) ≡ suc (suc k) = omega arith in
    let size : length buffer ≡ 256 = omega (
      arith,
      z,
      left,
      whole,
      length-append (c₁ ++ c₂) (drop (length c₂) spare),
      length-drop (length c₂) spare,
    ) in
    let (d, e, r) = new-Represents buffer (omega (arith, size)) in
    let none_yet : 0 + length c₁ ≡ length c₁ = omega arith in
    let not_all : leb n (length c₁) ≡ false = ground arith in
    let first : read_loop (suc (suc (suc k))) 0 n zeros (record w { chunks = c₁ ∷ c₂ ∷ rest })
        ≡ read_loop (suc (suc k)) (length c₁) n (c₁ ++ spare) (record w { chunks = c₂ ∷ rest }) =
      one_read n [] zeros c₁ (c₂ ∷ rest) (suc (suc k)) w (omega arith) (omega arith)
        (omega (arith, z)) (omega arith)
      ∙ rw (none_yet, not_all) refl in
    let second : read_loop (suc (suc k)) (length c₁) n (c₁ ++ spare)
          (record w { chunks = c₂ ∷ rest })
        ≡ done (buffer, record w { chunks = rest }) =
      one_read n c₁ spare c₂ rest (suc k) w (omega arith) long (omega (arith, z, left)) fits
      ∙ rw (le→leb n (length c₁ + length c₂) enough) refl in
    (
      record d { len = n },
      rw (◌>>=◌, rounds, first, second, e) refl,
      subst (λ l. Represents (record d { len = n }) l)
          (take-append_le n (c₁ ++ c₂) (drop (length c₂) spare) (omega (arith, whole)))
          (cut-Represents n (omega (arith, size)) r),
    )
