-- ===== src/Data/Buffer.antt =====
-- A packet buffer stands for a string of at most 256 bytes: how the operations act on that string.
use bleps.Common.{
  ℕ, zero, suc, ◌+◌, ◌-◌, ◌≤◌, ◌<◌, ◌≡◌, refl, sym, ap, ◌∙◌, List, [], ◌∷◌, ◌++◌, append_assoc,
  arith, length-set, lt→ltb, le→leb, length, take, drop, set, length-append, length-take,
  length-drop, take-append, drop-append, drop-append_add, drop-append_le, take-append-drop, Run,
  done, panic, Returns, bind-Returns, ◌>>=◌, u16_le,
}
use bleps.Data.{
  Data, capacity, zeros, new, as_slice, as_slice_mut, write_slice_mut, append_len, limit_len,
  subdata_from, append, append_u8, append_u16, set_byte, copy_at, slice, slice_to, slice_from,
  set_len, checked_sub,
}

-- `bs` is what `as_slice` shows, `spare` the bytes behind it, which `as_slice_mut` hands out.
pub record Represents (d : Data) (bs : List ℕ) : Type 0 where
  pub spare : List ℕ
  pub layout : d.buf ≡ bs ++ spare
  pub size : d.len ≡ length bs
  pub full : length bs + length spare ≡ capacity

pub Represents-fits : {d : Data} {bs : List ℕ} → Represents d bs → length bs ≤ capacity
Represents-fits r = omega (arith, r.full)

-- Overwriting the first bytes of the spare part.
pub copy_at-append :
    (bs spare ys : List ℕ)
    → length ys ≤ length spare
    → copy_at (bs ++ spare) (length bs) ys ≡ done ((bs ++ ys) ++ drop (length ys) spare)
unfolding copy_at
copy_at-append bs spare ys h =
    rw
      (
        take-append (length bs) bs spare refl,
        drop-append_add (length ys) bs spare,
        append_assoc bs ys (drop (length ys) spare),
      )
      (ground (arith, length-append bs spare))

pub append-Represents :
    {d : Data} {bs : List ℕ} (ys : List ℕ)
    → Represents d bs
    → length bs + length ys ≤ capacity
    → Returns (append d ys) (λ d'. Represents d' (bs ++ ys))
unfolding append
append-Represents {d} {bs} ys r h = (
  record { buf = (bs ++ ys) ++ drop (length ys) r.spare; len = length bs + length ys },
  rw (r.layout, r.size, copy_at-append bs r.spare ys (omega (arith, r.full))),
  record {
    spare = drop (length ys) r.spare;
    layout = refl;
    size = sym (length-append bs ys);
    full = omega (arith, r.full, length-append bs ys, length-drop (length ys) r.spare);
  },
)

-- Past the capacity the source panics.
pub append_panics :
    {d : Data} {bs : List ℕ} (ys : List ℕ)
    → Represents d bs
    → capacity < length bs + length ys
    → append d ys ≡ panic
unfolding append copy_at
append_panics {d} {bs} ys r h =
    rw (r.layout, r.size) (ground (arith, length-append bs r.spare, r.full))

pub length-zeros : length zeros ≡ capacity
unfolding zeros
length-zeros = refl

pub new-Represents : (bs : List ℕ) → length bs ≤ capacity → Returns (new bs) (λ d. Represents d bs)
unfolding new
new-Represents bs h = (
  record { buf = bs ++ drop (length bs) zeros; len = length bs },
  rw (copy_at-append [] zeros bs (omega (arith, length-zeros))),
  record {
    spare = drop (length bs) zeros;
    layout = refl;
    size = refl;
    full = omega (arith, length-drop (length bs) zeros, length-zeros);
  },
)

pub append_u8-Represents :
    {d : Data} {bs : List ℕ} (b : ℕ)
    → Represents d bs
    → length bs + 1 ≤ capacity
    → Returns (append_u8 d b) (λ d'. Represents d' (bs ++ b ∷ []))
unfolding append_u8
append_u8-Represents b r h = append-Represents (b ∷ []) r h

pub append_u16-Represents :
    {d : Data} {bs : List ℕ} (w : ℕ)
    → Represents d bs
    → length bs + 2 ≤ capacity
    → Returns (append_u16 d w) (λ d'. Represents d' (bs ++ u16_le w))
unfolding append_u16
append_u16-Represents w r h = append-Represents (u16_le w) r h

pub as_slice-Represents : {d : Data} {bs : List ℕ} → Represents d bs → as_slice d ≡ done bs
unfolding as_slice slice_to
as_slice-Represents {d} {bs} r =
    rw (r.layout, r.size, take-append (length bs) bs r.spare refl)
      (ground (arith, length-append bs r.spare))

set-append : (xs ys : List ℕ) (i v : ℕ) → i < length xs → set (xs ++ ys) i v ≡ set xs i v ++ ys
set-append [] ys i v h = elim h [ ]
set-append (x ∷ xs) ys zero v h = refl
set-append (x ∷ xs) ys (suc i) v h = ap (λ l. x ∷ l) (set-append xs ys i v (omega arith))

pub set_byte-Represents :
    {d : Data} {bs : List ℕ} (i v : ℕ)
    → Represents d bs
    → i < length bs
    → Returns (set_byte d i v) (λ d'. Represents d' (set bs i v))
unfolding set_byte
set_byte-Represents {d} {bs} i v r h = (
  record d { buf = set d.buf i v },
  rw (lt→ltb i (length d.buf) in_buf),
  record {
    spare = r.spare;
    layout = ap (λ l. set l i v) r.layout ∙ set-append bs r.spare i v h;
    size = omega (arith, length-set bs i v, r.size);
    full = omega (arith, length-set bs i v, r.full);
  },
)
  where
    in_buf : i < length d.buf
    in_buf = omega (arith, ap (λ l. length l) r.layout, length-append bs r.spare)

-- `limit_len` cuts the string.
pub limit_len-Represents :
    {d : Data} {bs : List ℕ} (n : ℕ) → Represents d bs → Represents (limit_len d n) (take n bs)
unfolding limit_len
limit_len-Represents {d} {bs} n r = record {
  spare = drop n bs ++ r.spare;
  layout =
      r.layout
      ∙ ap (λ l. l ++ r.spare) (sym (take-append-drop n bs))
      ∙ append_assoc (take n bs) (drop n bs) r.spare;
  size = ground (arith, length-take n bs, r.size);
  full =
      omega (arith, length-take n bs, length-drop n bs, length-append (drop n bs) r.spare, r.full);
}

-- What a reader of the spare part leaves there, up to the length that it reports, joins the string.
pub write_slice_mut-Represents :
    {d : Data} {bs : List ℕ} (tail : List ℕ) (n : ℕ)
    → Represents d bs
    → length bs + length tail ≡ capacity
    → n ≤ length tail
    → Represents (append_len (write_slice_mut d tail) n) (bs ++ take n tail)
unfolding write_slice_mut append_len set_len
write_slice_mut-Represents {d} {bs} tail n r h k = record {
  spare = drop n tail;
  layout = rw (
    r.layout,
    r.size,
    take-append (length bs) bs r.spare refl,
    append_assoc bs (take n tail) (drop n tail),
    take-append-drop n tail,
  );
  size =
      rw (r.layout, r.size, take-append (length bs) bs r.spare refl)
        (ground (arith, length-append bs tail, length-append bs (take n tail), length-take n tail));
  full = omega (arith, length-append bs (take n tail), length-take n tail, length-drop n tail);
}

pub as_slice_mut-Represents :
    {d : Data} {bs : List ℕ} (r : Represents d bs) → as_slice_mut d ≡ done r.spare
unfolding as_slice_mut slice_from
as_slice_mut-Represents {d} {bs} r =
    rw (r.layout, r.size, drop-append (length bs) bs r.spare refl)
      (ground (arith, length-append bs r.spare))

slice-append :
    (bs spare : List ℕ) (n : ℕ)
    → n ≤ length bs
    → slice (bs ++ spare) n (n + (length bs - n)) ≡ done (drop n bs)
unfolding slice
slice-append bs spare n h =
    rw
      (
        drop-append_le n bs spare h,
        take-append (n + (length bs - n) - n) (drop n bs) spare (omega (arith, length-drop n bs)),
      )
      (ground (arith, length-append bs spare))

pub subdata_from-Represents :
    {d : Data} {bs : List ℕ} (n : ℕ)
    → Represents d bs
    → n ≤ length bs
    → Returns (subdata_from d n) (λ d'. Represents d' (drop n bs))
unfolding subdata_from checked_sub
subdata_from-Represents {d} {bs} n r h = (
  record { buf = drop n bs ++ tail; len = length bs - n },
  rw (
    r.layout,
    r.size,
    le→leb n (length bs) h,
    slice-append bs r.spare n h,
    copy_at-append [] zeros (drop n bs) (omega (arith, length-drop n bs, r.full, length-zeros)),
  ),
  record {
    spare = tail;
    layout = refl;
    size = omega (arith, length-drop n bs);
    full =
        omega
          (arith, length-drop n bs, r.full, length-drop (length (drop n bs)) zeros, length-zeros);
  },
)
  where
    tail : List ℕ
    tail = drop (length (drop n bs)) zeros

pub checked_sub_lem : (a b c : ℕ) → a ≡ c + b → checked_sub a b ≡ done c
unfolding checked_sub
checked_sub_lem a b c h = ground arith

pub slice_from_lem : (xs : List ℕ) (n : ℕ) → n ≤ length xs → slice_from xs n ≡ done (drop n xs)
unfolding slice_from
slice_from_lem xs n h = rw (le→leb n (length xs) h)

pub slice_to_lem : (xs : List ℕ) (n : ℕ) → n ≤ length xs → slice_to xs n ≡ done (take n xs)
unfolding slice_to
slice_to_lem xs n h = rw (le→leb n (length xs) h)

-- Rules for chains of calls that build a packet.
module _ {ℓ} {B : Type 0} {Q : B → Type ℓ} where
  pub new-then :
      (bs : List ℕ) {k : Data → Run B}
      → length bs ≤ capacity
      → ((d : Data) → Represents d bs → Returns (k d) Q)
      → Returns (new bs >>= k) Q
  new-then bs {k} h next = bind-Returns (new bs) k (new-Represents bs h) next

  pub append-then :
      {d : Data} {bs : List ℕ} (ys : List ℕ) {k : Data → Run B}
      → Represents d bs
      → length bs + length ys ≤ capacity
      → ((d' : Data) → Represents d' (bs ++ ys) → Returns (k d') Q)
      → Returns (append d ys >>= k) Q
  append-then {d} ys {k} r h next = bind-Returns (append d ys) k (append-Represents ys r h) next

  pub as_slice-then :
      {d : Data} {bs : List ℕ} (k : List ℕ → Run B)
      → Represents d bs
      → Returns (k bs) Q
      → Returns (as_slice d >>= k) Q
  as_slice-then k r next = rw (as_slice-Represents r) next
