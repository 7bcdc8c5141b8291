-- ===== src/Hci/Reads.antt =====
-- Reading a run of bytes that the device has ready.
use bleps.Common.{
  ℕ, ◌+◌, ◌≤◌, ◌≡◌, refl, ap, ◌∙◌, Option, some, List, [], ◌∷◌, ◌++◌, map, append-nil, append_assoc,
  arith, true, ltb, lt→ltb, length, length-append, length-drop, set, drop, done,
}
use bleps.Data.{Data, capacity, zeros, new}
use bleps.Data.Buffer.{Represents, length-zeros, copy_at-append}
use bleps.Hci.{Hci, ◌>>=◌, fill_loop, read_data, read_awaited, await_byte}

-- The connection whose device is about to deliver `bs`, and then goes on as `rest` says.
abbrev pub delivering : List ℕ → List (Option ℕ) → Hci → Hci
delivering bs rest h = record h { reads = map some bs ++ rest }

set-at : (pre sp : List ℕ) (x v : ℕ) → set (pre ++ x ∷ sp) (length pre) v ≡ (pre ++ v ∷ []) ++ sp
set-at [] sp x v = refl
set-at (p ∷ pre) sp x v = ap (λ l. p ∷ l) (set-at pre sp x v)

fill_loop_lem :
    (bs pre spare : List ℕ) (rest : List (Option ℕ)) (h : Hci)
    → length bs ≤ length spare
    → fill_loop (length bs) (length pre) (pre ++ spare) (delivering bs rest h)
      ≡ done ((pre ++ bs) ++ drop (length bs) spare, record h { reads = rest })
unfolding fill_loop read_awaited await_byte
fill_loop_lem [] pre spare rest h fits = rw append-nil refl
fill_loop_lem (b ∷ bs) pre [] rest h fits = absurd (omega arith)
fill_loop_lem (b ∷ bs) pre (s ∷ sp) rest h fits =
    rw (in_range, set-at pre sp s b, ← here)
      (fill_loop_lem bs (pre ++ b ∷ []) sp rest h (omega arith) ∙ rw (append_assoc pre (b ∷ []) bs))
  where
    in_range : ltb (length pre) (length (pre ++ s ∷ sp)) ≡ true
    in_range = lt→ltb _ _ (omega (arith, length-append pre (s ∷ sp)))

    here : length (pre ++ b ∷ []) ≡ length pre + 1
    here = length-append pre (b ∷ [])

-- `Data::read` takes exactly the bytes asked for.
pub read_data_lem :
    (bs : List ℕ) (rest : List (Option ℕ)) (h : Hci)
    → length bs ≤ capacity
    → (d : Data) × (read_data (length bs) (delivering bs rest h)
        ≡ done (d, record h { reads = rest }))
      × Represents d bs
unfolding read_data new
read_data_lem bs rest h fits = (
  record { buf = buf ++ drop (length buf) zeros; len = length bs },
  rw (
    fill_loop_lem bs [] zeros rest h (omega (arith, length-zeros)),
    copy_at-append [] zeros buf (omega (arith, sizes, length-zeros)),
    read_data,
    ◌>>=◌,
  ),
  record {
    spare = drop (length bs) zeros ++ drop (length buf) zeros;
    layout = append_assoc bs (drop (length bs) zeros) (drop (length buf) zeros);
    size = refl;
    full = omega (
      arith,
      sizes,
      length-zeros,
      length-drop (length bs) zeros,
      length-drop (length buf) zeros,
      length-append (drop (length bs) zeros) (drop (length buf) zeros),
    );
  },
)
  where
    buf : List ℕ
    buf = bs ++ drop (length bs) zeros

    sizes : length buf ≡ capacity
    sizes = omega (
      arith,
      length-append bs (drop (length bs) zeros),
      length-drop (length bs) zeros,
      length-zeros,
    )
