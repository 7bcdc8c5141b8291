-- ===== src/Hci/Writes.antt =====
-- What `write_bytes` of bleps/src/lib.rs (441-445) puts on the wire.
use bleps.Common.{ℕ, ◌≡◌, sym, ap, ◌∙◌, List, [], ◌∷◌, ◌++◌, append-nil, append_assoc, done}
use bleps.Hci.{Hci, write, write_bytes}

pub write_bytes_lem :
    (bs : List ℕ) (h : Hci) → write_bytes bs h ≡ done (tt, record h { written = h.written ++ bs })
unfolding write_bytes write
write_bytes_lem [] h =
    ap (λ (l : List ℕ). done (tt, record h { written = l })) (sym (append-nil h.written))
write_bytes_lem (b ∷ bs) h =
    write_bytes_lem bs (record h { written = h.written ++ (b ∷ []) })
    ∙ ap (λ (l : List ℕ). done (tt, record h { written = l })) (append_assoc h.written (b ∷ []) bs)
