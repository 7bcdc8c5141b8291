-- ===== src/Server/Handles.antt =====
-- The handles that `new_with_ltk` gives out, and how the handlers find an attribute by its handle.
use bleps.Common.{
  ℕ, zero, suc, ◌+◌, ◌≤◌, ◌≡◌, refl, ap, ◌∙◌, false, none, some, List, [], ◌∷◌, arith, ◌==◌, length,
  get_elem?, take, drop,
}
use bleps.Attribute.{Attribute}
use bleps.Server.{find_first, has_handle}

module _ {S : Type 0} where
  -- Attributes with the handles `n`, `n + 1`, … in order.
  abbrev pub Numbered : ℕ → List (Attribute S) → Type 0
  Numbered n [] = Unit
  Numbered n (att ∷ atts) = (att.handle ≡ n) × Numbered (suc n) atts

  -- Among attributes numbered from `n` the loop by handle ends at the attribute with that handle.
  pub find_first-Numbered :
      (n i : ℕ) (atts : List (Attribute S)) (att : Attribute S)
      → Numbered n atts
      → get_elem? atts i ≡ some att
      → find_first (has_handle (n + i)) atts ≡ some (take i atts, att, drop (suc i) atts)
  unfolding find_first
  find_first-Numbered n i [] att num e = cc
  find_first-Numbered n zero (a ∷ atts) att (here, num) e = ground arith
  find_first-Numbered n (suc i) (a ∷ atts) att (here, num) e =
      let shift : n + suc i ≡ suc n + i = omega arith in
      let other : (a.handle == (n + suc i)) ≡ false = ground arith in
      rw (
        other,
        ap (λ k. find_first (has_handle k) atts) shift
            ∙ find_first-Numbered (suc n) i atts att num e,
      )

  -- A handle that no attribute has is not found.
  pub find_first_absent :
      (n handle : ℕ) (atts : List (Attribute S))
      → Numbered n atts
      → n + length atts ≤ handle
      → find_first (has_handle handle) atts ≡ none
  unfolding find_first
  find_first_absent n handle [] num h = refl
  find_first_absent n handle (a ∷ atts) (here, num) h =
      let other : (a.handle == handle) ≡ false = ground arith in
      rw (other, find_first_absent (suc n) handle atts num (omega arith))
