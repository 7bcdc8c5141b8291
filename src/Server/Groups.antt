-- ===== src/Server/Groups.antt =====
-- What `new_with_ltk` of bleps/src/attribute_server.rs (611-622) makes of the attributes: handles
-- from 1 on, and for each the last handle of its service.
use bleps.Common.{
  ℕ, zero, suc, ◌+◌, ◌-◌, ◌%◌, ◌^◌, ◌<◌, ◌≡◌, ◌⊎◌, refl, sym, ap, ◌∙◌, Bool, true, false, ◌&&◌,
  some, List, [], ◌∷◌, ◌++◌, append_assoc, append-nil, arith, ltb, lt→ltb, length, get_elem?,
  get_elem?-middle, set-middle, split_last, done, Bool-cases, inl, inr, if◌then◌else◌,
}
use bleps.Attribute.{Attribute}
use bleps.Server.{number_from, group_step, group_loop, last_attribute, assign_handles, is_primary}

and_false : (b : Bool) → (b && false) ≡ false
and_false true = refl
and_false false = refl

-- At the first attribute the source leaves the end of the group as it is, which no one reads.
carried_end :
    (i : ℕ) (p : Bool) (end : ℕ)
    → (i ≡ 0) ⊎ ((if p && ltb 0 i then i else end) ≡ (if p then i else end))
carried_end zero p end = inl refl
carried_end (suc i) true end = inr (rw (lt→ltb 0 (suc i) (omega arith)) refl)
carried_end (suc i) false end = inr refl

module _ {S : Type 0} where
  -- The last handle of the service that the attribute with the handle `handle` belongs to, given the
  -- attributes behind it: the handle before the next primary service, or the last of all.
  abbrev pub group_end : ℕ → List (Attribute S) → ℕ
  group_end handle [] = handle
  group_end handle (next ∷ rest) = if is_primary next then handle else group_end (suc handle) rest

  -- The attributes with their handles from `handle` on, and the ends of their services.
  abbrev pub grouped : ℕ → List (Attribute S) → List (Attribute S)
  grouped handle [] = []
  grouped handle (att ∷ rest) =
      record att { handle = handle; last_handle_in_group = group_end handle rest }
      ∷ grouped (suc handle) rest

  abbrev numbered : ℕ → List (Attribute S) → List (Attribute S)
  numbered i [] = []
  numbered i (att ∷ rest) = record att { handle = i + 1 } ∷ numbered (i + 1) rest

  number_from_lem :
      (i : ℕ) (atts : List (Attribute S))
      → i + length atts < 2 ^ 16
      → number_from i atts ≡ done (numbered i atts)
  unfolding number_from
  number_from_lem i [] h = refl
  number_from_lem i (att ∷ atts) h =
      rw (small, lt→ltb (i + 1) (2 ^ 16) (omega arith), number_from_lem (i + 1) atts (omega arith))
    where
      small : i % 2 ^ 16 ≡ i
      small = omega arith

  length-numbered : (i : ℕ) (atts : List (Attribute S)) → length (numbered i atts) ≡ length atts
  length-numbered i [] = refl
  length-numbered i (att ∷ atts) = ap suc (length-numbered (i + 1) atts)

  numbered-append :
      (i n : ℕ) (xs ys : List (Attribute S))
      → n ≡ i + length xs
      → numbered i (xs ++ ys) ≡ numbered i xs ++ numbered n ys
  numbered-append i n [] ys h = ap (λ k. numbered k ys) (omega arith)
  numbered-append i n (x ∷ xs) ys h =
      ap (λ l. record x { handle = i + 1 } ∷ l) (numbered-append (i + 1) n xs ys (omega arith))

  -- The handle before the one at the end of `front`, where there is one.
  previous_handle :
      (front ys : List (Attribute S)) (i : ℕ)
      → length front ≡ suc i
      → (p : Attribute S) × (get_elem? (numbered 0 front ++ ys) i ≡ some p) × (p.handle ≡ suc i)
  previous_handle front ys i h =
      let (init, b, e, n) = split_last front i h in
      (
        record b { handle = i + 1 },
        ap (λ l. get_elem? l i)
              (ap (λ l. numbered 0 l ++ ys) e
                ∙ ap (λ l. l ++ ys) (numbered-append 0 i init (b ∷ []) (omega arith))
                ∙ append_assoc (numbered 0 init) (record b { handle = i + 1 } ∷ []) ys)
            ∙ get_elem?-middle (numbered 0 init) ys (record b { handle = i + 1 }) i
                (omega (arith, length-numbered 0 init)),
        omega arith,
      )

  -- One round, at the attribute behind `front`.
  group_step_lem :
      (i : ℕ) (front ys : List (Attribute S)) (att : Attribute S) (end : ℕ)
      → length front ≡ i
      → let last = record att { handle = suc i; last_handle_in_group = end } in
        group_step i (numbered 0 front ++ (record att { handle = suc i } ∷ ys)) end
        ≡ done (numbered 0 front ++ (last ∷ ys), if is_primary att && ltb 0 i then i else end)
  unfolding group_step
  group_step_lem zero front ys att end h =
      let this = record att { handle = 1 } in
      rw (
        get_elem?-middle (numbered 0 front) ys this 0 (omega (arith, length-numbered 0 front)),
        set-middle (numbered 0 front) ys this (record this { last_handle_in_group = end }) 0
            (omega (arith, length-numbered 0 front)),
        and_false (is_primary att),
      )
  group_step_lem (suc i) front ys att end h =
      let this = record att { handle = suc (suc i) } in
      let back : suc i - 1 ≡ i = omega arith in
      let last = record this { last_handle_in_group = end } in
      let (previous, found, n) = previous_handle front (last ∷ ys) i h in
      rw
        (
          get_elem?-middle (numbered 0 front) ys this (suc i)
              (omega (arith, length-numbered 0 front)),
          set-middle (numbered 0 front) ys this last (suc i)
              (omega (arith, length-numbered 0 front)),
        )
        (elim (Bool-cases (is_primary att)) [
          | inl primary ↦ rw (primary, lt→ltb 0 (suc i) (omega arith), back, found, n)
          | inr other ↦ rw (other)
        ])

  group_loop_end :
      (k : ℕ) (atts : List (Attribute S)) (m n : ℕ)
      → (k ≡ 0) ⊎ (m ≡ n)
      → group_loop k atts m ≡ group_loop k atts n
  unfolding group_loop
  group_loop_end k atts m n (inr e) = ap (group_loop k atts) e
  group_loop_end zero atts m n (inl e) = refl
  group_loop_end (suc k) atts m n (inl e) = absurd (omega arith)

  group_loop_lem :
      (k : ℕ) (front back : List (Attribute S))
      → length front ≡ k
      → group_loop k (numbered 0 front ++ grouped (suc k) back) (group_end k back)
        ≡ done (grouped 1 (front ++ back))
  unfolding group_loop
  group_loop_lem zero [] back h = refl
  group_loop_lem zero (x ∷ xs) back h = absurd (omega arith)
  group_loop_lem (suc i) front back h =
      let (init, b, e, n) = split_last front i h in
      let one : i + 1 ≡ suc i = omega arith in
      rw
        (
          ap (λ l. numbered 0 l ++ grouped (suc (suc i)) back) e
              ∙ ap (λ l. l ++ grouped (suc (suc i)) back)
                  (numbered-append 0 i init (b ∷ []) (omega arith))
              ∙ append_assoc (numbered 0 init) (record b { handle = i + 1 } ∷ [])
                  (grouped (suc (suc i)) back)
              ∙ ap (λ j. numbered 0 init ++ (record b { handle = j } ∷ grouped (suc (suc i)) back))
                  one,
          group_step_lem i init (grouped (suc (suc i)) back) b (group_end (suc i) back) n,
        )
        (group_loop_end i (numbered 0 init ++ grouped (suc i) (b ∷ back)) _ _
            (carried_end i (is_primary b) (group_end (suc i) back))
          ∙ group_loop_lem i init (b ∷ back) n
          ∙ ap (λ l. done (grouped 1 l))
              (sym (append_assoc init (b ∷ []) back) ∙ ap (λ l. l ++ back) (sym e)))

  last_attribute_lem :
      (i : ℕ) (att : Attribute S) (atts : List (Attribute S))
      → (p : Attribute S) × (last_attribute (numbered i (att ∷ atts)) ≡ some p)
        × (p.handle ≡ i + length (att ∷ atts))
  unfolding last_attribute
  last_attribute_lem i att [] = (record att { handle = i + 1 }, refl, omega arith)
  last_attribute_lem i att (next ∷ atts) =
      let (p, e, n) = last_attribute_lem (i + 1) next atts in (p, e, omega arith)

  -- For at least one and at most 65535 attributes, the constructor's two loops give the attributes
  -- handles from 1 on, and each the last handle of its service: the one before the next primary
  -- service, or the last of all. Nothing else of the attributes changes.
  pub assign_handles_lem :
      (att : Attribute S) (atts : List (Attribute S))
      → length (att ∷ atts) < 2 ^ 16
      → assign_handles (att ∷ atts) ≡ done (grouped 1 (att ∷ atts))
  unfolding assign_handles
  assign_handles_lem att atts h =
      let all = att ∷ atts in
      let (p, e, n) = last_attribute_lem 0 att atts in
      let handle_of_last : p.handle ≡ length all = omega arith in
      rw (number_from_lem 0 all (omega arith), e, handle_of_last, length-numbered 0 all)
        (ap (λ l. group_loop (length all) l (length all)) (sym (append-nil (numbered 0 all)))
          ∙ group_loop_lem (length all) all [] refl
          ∙ ap (λ l. done (grouped 1 l)) (append-nil all))
