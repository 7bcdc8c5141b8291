-- ===== src/Server/Lookup.antt =====
-- Which service the loop of `handle_read_by_group_type_req` of bleps/src/attribute_server.rs (303-320)
-- comes to, over the table that `new_with_ltk` (611-622) makes.
use bleps.Common.{
  ℕ, suc, ◌+◌, ◌≤◌, ◌<◌, ◌≡◌, ◌⊎◌, refl, sym, ap, subst, ◌∙◌, Bool, true, false, ◌&&◌, Option, none,
  some, List, [], ◌∷◌, arith, leb, le→leb, leb→le, length, All, Bool-cases, inl, inr, if◌then◌else◌,
  IsByte,
}
use bleps.Attribute.{Attribute}
use bleps.Attribute.Memory.{bytes_of}
use bleps.Server.{find_first, in_range, is_primary, primary_service_uuid}
use bleps.Server.Groups.{grouped, group_end}

-- A service as a client sees it: its first and last handle, and its UUID as bytes.
pub record Found : Type 0 where
  pub handle : ℕ
  pub end : ℕ
  pub uuid : List ℕ

-- The value of a service's attribute: a UUID of 2 or of 16 bytes.
pub data IsUuid : List ℕ → Type 0 where
  short : (lo hi : ℕ) → IsByte lo → IsByte hi → IsUuid (lo ∷ hi ∷ [])
  long : (xs : List ℕ) → length xs ≡ 16 → IsUuid xs

abbrev pub or_none : Option (List ℕ) → List ℕ
or_none none = []
or_none (some xs) = xs

and-false : (a b c : Bool) → (a && b) ≡ false → (a && (b && c)) ≡ false
and-false true true c h = cc
and-false true false c h = refl
and-false false b c h = refl

and-true : (a b c : Bool) → (a && b) ≡ true → c ≡ true → (a && (b && c)) ≡ true
and-true true true c h k = k
and-true true false c h k = cc
and-true false b c h k = cc

and_left : (a b : Bool) → (a && b) ≡ true → a ≡ true
and_left true b h = refl
and_left false b h = cc

and_right : (a b : Bool) → (a && b) ≡ true → b ≡ true
and_right true b h = h
and_right false b h = cc

module _ {S : Type 0} where
  -- An attribute that declares a service has its UUID in memory.
  abbrev pub Declares : Attribute S → Type 0
  Declares att =
      (is_primary att ≡ false) ⊎ ((xs : List ℕ) × (bytes_of att.content ≡ some xs) × IsUuid xs)

  -- The services from the handle `start` on, of attributes that are numbered from `n`.
  abbrev pub services : ℕ → ℕ → List (Attribute S) → List Found
  services start n [] = []
  services start n (att ∷ atts) =
      if is_primary att && leb start n
      then record { handle = n; end = group_end n atts; uuid = or_none (bytes_of att.content) }
        ∷ services start (suc n) atts
      else services start (suc n) atts

  group_end-le : (n : ℕ) (atts : List (Attribute S)) → n ≤ group_end n atts
  group_end-le n [] = omega arith
  group_end-le n (att ∷ atts) = elim (Bool-cases (is_primary att)) [
    | inl p ↦ rw (p) (omega arith)
    | inr p ↦
        rw (p) (let h : suc n ≤ group_end (suc n) atts = group_end-le (suc n) atts in omega arith)
  ]

  -- Where all the handles are large enough, it does not matter how large.
  services-start :
      (s t n : ℕ) (atts : List (Attribute S))
      → s ≤ n
      → t ≤ n
      → services s n atts ≡ services t n atts
  services-start s t n [] hs ht = refl
  services-start s t n (att ∷ atts) hs ht =
      rw (le→leb s n hs, le→leb t n ht, services-start s t (suc n) atts (omega arith) (omega arith))
        refl

  pub group_end-primary :
      (n : ℕ) (att : Attribute S) (atts : List (Attribute S))
      → is_primary att ≡ true
      → group_end n (att ∷ atts) ≡ n
  group_end-primary n att atts p = rw (p) refl

  pub group_end-other :
      (n : ℕ) (att : Attribute S) (atts : List (Attribute S))
      → is_primary att ≡ false
      → group_end n (att ∷ atts) ≡ group_end (suc n) atts
  group_end-other n att atts p = rw (p) refl

  pub services-other :
      (s n : ℕ) (att : Attribute S) (atts : List (Attribute S))
      → is_primary att ≡ false
      → services s n (att ∷ atts) ≡ services s (suc n) atts
  services-other s n att atts p = rw (p) refl

  services-before :
      (s n : ℕ) (att : Attribute S) (atts : List (Attribute S))
      → n < s
      → services s n (att ∷ atts) ≡ services s (suc n) atts
  services-before s n att atts h =
      let early : leb s n ≡ false = ground arith in
      elim (Bool-cases (is_primary att)) [ inl p ↦ rw (p, early) refl | inr p ↦ rw (p) refl ]

  -- Behind the end of a group are the services behind its first attribute.
  services-group_end :
      (n : ℕ) (atts : List (Attribute S))
      → services (suc (group_end n atts)) (suc n) atts ≡ services (suc n) (suc n) atts
  services-group_end n [] = refl
  services-group_end n (att ∷ atts) = elim (Bool-cases (is_primary att)) [
    | inl p ↦ ap (λ k. services (suc k) (suc n) (att ∷ atts)) (group_end-primary n att atts p)
    | inr p ↦
        ap (λ k. services (suc k) (suc n) (att ∷ atts)) (group_end-other n att atts p)
        ∙ services-other (suc (group_end (suc n) atts)) (suc n) att atts p
        ∙ services-group_end (suc n) atts
        ∙ services-start (suc (suc n)) (suc n) (suc (suc n)) atts (omega arith) (omega arith)
        ∙ sym (services-other (suc n) (suc n) att atts p)
  ]

  -- The loop over the attributes, with the primary services it looks for.
  abbrev pub looked_up :
      ℕ → List (Attribute S) → Option (List (Attribute S) × Attribute S × List (Attribute S))
  looked_up start atts = find_first (in_range primary_service_uuid start 65535) atts

  abbrev grouped_at : ℕ → Attribute S → List (Attribute S) → Attribute S
  grouped_at n att atts = record att { handle = n; last_handle_in_group = group_end n atts }

  pub services-out :
      (s n : ℕ) (att : Attribute S) (atts : List (Attribute S))
      → (is_primary att && leb s n) ≡ false
      → services s n (att ∷ atts) ≡ services s (suc n) atts
  services-out s n att atts out = rw (out) refl

  unfoldable pub found_at : ℕ → Attribute S → List (Attribute S) → Found
  found_at n att atts = record {
    handle = n;
    end = group_end n atts;
    uuid = or_none (bytes_of att.content);
  }

  pub services-in :
      (s n : ℕ) (att : Attribute S) (atts : List (Attribute S))
      → (is_primary att && leb s n) ≡ true
      → services s n (att ∷ atts) ≡ found_at n att atts ∷ services s (suc n) atts
  unfolding found_at
  services-in s n att atts here = rw (here) refl

  -- One round of the loop.
  skipped :
      (start n : ℕ) (att : Attribute S) (atts : List (Attribute S))
      → (is_primary att && leb start n) ≡ false
      → looked_up start (grouped n (att ∷ atts)) ≡ elim (looked_up start (grouped (suc n) atts)) [
        | none ↦ none
        | some (before, found, after) ↦ some (grouped_at n att atts ∷ before, found, after)
      ]
  unfolding find_first
  skipped start n att atts out =
      rw (find_first, and-false (is_primary att) (leb start n) (leb n 65535) out) refl

  taken :
      (start n : ℕ) (att : Attribute S) (atts : List (Attribute S))
      → n ≤ 65535
      → (is_primary att && leb start n) ≡ true
      → looked_up start (grouped n (att ∷ atts))
        ≡ some ([], grouped_at n att atts, grouped (suc n) atts)
  unfolding find_first
  taken start n att atts small here =
      rw
        (
          find_first,
          and-true (is_primary att) (leb start n) (leb n 65535) here (le→leb n 65535 small),
        )
        refl

  -- Without a service from `start` on the loop finds none.
  pub none_found :
      (start n : ℕ) (atts : List (Attribute S))
      → services start n atts ≡ []
      → looked_up start (grouped n atts) ≡ none
  unfolding find_first
  none_found start n [] h = refl
  none_found start n (att ∷ atts) h = elim (Bool-cases (is_primary att && leb start n)) [
    | inl here ↦ (let e = services-in start n att atts here in cc)
    | inr out ↦
        rw
          (
            skipped start n att atts out,
            none_found start (suc n) atts (sym (services-out start n att atts out) ∙ h),
          )
          refl
  ]

  -- What the loop finds where there is a service: the first of them, behind whose group the others are.
  pub record Hit (start n : ℕ) (atts : List (Attribute S)) (f : Found) (fs : List Found)
      : Type 0 where
    pub before : List (Attribute S)
    pub att : Attribute S
    pub after : List (Attribute S)
    pub finds : looked_up start (grouped n atts) ≡ some (before, att, after)
    pub handle : att.handle ≡ f.handle
    pub end : att.last_handle_in_group ≡ f.end
    pub value : bytes_of att.content ≡ some f.uuid
    pub is_uuid : IsUuid f.uuid
    pub others : services (suc f.end) n atts ≡ fs
    pub not_before : n ≤ f.handle
    pub in_order : f.handle ≤ f.end

  memory_of_service :
      (att : Attribute S)
      → Declares att
      → is_primary att ≡ true
      → (bytes_of att.content ≡ some (or_none (bytes_of att.content)))
        × IsUuid (or_none (bytes_of att.content))
  memory_of_service att (inl other) p = cc
  memory_of_service att (inr (xs, memory, is)) p = rw (memory) (refl, is)

  pub services-find_first :
      (start n : ℕ) (atts : List (Attribute S)) (f : Found) (fs : List Found)
      → n + length atts ≤ 65536
      → All Declares atts
      → services start n atts ≡ f ∷ fs
      → Hit start n atts f fs
  unfolding found_at
  services-find_first start n [] f fs small d h = cc
  services-find_first start n (att ∷ atts) f fs small (own, rest) h =
      elim (Bool-cases (is_primary att && leb start n)) [
        | inl here ↦
            let e = services-in start n att atts here in
            let same_first : found_at n att atts ≡ f = cc in
            let same_rest : services start (suc n) atts ≡ fs = cc in
            let p = and_left (is_primary att) (leb start n) here in
            let s : start ≤ n = leb→le start n (and_right (is_primary att) (leb start n) here) in
            let (memory, is) = memory_of_service att own p in
            let order = group_end-le n atts in
            subst (λ g. Hit start n (att ∷ atts) g fs) same_first
              (record {
                before = [];
                att = grouped_at n att atts;
                after = grouped (suc n) atts;
                finds = taken start n att atts (omega arith) here;
                handle = refl;
                end = refl;
                value = memory;
                is_uuid = is;
                others =
                    services-before (suc (group_end n atts)) n att atts (omega arith)
                    ∙ services-group_end n atts
                    ∙ services-start (suc n) start (suc n) atts (omega arith) (omega arith)
                    ∙ same_rest;
                not_before = omega arith;
                in_order = order;
              })
        | inr out ↦
            let g =
              services-find_first start (suc n) atts f fs (omega arith) rest
                (sym (services-out start n att atts out) ∙ h) in
            let low : suc n ≤ f.handle = g.not_before in
            let order : f.handle ≤ f.end = g.in_order in
            record {
              before = grouped_at n att atts ∷ g.before;
              att = g.att;
              after = g.after;
              finds = skipped start n att atts out ∙ rw (g.finds) refl;
              handle = g.handle;
              end = g.end;
              value = g.value;
              is_uuid = g.is_uuid;
              others = services-before (suc f.end) n att atts (omega arith) ∙ g.others;
              not_before = omega arith;
              in_order = g.in_order;
            }
      ]
