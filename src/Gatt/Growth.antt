-- ===== src/Gatt/Growth.antt =====
-- How the vectors of `gatt` in bleps-macros/src/lib.rs (273-537) grow, attribute by attribute.
use bleps.Common.{
  suc, ◌+◌, ◌^◌, ◌<◌, ◌≡◌, refl, sym, ap, ◌∙◌, List, [], ◌∷◌, ◌++◌, map, append_assoc, append-nil,
  length, length-append, arith, ltb, ltb→lt,
}
use bleps.Gatt.{panics}
use bleps.Gatt.Code.{Storage, Code}
use bleps.Gatt.Generate.{push}
use bleps.Gatt.Slots.{Slot, decls_of, attribs_of, entries_of}
use bleps.Gatt.Plan.{Planned, entries, constants}
use bleps.Gatt.Outcomes.{Yields, if-Yields, expands-Yields, panics-Yields}

-- The next handle is one more than the number of attributes, and fits.
abbrev pub InStep : Code → Type 0
InStep c = (c.current_handle ≡ suc (length c.attribs)) × (c.current_handle < 65536)

-- The code has grown by the statements of the attributes `ps`.
pub record Grown (c : Code) (ps : List Planned) (c' : Code) : Type 0 where
  pub slots : List Slot
  pub decls_grown : c'.decls ≡ c.decls ++ decls_of slots
  pub attribs_grown : c'.attribs ≡ c.attribs ++ attribs_of slots
  pub post_grown : c'.post ≡ c.post ++ constants ps
  pub planned : entries_of slots ≡ entries ps
  pub handle_grown : c'.current_handle ≡ c.current_handle + length ps
  pub step : InStep c'

pub Grown-refl : (c : Code) → InStep c → Grown c [] c
Grown-refl c h = record {
  slots = [];
  decls_grown = sym (append-nil c.decls);
  attribs_grown = sym (append-nil c.attribs);
  post_grown = sym (append-nil c.post);
  planned = refl;
  handle_grown = omega arith;
  step = h;
}

decls_of-append : (ss ts : List Slot) → decls_of (ss ++ ts) ≡ decls_of ss ++ decls_of ts
decls_of-append [] ts = refl
decls_of-append (s ∷ ss) ts =
    ap (λ l. s.decls ++ l) (decls_of-append ss ts)
    ∙ sym (append_assoc s.decls (decls_of ss) (decls_of ts))

constants-append : (ps qs : List Planned) → constants (ps ++ qs) ≡ constants ps ++ constants qs
constants-append [] qs = refl
constants-append (p ∷ ps) qs =
    ap (λ l. p.constants ++ l) (constants-append ps qs)
    ∙ sym (append_assoc p.constants (constants ps) (constants qs))

pub map-append :
    {A B : Type 0} (f : A → B) (xs ys : List A) → map f (xs ++ ys) ≡ map f xs ++ map f ys
map-append f [] ys = refl
map-append f (x ∷ xs) ys = ap (λ l. f x ∷ l) (map-append f xs ys)

-- Two steps of growth of one of the vectors.
joined : {A : Type 0} (a b d e f g : List A) → b ≡ a ++ e → d ≡ b ++ f → g ≡ e ++ f → d ≡ a ++ g
joined a b d e f g hb hd hg =
    hd ∙ ap (λ l. l ++ f) hb ∙ append_assoc a e f ∙ ap (λ l. a ++ l) (sym hg)

pub Grown-trans :
    (a b c : Code) (ps qs : List Planned) → Grown a ps b → Grown b qs c → Grown a (ps ++ qs) c
Grown-trans a b c ps qs g h = record {
  slots = g.slots ++ h.slots;
  decls_grown =
      joined a.decls b.decls c.decls (decls_of g.slots) (decls_of h.slots) _ g.decls_grown
        h.decls_grown (decls_of-append g.slots h.slots);
  attribs_grown =
      joined a.attribs b.attribs c.attribs (attribs_of g.slots) (attribs_of h.slots) _
        g.attribs_grown h.attribs_grown (map-append (λ s. s.attrib) g.slots h.slots);
  post_grown =
      joined a.post b.post c.post (constants ps) (constants qs) _ g.post_grown h.post_grown
        (constants-append ps qs);
  planned =
      map-append (λ s. s.entry) g.slots h.slots
      ∙ ap (λ l. l ++ entries_of h.slots) g.planned
      ∙ ap (λ l. entries ps ++ l) h.planned
      ∙ sym (map-append (λ p. p.entry) ps qs);
  handle_grown =
      (let e₁ : b.current_handle ≡ a.current_handle + length ps = g.handle_grown in
        let e₂ : c.current_handle ≡ b.current_handle + length qs = h.handle_grown in
        let e₃ : length (ps ++ qs) ≡ length ps + length qs = length-append ps qs in omega arith);
  step = h.step;
}

-- The attribute of a slot, as it was planned.
abbrev pub planned_of : Slot → Planned
planned_of s = record { entry = s.entry; constants = s.constants }

pub push-Yields :
    (c : Code) (storage : List Storage) (s : Slot)
    → InStep c
    → Yields (Grown c (planned_of s ∷ [])) (push c storage s.decls s.attrib s.constants)
unfolding push
push-Yields c storage s (here, small) =
    if-Yields (ltb (c.current_handle + 1) (2 ^ 16)) _ panics
      (λ fits. expands-Yields _ (record {
        slots = s ∷ [];
        decls_grown = ap (λ l. c.decls ++ l) (sym (append-nil s.decls));
        attribs_grown = refl;
        post_grown = ap (λ l. c.post ++ l) (sym (append-nil s.constants));
        planned = refl;
        handle_grown = refl;
        step = (
          (let n : length (c.attribs ++ (s.attrib ∷ [])) ≡ length c.attribs + 1 =
                length-append c.attribs (s.attrib ∷ []) in
              omega arith),
          ltb→lt (c.current_handle + 1) (2 ^ 16) fits,
        );
      }))
      (λ full. panics-Yields)
