-- ===== src/AdStructure/Layout.antt =====
-- The layout of advertising data: a length, the structures, and padding to 32 bytes.
use bleps.Common.{
  ℕ, zero, suc, ◌+◌, ◌-◌, ◌*◌, ◌/◌, ◌%◌, ◌≤◌, ◌<◌, ◌≡◌, refl, sym, subst, ◌∙◌, List, [], ◌∷◌, ◌++◌,
  append_assoc, append-nil, arith, Run, done, ◌>>=◌, Returns, Result, ok, err, lt→ltb, le→not_ltb,
  length, length-append, replicate, low_byte, u16_le,
}
use bleps.Data
use bleps.Data.{Data, capacity, append, append_u16, set_byte, checked_sub}
use bleps.Data.Buffer.{
  Represents, new-Represents, append-Represents, set_byte-Represents, checked_sub_lem,
}
use bleps.Att.{Uuid, uuid16, uuid128, append_uuid}
use bleps.Att.RoundTrip.{uuid_bytes}
use bleps.AdStructure
use bleps.AdStructure.{
  AdStructure, flags, service_uuids16, service_uuids128, service_data16, complete_local_name,
  shortened_local_name, manufacturer_specific_data, unknown, too_long, append_uuids,
  append_ad_structure, append_ad_structures, pad, create_advertising_data,
}

abbrev pub uuids_bytes : List Uuid → List ℕ
uuids_bytes [] = []
uuids_bytes (u ∷ us) = uuid_bytes u ++ uuids_bytes us

-- A structure as bytes: the length byte, the type, and what the type asks for.
abbrev pub structure : AdStructure → List ℕ
structure (flags f) = 0x02 ∷ 0x01 ∷ f ∷ []
structure (service_uuids16 us) = low_byte (length us * 2 + 1) ∷ 0x02 ∷ uuids_bytes us
structure (service_uuids128 us) = low_byte (length us * 16 + 1) ∷ 0x07 ∷ uuids_bytes us
structure (shortened_local_name name) = low_byte (length name + 1) ∷ 0x08 ∷ name
structure (complete_local_name name) = low_byte (length name + 1) ∷ 0x09 ∷ name
structure (service_data16 uuid bytes) = low_byte (length bytes + 3) ∷ 0x16 ∷ (u16_le uuid ++ bytes)
structure (manufacturer_specific_data company payload) =
    low_byte (length payload + 3) ∷ 0xff ∷ (u16_le company ++ payload)
structure (unknown ty bytes) = low_byte (length bytes + 1) ∷ ty ∷ bytes

abbrev pub structures : List AdStructure → List ℕ
structures [] = []
structures (item ∷ ad) = structure item ++ structures ad

append_uuid-Represents :
    {d : Data} {bs : List ℕ} (u : Uuid)
    → Represents d bs
    → length bs + length (uuid_bytes u) ≤ capacity
    → Returns (append_uuid d u) (λ d'. Represents d' (bs ++ uuid_bytes u))
unfolding append_uuid
append_uuid-Represents (uuid16 u) r h = append-Represents _ r h
append_uuid-Represents (uuid128 bytes) r h = append-Represents bytes r h

append_uuids-Represents :
    (us : List Uuid) {d : Data} {bs : List ℕ}
    → Represents d bs
    → length bs + length (uuids_bytes us) ≤ capacity
    → Returns (append_uuids d us) (λ d'. Represents d' (bs ++ uuids_bytes us))
unfolding append_uuids
append_uuids-Represents [] {d} {bs} r h =
    (d, refl, subst (λ (l : List ℕ). Represents d l) (sym (append-nil bs)) r)
append_uuids-Represents (u ∷ us) {d} {bs} r h =
    let (d₁, e₁, r₁) =
      append_uuid-Represents u r (omega (arith, length-append (uuid_bytes u) (uuids_bytes us))) in
    let (d₂, e₂, r₂) = append_uuids-Represents us r₁ (
      omega
        (arith, length-append bs (uuid_bytes u), length-append (uuid_bytes u) (uuids_bytes us))) in
    (
      d₂,
      rw e₁ e₂,
      subst (λ (l : List ℕ). Represents d₂ l) (append_assoc bs (uuid_bytes u) (uuids_bytes us)) r₂,
    )

-- The two bytes in front of a structure, and one string behind them.
headed :
    {d : Data} {bs : List ℕ} (a b : ℕ) (ys : List ℕ)
    → Represents d bs
    → length bs + length (a ∷ b ∷ ys) ≤ capacity
    → Returns
        (append d (a ∷ b ∷ []) >>= λ d. append d ys)
        (λ d'. Represents d' (bs ++ (a ∷ b ∷ ys)))
headed {d} {bs} a b ys r h =
    let (d₁, e₁, r₁) = append-Represents (a ∷ b ∷ []) r (omega arith) in
    let (d₂, e₂, r₂) = append-Represents ys r₁ (omega (arith, length-append bs (a ∷ b ∷ []))) in
    (d₂, rw e₁ e₂, subst (λ (l : List ℕ). Represents d₂ l) (append_assoc bs (a ∷ b ∷ []) ys) r₂)

-- As before, with a word between the two.
headed_word :
    {d : Data} {bs : List ℕ} (a b w : ℕ) (ys : List ℕ)
    → Represents d bs
    → length bs + length (a ∷ b ∷ (u16_le w ++ ys)) ≤ capacity
    → Returns
        (append d (a ∷ b ∷ []) >>= λ d. append_u16 d w >>= λ d. append d ys)
        (λ d'. Represents d' (bs ++ (a ∷ b ∷ (u16_le w ++ ys))))
unfolding append_u16
headed_word {d} {bs} a b w ys r h =
    let (d₁, e₁, r₁) = append-Represents (a ∷ b ∷ []) r (omega arith) in
    let (d₂, e₂, r₂) =
      headed (low_byte w) (w / 256 % 256) ys r₁ (omega (arith, length-append bs (a ∷ b ∷ []))) in
    (
      d₂,
      rw e₁ e₂,
      subst (λ (l : List ℕ). Represents d₂ l) (append_assoc bs (a ∷ b ∷ []) (u16_le w ++ ys)) r₂,
    )

headed_uuids :
    {d : Data} {bs : List ℕ} (a b : ℕ) (us : List Uuid)
    → Represents d bs
    → length bs + length (a ∷ b ∷ uuids_bytes us) ≤ capacity
    → Returns
        (append d (a ∷ b ∷ []) >>= λ d. append_uuids d us)
        (λ d'. Represents d' (bs ++ (a ∷ b ∷ uuids_bytes us)))
headed_uuids {d} {bs} a b us r h =
    let (d₁, e₁, r₁) = append-Represents (a ∷ b ∷ []) r (omega arith) in
    let (d₂, e₂, r₂) =
      append_uuids-Represents us r₁ (omega (arith, length-append bs (a ∷ b ∷ []))) in
    (
      d₂,
      rw e₁ e₂,
      subst (λ (l : List ℕ). Represents d₂ l) (append_assoc bs (a ∷ b ∷ []) (uuids_bytes us)) r₂,
    )

append_ad_structure-Represents :
    (item : AdStructure) {d : Data} {bs : List ℕ}
    → Represents d bs
    → length bs + length (structure item) ≤ capacity
    → Returns (append_ad_structure d item) (λ d'. Represents d' (bs ++ structure item))
unfolding append_ad_structure
append_ad_structure-Represents (flags f) r h = append-Represents _ r h
append_ad_structure-Represents (service_uuids16 us) r h = headed_uuids _ 0x02 us r h
append_ad_structure-Represents (service_uuids128 us) r h = headed_uuids _ 0x07 us r h
append_ad_structure-Represents (service_data16 uuid bytes) r h = headed_word _ 0x16 uuid bytes r h
append_ad_structure-Represents (complete_local_name name) r h = headed _ 0x09 name r h
append_ad_structure-Represents (shortened_local_name name) r h = headed _ 0x08 name r h
append_ad_structure-Represents (manufacturer_specific_data c bytes) r h =
    headed_word _ 0xff c bytes r h
append_ad_structure-Represents (unknown ty bytes) r h = headed _ ty bytes r h

append_ad_structures-Represents :
    (ad : List AdStructure) {d : Data} {bs : List ℕ}
    → Represents d bs
    → length bs + length (structures ad) ≤ capacity
    → Returns (append_ad_structures d ad) (λ d'. Represents d' (bs ++ structures ad))
unfolding append_ad_structures
append_ad_structures-Represents [] {d} {bs} r h =
    (d, refl, subst (λ (l : List ℕ). Represents d l) (sym (append-nil bs)) r)
append_ad_structures-Represents (item ∷ ad) {d} {bs} r h =
    let (d₁, e₁, r₁) =
      append_ad_structure-Represents item r
        (omega (arith, length-append (structure item) (structures ad))) in
    let (d₂, e₂, r₂) = append_ad_structures-Represents ad r₁ (
      omega (
        arith,
        length-append bs (structure item),
        length-append (structure item) (structures ad),
      )) in
    (
      d₂,
      rw e₁ e₂,
      subst (λ (l : List ℕ). Represents d₂ l) (append_assoc bs (structure item) (structures ad)) r₂,
    )

pad-Represents :
    (n : ℕ) {d : Data} {bs : List ℕ}
    → Represents d bs
    → length bs + n ≤ capacity
    → Returns (pad n d) (λ d'. Represents d' (bs ++ replicate n 0))
unfolding pad
pad-Represents zero {d} {bs} r h =
    (d, refl, subst (λ (l : List ℕ). Represents d l) (sym (append-nil bs)) r)
pad-Represents (suc n) {d} {bs} r h =
    let (d₁, e₁, r₁) = append-Represents (0 ∷ []) r (omega arith) in
    let (d₂, e₂, r₂) = pad-Represents n r₁ (omega (arith, length-append bs (0 ∷ []))) in
    (
      d₂,
      rw e₁ e₂,
      subst (λ (l : List ℕ). Represents d₂ l) (append_assoc bs (0 ∷ []) (replicate n 0)) r₂,
    )

-- The buffer before its length is tested.
module _ (ad : List AdStructure) (fits : length (structures ad) < capacity) where
  unpadded :
      (d₃ : Data) × Represents d₃ (length (structures ad) ∷ structures ad)
      × ((k : Data → ℕ → Run (Result {0, 0} AdStructure.AdvertisementDataError Data))
          → (Data.default >>= λ d. append d (0 ∷ []) >>= λ d. append_ad_structures d ad >>= λ d.
              checked_sub d.len 1 >>= λ len. set_byte d 0 (low_byte len) >>= λ d. k d len)
            ≡ k d₃ (length (structures ad)))
  unfolding Data.default
  unpadded =
      let n = length (structures ad) in
      let (d₀, e₀, r₀) = new-Represents [] (omega arith) in
      let (d₁, e₁, r₁) = append-Represents (0 ∷ []) r₀ (omega arith) in
      let (d₂, e₂, r₂) = append_ad_structures-Represents ad r₁ (omega arith) in
      let small : low_byte n ≡ n = omega arith in
      let (d₃, e₃, r₃) = set_byte-Represents 0 (low_byte n) r₂ (omega arith) in
      let size : checked_sub d₂.len 1 ≡ done n =
        checked_sub_lem d₂.len 1 n (omega (arith, r₂.size)) in
      (
        d₃,
        subst (λ (b : ℕ). Represents d₃ (b ∷ structures ad)) small r₃,
        λ k. rw (e₀, e₁, e₂, size, e₃) refl,
      )

  -- Structures of up to 31 bytes give 32 bytes of advertising data: their number of bytes, the
  -- structures, and zeros.
  pub create_advertising_data_lem :
      length (structures ad) ≤ 31
      → (d : Data) × (create_advertising_data ad ≡ done (ok d))
        × Represents d
            (length (structures ad) ∷ (structures ad ++ replicate (31 - length (structures ad)) 0))
  unfolding create_advertising_data
  create_advertising_data_lem h =
      let (d₃, r₃, e₃) = unpadded in
      let (d₄, e₄, r₄) = pad-Represents (31 - length (structures ad)) r₃ (omega arith) in
      (d₄, e₃ _ ∙ rw (le→not_ltb 31 (length (structures ad)) h, e₄) refl, r₄)

  -- More bytes of structures, as long as they fit a buffer, are refused as too long.
  pub create_advertising_data_too_long :
      31 < length (structures ad) → create_advertising_data ad ≡ done (err too_long)
  unfolding create_advertising_data
  create_advertising_data_too_long h =
      let (d₃, r₃, e₃) = unpadded in e₃ _ ∙ rw (lt→ltb 31 (length (structures ad)) h) refl
