-- ===== src/Server/Information.antt =====
-- What a client gets that asks for the types of a range of attributes: `handle_find_information` of
-- bleps/src/attribute_server.rs (470-494).
use bleps.Common.{
  ℕ, ◌+◌, ◌≤◌, ◌≡◌, refl, sym, ap, subst, ◌∙◌, Bool, true, false, ◌&&◌, Option, none, some, List,
  [], ◌∷◌, ◌++◌, append_assoc, append-nil, arith, leb, ltb, lt→ltb, ◌==◌, length, length-append,
  Bool-cases, inl, inr, if◌then◌else◌, u16_le, done, ◌>>=◌, Returns, returns, bind-Returns, weaken,
  Option-cases, ◌<◌,
}
use bleps.Data.{Data, capacity, new, append, append_u16, set_byte, index}
use bleps.Data.Buffer.{
  Represents, new-Represents, append-Represents, append_u16-Represents, set_byte-Represents,
}
use bleps.Att.{
  Uuid, uuid16, uuid128, get_type, append_uuid, attribute_not_found,
  att_find_information_req_opcode,
}
use bleps.Att.Response.{
  new_att_find_information_response, append_att_find_information_response,
  has_att_find_information_response_data, att_find_information_rsp_opcode,
}
use bleps.Attribute.{Attribute}
use bleps.Server.{Server, find_information_loop, handle_find_information}
use bleps.Server.Replies.{sent, write_att_lem}
use bleps.Server.Reads.{error_pdu, new_att_error_response-Represents}

-- A UUID as it is sent.
abbrev pub uuid_wire : Uuid → List ℕ
uuid_wire (uuid16 uuid) = u16_le uuid
uuid_wire (uuid128 bytes) = bytes

module _ {S : Type 0} where
  abbrev pub within : ℕ → ℕ → Attribute S → Bool
  within start end att = leb start att.handle && leb att.handle end

  abbrev pub information : Attribute S → List ℕ
  information att = u16_le att.handle ++ uuid_wire att.uuid

  -- The handles and UUIDs of the attributes in the range, up to the first of another type.
  abbrev pub listed : ℕ → ℕ → ℕ → List (Attribute S) → List ℕ
  listed format start end [] = []
  listed format start end (att ∷ atts) =
      if within start end att
      then (if format == get_type att.uuid
          then information att ++ listed format start end atts
          else [])
      else listed format start end atts

  -- The response: the type of the first attribute in the range, and the list; `none` without any.
  abbrev pub information_pdu : ℕ → ℕ → List (Attribute S) → Option (List ℕ)
  information_pdu start end [] = none
  information_pdu start end (att ∷ atts) =
      if within start end att
      then some (
          att_find_information_rsp_opcode
          ∷ get_type att.uuid
          ∷ (information att ++ listed (get_type att.uuid) start end atts))
      else information_pdu start end atts

head_of : ℕ → List ℕ → List ℕ
head_of format es = att_find_information_rsp_opcode ∷ format ∷ es

append_uuid_lem : (d : Data) (uuid : Uuid) → append_uuid d uuid ≡ append d (uuid_wire uuid)
unfolding append_uuid
append_uuid_lem d (uuid16 uuid) = refl
append_uuid_lem d (uuid128 bytes) = refl

get_type-pos : (uuid : Uuid) → (get_type uuid == 0) ≡ false
unfolding get_type
get_type-pos (uuid16 uuid) = refl
get_type-pos (uuid128 bytes) = refl

format_byte :
    (d : Data) (format : ℕ) (es : List ℕ)
    → Represents d (head_of format es)
    → index d.buf 1 ≡ done format
unfolding index head_of
format_byte d format es r = ap (λ b. index b 1) r.layout

-- The handle and the UUID of an attribute are appended to `bs`.
Appended : List ℕ → Data × Bool → Type 0
Appended bs (d, more) = (more ≡ true) × Represents d bs

appended :
    (d : Data) (bs : List ℕ) (handle : ℕ) (uuid : Uuid)
    → Represents d bs
    → length bs + 2 + length (uuid_wire uuid) ≤ capacity
    → Returns
        (append_u16 d handle >>= λ d₁. append_uuid d₁ uuid >>= λ d₂. done (d₂, true))
        (Appended (bs ++ (u16_le handle ++ uuid_wire uuid)))
unfolding Appended
appended d bs handle uuid r h =
    let n : length (bs ++ u16_le handle) ≡ length bs + 2 = length-append bs (u16_le handle) in
    bind-Returns (append_u16 d handle) _ (append_u16-Represents handle r (omega arith)) λ d₁ r₁.
      rw (append_uuid_lem d₁ uuid) (
        bind-Returns (append d₁ (uuid_wire uuid)) _
          (append-Represents (uuid_wire uuid) r₁ (omega arith))
          λ d₂ r₂.
            returns (d₂, true)
              (refl, subst (Represents d₂) (append_assoc bs (u16_le handle) (uuid_wire uuid)) r₂))

module _ {S : Type 0} (att : Attribute S) (d : Data) where
  entry_size : ℕ
  entry_size = 2 + length (uuid_wire att.uuid)

  -- The first entry sets the type.
  append_first :
      Represents d (head_of 0 [])
      → 2 + length (information att) ≤ capacity
      → Returns
          (append_att_find_information_response d att.handle att.uuid)
          (Appended (head_of (get_type att.uuid) (information att)))
  unfolding append_att_find_information_response head_of
  append_first r h = rw (format_byte d 0 [] r) (
      bind-Returns (set_byte d 1 (get_type att.uuid)) _
        (set_byte-Represents 1 (get_type att.uuid) r (omega arith))
        λ d₁ r₁. appended d₁ (head_of (get_type att.uuid) []) att.handle att.uuid r₁ (omega arith))

  append_next :
      (format : ℕ) (es : List ℕ)
      → Represents d (head_of format es)
      → (format == 0) ≡ false
      → (format == get_type att.uuid) ≡ true
      → 2 + length es + length (information att) ≤ capacity
      → Returns
          (append_att_find_information_response d att.handle att.uuid)
          (Appended (head_of format (es ++ information att)))
  unfolding append_att_find_information_response head_of
  append_next format es r set same h =
      rw (format_byte d format es r, set, same)
        (appended d (head_of format es) att.handle att.uuid r (omega arith))

  append_other :
      (format : ℕ) (es : List ℕ)
      → Represents d (head_of format es)
      → (format == 0) ≡ false
      → (format == get_type att.uuid) ≡ false
      → append_att_find_information_response d att.handle att.uuid ≡ done (d, false)
  unfolding append_att_find_information_response head_of
  append_other format es r set other = rw (format_byte d format es r, set, other) refl

module _ {S : Type 0} (start end : ℕ) where
  listed-out :
      (format : ℕ) (att : Attribute S) (atts : List (Attribute S))
      → within start end att ≡ false
      → listed format start end (att ∷ atts) ≡ listed format start end atts
  listed-out format att atts out = rw (out) refl

  listed-same :
      (format : ℕ) (att : Attribute S) (atts : List (Attribute S))
      → within start end att ≡ true
      → (format == get_type att.uuid) ≡ true
      → listed format start end (att ∷ atts) ≡ information att ++ listed format start end atts
  listed-same format att atts here same = rw (here, same) refl

  loop-listed :
      (atts : List (Attribute S)) (d : Data) (format : ℕ) (es : List ℕ)
      → Represents d (head_of format es)
      → (format == 0) ≡ false
      → 2 + length es + length (listed format start end atts) ≤ capacity
      → Returns
          (find_information_loop atts start end d)
          (λ d'. Represents d' (head_of format (es ++ listed format start end atts)))
  unfolding find_information_loop Appended
  loop-listed [] d format es r set h =
      returns d (subst (λ l. Represents d (head_of format l)) (sym (append-nil es)) r)
  loop-listed (att ∷ atts) d format es r set h = elim (Bool-cases (within start end att)) [
    | inr out ↦ rw (out) (
        loop-listed atts d format es r set
          (subst (λ l. 2 + length es + length l ≤ capacity) (listed-out format att atts out) h))
    | inl here ↦ elim (Bool-cases (format == get_type att.uuid)) [
      | inr other ↦
          rw (here, other, append_other att d format es r set other)
            (returns d (subst (λ l. Represents d (head_of format l)) (sym (append-nil es)) r))
      | inl same ↦
          let own = information att in
          let rest = listed format start end atts in
          let fits : 2 + length es + length (own ++ rest) ≤ capacity =
            subst (λ l. 2 + length es + length l ≤ capacity) (listed-same format att atts here same)
              h in
          let n : length (own ++ rest) ≡ length own + length rest = length-append own rest in
          let m : length (es ++ own) ≡ length es + length own = length-append es own in
          rw (here, same)
            (bind-Returns (append_att_find_information_response d att.handle att.uuid) _
              (append_next att d format es r set same (omega arith))
              λ (d', more) (more_is, r'). rw (more_is) (
                subst
                  (λ l.
                    Returns (find_information_loop atts start end d')
                      (λ d''. Represents d'' (head_of format l)))
                  (append_assoc es own rest)
                  (loop-listed atts d' format (es ++ own) r' set (omega arith))))
    ]
  ]

  information-out :
      (att : Attribute S) (atts : List (Attribute S))
      → within start end att ≡ false
      → information_pdu start end (att ∷ atts) ≡ information_pdu start end atts
  information-out att atts out = rw (out) refl

  information-in :
      (att : Attribute S) (atts : List (Attribute S))
      → within start end att ≡ true
      → information_pdu start end (att ∷ atts)
        ≡ some (
            head_of
              (get_type att.uuid)
              (information att ++ listed (get_type att.uuid) start end atts))
  unfolding head_of
  information-in att atts here = rw (here) refl

  -- The whole loop, from a response without entries.
  loop-information :
      (atts : List (Attribute S)) (d : Data) (pdu : List ℕ)
      → Represents d (head_of 0 [])
      → information_pdu start end atts ≡ some pdu
      → length pdu ≤ capacity
      → Returns
          (find_information_loop atts start end d)
          (λ d'. Represents d' pdu × (2 < length pdu))
  unfolding find_information_loop Appended head_of
  loop-information [] d pdu r e h = cc
  loop-information (att ∷ atts) d pdu r e h = elim (Bool-cases (within start end att)) [
    | inr out ↦ rw (out) (loop-information atts d pdu r (sym (information-out att atts out) ∙ e) h)
    | inl here ↦
        let format = get_type att.uuid in
        let own = information att in
        let rest = listed format start end atts in
        let in_it = information-in att atts here in
        let is : att_find_information_rsp_opcode ∷ format ∷ (own ++ rest) ≡ pdu = cc in
        let whole : List ℕ = att_find_information_rsp_opcode ∷ format ∷ (own ++ rest) in
        let bounded : length whole ≤ capacity = subst (λ l. length l ≤ capacity) (sym is) h in
        let size : 2 + length (own ++ rest) ≤ capacity = omega arith in
        let n : length (own ++ rest) ≡ length own + length rest = length-append own rest in
        let long : 2 < length whole = omega arith in
        rw (here) (
          bind-Returns (append_att_find_information_response d att.handle att.uuid) _
            (append_first att d r (omega arith))
            λ (d', more) (more_is, r'). rw (more_is) (
              weaken (find_information_loop atts start end d')
                (loop-listed atts d' format own r' (get_type-pos att.uuid) (omega arith))
                (λ d'' r''. (subst (Represents d'') is r'', subst (λ l. 2 < length l) is long))))
  ]

  none_listed :
      (atts : List (Attribute S)) (d : Data)
      → information_pdu start end atts ≡ none
      → find_information_loop atts start end d ≡ done d
  unfolding find_information_loop
  none_listed [] d e = refl
  none_listed (att ∷ atts) d e = elim (Bool-cases (within start end att)) [
    | inr out ↦ rw (out) (none_listed atts d (sym (information-out att atts out) ∙ e))
    | inl here ↦ (let in_it = information-in att atts here in cc)
  ]

-- What the handler answers.
abbrev pub information_answer : ℕ → Option (List ℕ) → List ℕ
information_answer start none = error_pdu att_find_information_req_opcode start attribute_not_found
information_answer start (some pdu) = pdu

abbrev pub answer_size : Option (List ℕ) → ℕ
answer_size none = 0
answer_size (some pdu) = length pdu

module _ {S : Type 0} (server : Server S) (src start end : ℕ) where
  -- A request for information is answered with the handles and UUIDs of the attributes in the range, in
  -- their order, from the first one on up to the first whose UUID has another size; and with an
  -- error for the start of the range if there is none. Nothing but the output changes. This holds
  -- while the response and its headers fit a buffer.
  pub handle_find_information_lem :
      answer_size (information_pdu start end server.attributes) + 9 ≤ capacity
      → handle_find_information server src start end
        ≡ done (
            sent server src
              (information_answer start (information_pdu start end server.attributes)))
  unfolding handle_find_information new_att_find_information_response
      has_att_find_information_response_data head_of
  handle_find_information_lem h =
      let (d, new, r) = new-Represents (att_find_information_rsp_opcode ∷ 0 ∷ []) (omega arith) in
      elim (Option-cases (information_pdu start end server.attributes)) [
        | inl none_there ↦
            let (d', e, r') =
              new_att_error_response-Represents att_find_information_req_opcode start
                attribute_not_found in
            let empty : ltb 2 d.len ≡ false = rw (r.size) refl in
            rw (none_there, new, none_listed start end server.attributes d none_there, empty, e)
              (write_att_lem server src r' (omega arith))
        | inr (pdu, there) ↦
            let fits : length pdu + 9 ≤ capacity =
              subst (λ o. answer_size o + 9 ≤ capacity) there h in
            let (d', e, (r', long)) =
              loop-information start end server.attributes d pdu r there (omega arith) in
            let full : ltb 2 d'.len ≡ true = rw (r'.size) (lt→ltb 2 (length pdu) long) in
            rw (there, new, e, full) (write_att_lem server src r' fits)
      ]
