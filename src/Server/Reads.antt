-- ===== src/Server/Reads.antt =====
-- What a client gets that reads an attribute in memory: `handle_read_req` and `handle_read_blob` of
-- bleps/src/attribute_server.rs (373-398, 536-561).
use bleps.Common.{
  ℕ, zero, suc, ◌+◌, ◌-◌, ◌≤◌, ◌<◌, ◌≡◌, refl, ap, ◌∙◌, subst, min, true, some, List, [], ◌∷◌, ◌++◌,
  arith, length, get_elem?, take, drop, length-take, length-drop, length-append, take-append,
  take-take, u16_le, done, Returns, ok, if◌then◌else◌,
}
use bleps.Data.{Data, capacity, append_len, limit_len, write_slice_mut}
use bleps.Data.Buffer.{
  Represents, new-Represents, append_u16-Represents, append_u8-Represents, as_slice_mut-Represents,
  write_slice_mut-Represents, limit_len-Represents,
}
use bleps.Att.{
  AttErrorCode, attribute_not_found, error_byte, att_read_request_opcode, att_read_blob_req_opcode,
}
use bleps.Att.Response.{
  new_att_error_response, new_att_read_response, new_att_read_blob_response,
  att_error_response_opcode, att_read_response_opcode, att_read_blob_resp_opcode,
}
use bleps.Attribute.{
  Attribute, AttData, array, array_mut, slice, slice_mut, value, value_mut, closures, readable,
  read_into,
}
use bleps.Attribute.Memory.{bytes_of, window_len, filled, read_memory}
use bleps.Server.{
  Server, find_first, has_handle, respond_with_value, handle_read_req, handle_read_blob,
}
use bleps.Server.Handles.{Numbered, find_first-Numbered, find_first_absent}
use bleps.Server.Replies.{sent, write_att_lem}

-- The bytes of an error response.
abbrev pub error_pdu : ℕ → ℕ → AttErrorCode → List ℕ
error_pdu opcode handle code =
    att_error_response_opcode ∷ opcode ∷ (u16_le handle ++ (error_byte code ∷ []))

pub new_att_error_response-Represents :
    (opcode handle : ℕ) (code : AttErrorCode)
    → Returns
        (new_att_error_response opcode handle code)
        (λ d. Represents d (error_pdu opcode handle code))
unfolding new_att_error_response
new_att_error_response-Represents opcode handle code =
    let (d, e, r) = new-Represents (att_error_response_opcode ∷ opcode ∷ []) (omega arith) in
    let (d', e', r') = append_u16-Represents handle r (omega arith) in
    let (d'', e'', r'') = append_u8-Represents (error_byte code) r' (omega arith) in
    (d'', rw (e, e', e''), r'')

-- A prefix as long as the list allows.
take_available : (m n : ℕ) (ys : List ℕ) → n ≡ min m (length ys) → take n ys ≡ take m ys
take_available zero zero ys h = refl
take_available zero (suc n) ys h = absurd (omega arith)
take_available (suc m) zero [] h = refl
take_available (suc m) (suc n) [] h = absurd (omega arith)
take_available (suc m) zero (y ∷ ys) h = absurd (omega arith)
take_available (suc m) (suc n) (y ∷ ys) h = ap (λ l. y ∷ l) (take_available m n ys (omega arith))

pub length-filled :
    (xs : List ℕ) (offset : ℕ) (buffer : List ℕ) → length (filled xs offset buffer) ≡ length buffer
length-filled xs offset buffer =
    let n = window_len (length buffer) (length xs) offset in
    omega (
      arith,
      length-append (take n (drop offset xs)) (drop n buffer),
      length-take n (drop offset xs),
      length-drop offset xs,
      length-drop n buffer,
    )

front-filled :
    (xs : List ℕ) (offset : ℕ) (buffer : List ℕ)
    → take (window_len (length buffer) (length xs) offset) (filled xs offset buffer)
      ≡ take (length buffer) (drop offset xs)
front-filled xs offset buffer =
    let n = window_len (length buffer) (length xs) offset in
    take-append n (take n (drop offset xs)) (drop n buffer)
      (omega (arith, length-take n (drop offset xs), length-drop offset xs))
    ∙ take_available (length buffer) n (drop offset xs) (omega (arith, length-drop offset xs))

-- A limit that the buffer's end does not reach sees all of the content.
take-prefix :
    (m room b : ℕ) (ys : List ℕ) → m ≤ suc room → take m (b ∷ take room ys) ≡ take m (b ∷ ys)
take-prefix zero room b ys h = refl
take-prefix (suc m) room b ys h = ap (λ l. b ∷ l) (take-take m room ys (omega arith))

-- An attribute in memory read behind the first byte of a response.
pub read_into-Represents :
    {S : Type 0} {d : Data} {pdu : List ℕ} (s : S) (a : AttData S) (xs : List ℕ) (offset : ℕ)
    → Represents d pdu
    → bytes_of a ≡ some xs
    → (n : ℕ) × (d' : Data) × (read_into s a offset d ≡ done (ok n, d', s))
      × Represents (append_len d' n) (pdu ++ take (capacity - length pdu) (drop offset xs))
unfolding read_into
read_into-Represents {S} {d} {pdu} s a xs offset r e =
    let n = window_len (length r.spare) (length xs) offset in
    let room : length r.spare ≡ capacity - length pdu = omega (arith, r.full) in
    let front : take n (filled xs offset r.spare) ≡ take (capacity - length pdu) (drop offset xs) =
      front-filled xs offset r.spare ∙ ap (λ k. take k (drop offset xs)) room in
    let whole : length pdu + length (filled xs offset r.spare) ≡ capacity =
      omega (arith, r.full, length-filled xs offset r.spare) in
    (
      n,
      write_slice_mut d (filled xs offset r.spare),
      rw (as_slice_mut-Represents r, read_memory s a xs offset r.spare e),
      subst
          (λ l. Represents (append_len (write_slice_mut d (filled xs offset r.spare)) n) (pdu ++ l))
          front
          (write_slice_mut-Represents (filled xs offset r.spare) n r whole
            (omega (arith, length-filled xs offset r.spare))),
    )

pub readable_memory :
    {S : Type 0} (a : AttData S) (xs : List ℕ) → bytes_of a ≡ some xs → readable a ≡ true
unfolding readable
readable_memory (array ys) xs e = refl
readable_memory (array_mut ys) xs e = refl
readable_memory (slice ys) xs e = refl
readable_memory (slice_mut ys) xs e = refl
readable_memory (value ys) xs e = refl
readable_memory (value_mut ys) xs e = refl
readable_memory (closures r w n) xs e = cc

module _ {S : Type 0} (server : Server S) (src_handle : ℕ)
    (numbered : Numbered 1 server.attributes) where
  -- The answer to a read of an attribute in memory: the rest of its bytes from the offset on, cut to
  -- the size that the two sides agreed on.
  respond_with_value_lem :
      (i offset opcode b : ℕ) (att : Attribute S) (xs : List ℕ) {d : Data}
      → get_elem? server.attributes i ≡ some att
      → bytes_of att.content ≡ some xs
      → server.mtu + 9 ≤ capacity
      → Represents d (b ∷ [])
      → respond_with_value server src_handle (suc i) offset opcode d
        ≡ done (sent server src_handle (take server.mtu (b ∷ drop offset xs)))
  unfolding respond_with_value
  respond_with_value_lem i offset opcode b att xs {d} e m h r =
      let (n, d', er, r') = read_into-Represents server.app att.content xs offset r m in
      let one : suc i ≡ 1 + i = omega arith in
      let found =
        ap (λ k. find_first (has_handle k) server.attributes) one
        ∙ find_first-Numbered 1 i server.attributes att numbered e in
      let limited =
        subst (λ l. Represents (limit_len (append_len d' n) server.mtu) l)
          (take-prefix server.mtu 255 b (drop offset xs) (omega arith))
          (limit_len-Represents server.mtu r') in
      rw (respond_with_value, found, readable_memory att.content xs m, if◌then◌else◌, er)
        (write_att_lem server src_handle limited
          (omega (arith, length-take server.mtu (b ∷ drop offset xs))))

  respond_unknown :
      (handle offset opcode b : ℕ) {d : Data}
      → length server.attributes < handle
      → Represents d (b ∷ [])
      → respond_with_value server src_handle handle offset opcode d
        ≡ done (sent server src_handle (error_pdu opcode handle attribute_not_found))
  unfolding respond_with_value
  respond_unknown handle offset opcode b h r =
      let (d', e, r') = new_att_error_response-Represents opcode handle attribute_not_found in
      rw
        (respond_with_value, find_first_absent 1 handle server.attributes numbered (omega arith), e)
        (write_att_lem server src_handle r' (omega arith))

  -- A read request for an attribute in memory is answered with its bytes, cut to the MTU; nothing
  -- but the output changes. This holds while the MTU leaves room for the headers in a buffer.
  pub handle_read_req_lem :
      (i : ℕ) (att : Attribute S) (xs : List ℕ)
      → get_elem? server.attributes i ≡ some att
      → bytes_of att.content ≡ some xs
      → server.mtu + 9 ≤ capacity
      → handle_read_req server src_handle (suc i)
        ≡ done (sent server src_handle (take server.mtu (att_read_response_opcode ∷ xs)))
  unfolding handle_read_req new_att_read_response
  handle_read_req_lem i att xs e m h =
      let (d, new, r) = new-Represents (att_read_response_opcode ∷ []) (omega arith) in
      rw new
        (respond_with_value_lem i 0 att_read_request_opcode att_read_response_opcode att xs e m h r)

  -- Both kinds of read of a handle past the last one are answered with the error that no attribute
  -- was found, for the request's opcode and handle.
  pub reads_unknown :
      (handle offset : ℕ)
      → length server.attributes < handle
      → (handle_read_req server src_handle handle
          ≡ done (
              sent server src_handle
                (error_pdu att_read_request_opcode handle attribute_not_found)))
        × (handle_read_blob server src_handle handle offset
            ≡ done (
                sent server src_handle
                  (error_pdu att_read_blob_req_opcode handle attribute_not_found)))
  unfolding handle_read_req new_att_read_response handle_read_blob new_att_read_blob_response
  reads_unknown handle offset h =
      let (d, new, r) = new-Represents (att_read_response_opcode ∷ []) (omega arith) in
      let (d', new', r') = new-Represents (att_read_blob_resp_opcode ∷ []) (omega arith) in
      (
        rw new (respond_unknown handle 0 att_read_request_opcode att_read_response_opcode h r),
        rw new'
            (respond_unknown handle offset att_read_blob_req_opcode att_read_blob_resp_opcode h r'),
      )
