-- ===== src/Server/Discovery.antt =====
-- What a client gets that asks for the primary services: `handle_read_by_group_type_req` of
-- bleps/src/attribute_server.rs (299-334).
use bleps.Common.{
  ℕ, suc, ◌+◌, ◌≤◌, ◌<◌, ◌≡◌, refl, ap, subst, ◌∙◌, some, List, [], ◌∷◌, ◌++◌, arith, length,
  take-all, All, u16_le, u16_of, low_byte, high_byte, IsByte, done, Run, Returns, bind-Returns, ok,
  length-append,
}
use bleps.Data
use bleps.Data.{Data, new, append_u16, capacity, append, append_len, set_byte, index}
use bleps.Data.Buffer.{
  Represents, new-Represents, append-Represents, append_u16-Represents, set_byte-Represents,
  as_slice-Represents,
}
use bleps.Att.{
  Uuid, uuid16, uuid128, uuid_of, uuid_of_bytes, uuid_len, append_uuid, attribute_not_found,
  att_read_by_group_type_request_opcode,
}
use bleps.Att.Response.{
  new_att_read_by_group_type_response, append_att_read_by_group_type_response,
  append_attribute_data, att_read_by_group_type_response_opcode,
}
use bleps.Attribute.{Attribute, attribute_value}
use bleps.Attribute.Memory.{bytes_of}
use bleps.Server.{Server, handle_read_by_group_type_req, primary_service_uuid, assign_handles}
use bleps.Server.Groups.{grouped, assign_handles_lem}
use bleps.Server.Replies.{sent, write_att_lem}
use bleps.Server.Reads.{
  error_pdu, new_att_error_response-Represents, read_into-Represents, readable_memory,
}
use bleps.Server.Lookup.{
  Found, IsUuid, short, long, Declares, services, looked_up, Hit, none_found, services-find_first,
}

-- The response with one service.
abbrev pub service_pdu : Found → List ℕ
service_pdu f =
    att_read_by_group_type_response_opcode
    ∷ (length f.uuid + 4)
    ∷ (u16_le f.handle ++ (u16_le f.end ++ f.uuid))

-- The UUID that the server makes of a value, and writes back as the value.
record Rewritten (xs : List ℕ) : Type 0 where
  uuid : Uuid
  made : uuid_of_bytes xs ≡ done uuid
  size : uuid_len uuid ≡ length xs + 4
  written : (d : Data) → append_uuid d uuid ≡ append d xs
  bounded : length xs ≤ 16

two_bytes : (lo hi : ℕ) → IsByte lo → IsByte hi → u16_le (u16_of lo hi) ≡ lo ∷ hi ∷ []
two_bytes lo hi h₁ h₂ =
    let e₁ : low_byte (u16_of lo hi) ≡ lo = omega arith in
    let e₂ : high_byte (u16_of lo hi) ≡ hi = omega arith in
    ap (λ b. b ∷ high_byte (u16_of lo hi) ∷ []) e₁ ∙ ap (λ b. lo ∷ b ∷ []) e₂

uuid_of_bytes_lem : (xs : List ℕ) → IsUuid xs → Rewritten xs
unfolding uuid_of_bytes uuid_len append_uuid index
uuid_of_bytes_lem xs (short lo hi h₁ h₂) = record {
  uuid = uuid16 (u16_of lo hi);
  made = refl;
  size = refl;
  written = λ d. ap (append d) (two_bytes lo hi h₁ h₂);
  bounded = omega arith;
}
uuid_of_bytes_lem xs (long ys h) = record {
  uuid = uuid128 ys;
  made = rw (uuid_of_bytes, h) refl;
  size = omega arith;
  written = λ d. refl;
  bounded = omega arith;
}

-- The entry behind the opcode and the place for the size of entries.
attribute_data-Represents :
    {d : Data} {bs : List ℕ} (f : Found) (u : Rewritten f.uuid)
    → Represents d bs
    → length bs ≤ 2
    → Returns
        (append_attribute_data d f.handle f.end u.uuid)
        (λ d'. Represents d' (((bs ++ u16_le f.handle) ++ u16_le f.end) ++ f.uuid))
unfolding append_attribute_data
attribute_data-Represents {d} {bs} f u r h =
    let small : length f.uuid ≤ 16 = u.bounded in
    let n₁ : length (bs ++ u16_le f.handle) ≡ length bs + 2 = length-append bs (u16_le f.handle) in
    let n₂ : length ((bs ++ u16_le f.handle) ++ u16_le f.end) ≡ length (bs ++ u16_le f.handle) + 2 =
      length-append (bs ++ u16_le f.handle) (u16_le f.end) in
    bind-Returns (append_u16 d f.handle) _ (append_u16-Represents f.handle r (omega arith)) λ d₁ r₁.
      bind-Returns (append_u16 d₁ f.end) _ (append_u16-Represents f.end r₁ (omega arith))
        λ d₂ r₂. rw (u.written d₂) (append-Represents f.uuid r₂ (omega arith))

entry-Represents :
    {d : Data} (f : Found) (u : Rewritten f.uuid)
    → Represents d (att_read_by_group_type_response_opcode ∷ 0 ∷ [])
    → Returns
        (append_att_read_by_group_type_response d f.handle f.end u.uuid)
        (λ d'. Represents d' (service_pdu f))
unfolding append_att_read_by_group_type_response index
entry-Represents {d} f u r =
    let short_enough : length f.uuid ≤ 16 = u.bounded in
    let size : low_byte (uuid_len u.uuid) ≡ length f.uuid + 4 = omega (arith, u.size) in
    let byte : index d.buf 1 ≡ done 0 = ap (λ b. index b 1) r.layout in
    rw (byte, size)
      (bind-Returns (set_byte d 1 (length f.uuid + 4)) _
        (set_byte-Represents 1 (length f.uuid + 4) r (omega arith))
        (λ d₁ r₁. attribute_data-Represents f u r₁ (omega arith)))

module _ {S : Type 0} where
  value_in_memory :
      (s : S) (att : Attribute S) (xs : List ℕ)
      → bytes_of att.content ≡ some xs
      → length xs ≤ 16
      → (d : Data) × (attribute_value s att ≡ done (ok d, s)) × Represents d xs
  unfolding attribute_value Data.default
  value_in_memory s att xs memory small =
      let (d, new, r) = new-Represents [] (omega arith) in
      let (n, d', e, r') = read_into-Represents s att.content xs 0 r memory in
      (
        append_len d' n,
        rw (attribute_value, new, readable_memory att.content xs memory, e) refl,
        subst (Represents (append_len d' n)) (take-all 256 xs (omega arith)) r',
      )

  -- The request for the primary services from a handle on.
  abbrev pub ask : Server S → ℕ → ℕ → Run (Server S)
  ask server src start = handle_read_by_group_type_req server src start 65535 primary_service_uuid

  -- A server whose table the constructor made of `atts`.
  module _ (server : Server S) (src : ℕ) (atts : List (Attribute S))
      (table : server.attributes ≡ grouped 1 atts) where
    ask_none :
        (start : ℕ)
        → services start 1 atts ≡ []
        → ask server src start
          ≡ done (
              sent server src
                (error_pdu att_read_by_group_type_request_opcode start attribute_not_found))
    unfolding handle_read_by_group_type_req new_att_read_by_group_type_response
    ask_none start h =
        let (d, new, r) =
          new-Represents (att_read_by_group_type_response_opcode ∷ 0 ∷ []) (omega arith) in
        let (d', e, r') =
          new_att_error_response-Represents att_read_by_group_type_request_opcode start
            attribute_not_found in
        let none_there = ap (looked_up start) table ∙ none_found start 1 atts h in
        rw (handle_read_by_group_type_req, new, none_there, e)
          (write_att_lem server src r' (omega arith))

    ask_next :
        (start : ℕ) (f : Found) (fs : List Found)
        → Hit start 1 atts f fs
        → ask server src start ≡ done (sent server src (service_pdu f))
    unfolding handle_read_by_group_type_req new_att_read_by_group_type_response uuid_of
    ask_next start f fs g =
        let u = uuid_of_bytes_lem f.uuid g.is_uuid in
        let small : length f.uuid ≤ 16 = u.bounded in
        let found = ap (looked_up start) table ∙ g.finds in
        let (val, read_it, is_val) = value_in_memory server.app g.att f.uuid g.value small in
        let (d₀, new, r₀) =
          new-Represents (att_read_by_group_type_response_opcode ∷ 0 ∷ []) (omega arith) in
        let (d, written, r) = entry-Represents f u r₀ in
        rw
          (
            handle_read_by_group_type_req,
            new,
            found,
            read_it,
            as_slice-Represents is_val,
            u.made,
            g.handle,
            g.end,
            written,
          )
          (write_att_lem server src r (omega arith))

-- A client asks for the services from `start` on, and goes on behind the end of the one in the
-- response, until no service is left.
pub data Discovery {S : Type 0} (src : ℕ) : Server S → ℕ → List Found → Type 0 where
  finished :
      (server : Server S) (start : ℕ)
      → ask server src start
        ≡ done (
            sent server src
              (error_pdu att_read_by_group_type_request_opcode start attribute_not_found))
      → Discovery src server start []
  found :
      (server : Server S) (start : ℕ) (f : Found) (fs : List Found)
      → ask server src start ≡ done (sent server src (service_pdu f))
      → Discovery src (sent server src (service_pdu f)) (suc f.end) fs
      → Discovery src server start (f ∷ fs)

discovery_from :
    {S : Type 0} (src : ℕ) (atts : List (Attribute S)) (server : Server S) (start : ℕ)
    (fs : List Found)
    → server.attributes ≡ grouped 1 atts
    → 1 + length atts ≤ 65536
    → All Declares atts
    → services start 1 atts ≡ fs
    → Discovery src server start fs
discovery_from src atts server start [] table few holds e =
    finished server start (ask_none server src atts table start e)
discovery_from src atts server start (f ∷ fs) table few holds e =
    let g = services-find_first start 1 atts f fs few holds e in
    found server start f fs (ask_next server src atts table start f fs g) (
      discovery_from src atts (sent server src (service_pdu f)) (suc f.end) fs table few holds
        g.others)

-- A client that discovers the primary services of a server, whose table the constructor made of at
-- least one and at most 65534 attributes of which each that declares a service holds a UUID of 2
-- or 16 bytes in memory, gets exactly the services of the table in their order, each with its
-- handle, the last handle of its group and its UUID, one in each response, and then the error that
-- no attribute was found. Nothing but the output changes.
pub discover_all :
    {S : Type 0} (src : ℕ) (att : Attribute S) (atts : List (Attribute S)) (server : Server S)
    → assign_handles (att ∷ atts) ≡ done server.attributes
    → length (att ∷ atts) < 65535
    → All Declares (att ∷ atts)
    → Discovery src server 1 (services 1 1 (att ∷ atts))
discover_all src att atts server made few holds =
    let lem = assign_handles_lem att atts (omega arith) in
    let table : server.attributes ≡ grouped 1 (att ∷ atts) = cc in
    discovery_from src (att ∷ atts) server 1 (services 1 1 (att ∷ atts)) table (omega arith) holds
      refl
