-- ===== src/Server/Invariant/Handlers.antt =====
-- The handlers of bleps/src/attribute_server.rs (299-561) keep the invariant.
use bleps.Common.{
  Ends, done-Ends, get_elem?, unwrap, if-Ends, bind-any, ℕ, List, Run, ◌>>=◌, Option-cases, inl,
  inr,
}
use bleps.Data.{Data, checked_sub, append_u16}
use bleps.Att.Response.{new_att_read_by_group_type_response, new_att_read_by_type_response}
use bleps.Att.{Uuid}
use bleps.Attribute.{readable, read, read_into, attribute_value}
use bleps.Server
use bleps.Server.{Server, find_first, has_handle, in_range}
use bleps.Server.Invariant.{Invariant, Kept, respond-Kept, with_app}

module _ {S : Type 0} (t : List (Uuid × ℕ × ℕ)) (limit : ℕ) (server : Server S)
    (h : Invariant t limit server) where
  -- The end of most handlers.
  answered :
      (app : S) (src : ℕ) (m : Run Data)
      → Kept t limit (m >>= Server.write_att (record server { app = app }) src)
  answered app src m = respond-Kept t limit _ src m (with_app t limit server app h)

  refused : (src : ℕ) (m : Run Data) → Kept t limit (m >>= Server.write_att server src)
  refused src m = respond-Kept t limit server src m h

  pub get_characteristic_value-Kept :
      (handle offset : ℕ) (buffer : List ℕ)
      → Ends
          (λ (l, b, server'). Invariant t limit server')
          (Server.get_characteristic_value server handle offset buffer)
  unfolding Server.get_characteristic_value
  get_characteristic_value-Kept handle offset buffer = bind-any (checked_sub handle 1) _ λ i.
      bind-any (unwrap (get_elem? server.attributes i)) _ λ att.
        if-Ends (readable att.content) _ _
          (bind-any (read server.app att.content offset buffer) _
            λ (r, b, app). done-Ends _ (with_app t limit server app h))
          (done-Ends _ h)

  pub handle_read_by_group_type_req-Kept :
      (src start end : ℕ) (u : Uuid)
      → Kept t limit (Server.handle_read_by_group_type_req server src start end u)
  unfolding Server.handle_read_by_group_type_req
  handle_read_by_group_type_req-Kept src start end u =
      elim (Option-cases (find_first (in_range u start end) server.attributes)) [
        | inl absent ↦
            rw (Server.handle_read_by_group_type_req, absent)
              (bind-any new_att_read_by_group_type_response _ λ d. refused src _)
        | inr ((before, att, after), there) ↦
            rw (Server.handle_read_by_group_type_req, there)
              (bind-any new_att_read_by_group_type_response _
                λ d. bind-any (attribute_value server.app att) _ λ r. answered r.1 src _)
      ]

  pub handle_read_by_type_req-Kept :
      (src start end : ℕ) (u : Uuid)
      → Kept t limit (Server.handle_read_by_type_req server src start end u)
  unfolding Server.handle_read_by_type_req
  handle_read_by_type_req-Kept src start end u =
      elim (Option-cases (find_first (in_range u start end) server.attributes)) [
        | inl absent ↦
            rw (Server.handle_read_by_type_req, absent)
              (bind-any new_att_read_by_type_response _ λ d. refused src _)
        | inr ((before, att, after), there) ↦
            rw (Server.handle_read_by_type_req, there)
              (bind-any new_att_read_by_type_response _ λ d.
                bind-any (append_u16 d att.handle) _ λ d'.
                  if-Ends (readable att.content) _ _
                    (bind-any (read_into server.app att.content 0 d') _ λ r. answered r.2 src _)
                    (refused src _))
      ]

  pub respond_with_value-Kept :
      (src handle offset opcode : ℕ) (d : Data)
      → Kept t limit (Server.respond_with_value server src handle offset opcode d)
  unfolding Server.respond_with_value
  respond_with_value-Kept src handle offset opcode d =
      elim (Option-cases (find_first (has_handle handle) server.attributes)) [
        | inl absent ↦ rw (Server.respond_with_value, absent) (refused src _)
        | inr ((before, att, after), there) ↦
            rw (Server.respond_with_value, there)
              (if-Ends (readable att.content) _ _
                (bind-any (read_into server.app att.content offset d) _ λ r. answered r.2 src _)
                (refused src _))
      ]
