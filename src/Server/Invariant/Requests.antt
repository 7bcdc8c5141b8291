-- ===== src/Server/Invariant/Requests.antt =====
-- Writes and the other handlers of bleps/src/attribute_server.rs (373-561) keep the invariant.
use bleps.Common.{
  Ends, done-Ends, if-Ends, bind-Ends, bind-any, ℕ, ◌≡◌, subst, not, List, ◌∷◌, ◌++◌, arith, length,
  get_elem?, done, unwrap, Result, ok, err, if◌then◌else◌, Option-cases, inl, inr,
}
use bleps.Data
use bleps.Data.{Data, as_slice, append, append_u16, checked_sub, limit_len}
use bleps.Att
use bleps.Att.{
  Uuid, uuid_eq, AttErrorCode, Att, read_by_group_type_req, read_by_type_req, read_req, write_req,
  write_cmd, exchange_mtu, find_by_type_value, find_information, prepare_write_req,
  execute_write_req, read_blob_req,
}
use bleps.Att.Response.{
  new_att_read_response, new_att_read_blob_response, new_att_find_information_response,
  new_att_prepare_write_response,
}
use bleps.Attribute.{writable, write}
use bleps.Server
use bleps.Server.{
  Server, find_first, has_handle, WorkResult, AttributeServerError, NotificationData,
}
use bleps.Server.Invariant.{
  Invariant, Kept, write_att-Kept, respond-Kept, with_app, with_content, Splits, find_first-Splits,
}
use bleps.Server.Invariant.Handlers.{respond_with_value-Kept}

-- The server comes second in the result.
abbrev pub Second : {S : Type 0} (R : Type 0) → List (Uuid × ℕ × ℕ) → ℕ → R × Server S → Type 0
Second R t limit r = Invariant t limit r.1

abbrev WriteResult : Type 0
WriteResult = Result {0, 0} AttErrorCode (Unit {0})

module _ {S : Type 0} (t : List (Uuid × ℕ × ℕ)) (limit : ℕ) where
  notify_parent-Kept :
      (server : Server S) (index : ℕ) (u : Uuid) (payload : Data)
      → Invariant t limit server
      → Ends (Second WriteResult t limit) (Server.notify_parent server index u payload)
  unfolding Server.notify_parent
  notify_parent-Kept server index u payload h =
      if-Ends (not (uuid_eq u Server.cccd_uuid)) _ _ (done-Ends _ h) (
        bind-any (checked_sub index 1) _ λ i.
          bind-any (unwrap (get_elem? server.attributes i)) _ λ parent.
            bind-any (as_slice payload) _ λ bytes.
              bind-any (Data.index bytes 0) _ λ first. done-Ends _ (with_app t limit server _ h))

  -- The end of `handle_write`, for the server with the attribute written.
  written-Kept :
      (result : WriteResult) (server : Server S) (index : ℕ) (u : Uuid) (payload : Data)
      → Invariant t limit server
      → Ends (Second WriteResult t limit) (elim result [
        | err e ↦ done (err e, server)
        | ok _ ↦ Server.notify_parent server index u payload
      ])
  written-Kept (ok _) server index u payload h = notify_parent-Kept server index u payload h
  written-Kept (err e) server index u payload h = done-Ends _ h

module _ {S : Type 0} (t : List (Uuid × ℕ × ℕ)) (limit : ℕ) (server : Server S)
    (h : Invariant t limit server) where
  handle_write-Kept :
      (handle : ℕ) (payload : Data)
      → Ends (Second WriteResult t limit) (Server.handle_write server handle payload)
  unfolding Server.handle_write
  handle_write-Kept handle payload =
      elim (Option-cases (find_first (has_handle handle) server.attributes)) [
        | inl absent ↦ rw (Server.handle_write, absent) (done-Ends _ h)
        | inr ((before, att, after), there) ↦
            let whole : before ++ (att ∷ after) ≡ server.attributes =
              subst (Splits server.attributes) there
                (find_first-Splits (has_handle handle) server.attributes) in
            rw (Server.handle_write, there)
              (if-Ends (not (writable att.content)) _ _ (done-Ends _ h) (
                bind-any (as_slice payload) _ λ bytes.
                  bind-any (write server.app att.content 0 bytes) _ λ r.
                    written-Kept t limit r.0 _ (length before) att.uuid payload
                      (with_content t limit server r.2 before after att r.1 whole h)))
      ]

  pub handle_write_cmd-Kept :
      (src handle : ℕ) (payload : Data)
      → Kept t limit (Server.handle_write_cmd server src handle payload)
  unfolding Server.handle_write_cmd
  handle_write_cmd-Kept src handle payload =
      bind-Ends (Server.handle_write server handle payload) _ (handle_write-Kept handle payload)
        λ r h'. done-Ends _ h'

  pub handle_write_req-Kept :
      (src handle : ℕ) (payload : Data)
      → Kept t limit (Server.handle_write_req server src handle payload)
  unfolding Server.handle_write_req
  handle_write_req-Kept src handle payload =
      bind-Ends (Server.handle_write server handle payload) _ (handle_write-Kept handle payload)
        λ r h'. respond-Kept t limit r.1 src _ h'

  pub handle_read_req-Kept :
      (src handle : ℕ) → Kept t limit (Server.handle_read_req server src handle)
  unfolding Server.handle_read_req
  handle_read_req-Kept src handle =
      bind-any new_att_read_response _
        λ d. respond_with_value-Kept t limit server h src handle 0 _ d

  pub handle_read_blob-Kept :
      (src handle offset : ℕ) → Kept t limit (Server.handle_read_blob server src handle offset)
  unfolding Server.handle_read_blob
  handle_read_blob-Kept src handle offset =
      bind-any new_att_read_blob_response _
        λ d. respond_with_value-Kept t limit server h src handle offset _ d

  -- The only handler that changes the MTU takes the smaller of the two sides' sizes.
  pub handle_exchange_mtu-Kept :
      (src mtu : ℕ) → Kept t limit (Server.handle_exchange_mtu server src mtu)
  unfolding Server.handle_exchange_mtu
  handle_exchange_mtu-Kept src mtu = respond-Kept t limit _ src _ (record {
    same_table = h.same_table;
    same_limit = h.same_limit;
    bounded = omega (arith, h.same_limit);
  })

  pub handle_find_information-Kept :
      (src start end : ℕ) → Kept t limit (Server.handle_find_information server src start end)
  unfolding Server.handle_find_information
  handle_find_information-Kept src start end = bind-any new_att_find_information_response _ λ d.
      bind-any (Server.find_information_loop server.attributes start end d) _ λ d'.
        if-Ends _ _ _ (write_att-Kept t limit server src d' h) (respond-Kept t limit server src _ h)

  pub handle_prepare_write-Kept :
      (src handle offset : ℕ) (payload : Data)
      → Kept t limit (Server.handle_prepare_write server src handle offset payload)
  unfolding Server.handle_prepare_write
  handle_prepare_write-Kept src handle offset payload =
      elim (Option-cases (find_first (has_handle handle) server.attributes)) [
        | inl absent ↦
            rw (Server.handle_prepare_write, absent)
              (bind-any (new_att_prepare_write_response handle offset) _
                λ d. respond-Kept t limit server src _ h)
        | inr ((before, att, after), there) ↦
            let whole : before ++ (att ∷ after) ≡ server.attributes =
              subst (Splits server.attributes) there
                (find_first-Splits (has_handle handle) server.attributes) in
            rw (Server.handle_prepare_write, there)
              (bind-any (new_att_prepare_write_response handle offset) _ λ d.
                bind-any (as_slice payload) _ λ bytes.
                  bind-any
                    (if writable att.content
                      then write server.app att.content offset bytes
                      else done (err Att.attribute_not_found, att.content, server.app))
                    _
                    λ r. bind-any (append d bytes) _ λ d'.
                      respond-Kept t limit _ src _
                        (with_content t limit server r.2 before after att r.1 whole h))
      ]
