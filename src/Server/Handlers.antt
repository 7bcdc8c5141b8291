-- ===== src/Server/Handlers.antt =====
-- The handlers of the requests: bleps/src/attribute_server.rs (93-106, 299-561).
use bleps.Common.{
  ℕ, ◌%◌, min, Bool, not, ◌&&◌, Option, none, some, List, [], ◌∷◌, ◌++◌, Run, done, ◌>>=◌, unwrap,
  Result, ok, err, ◌==◌, leb, if◌then◌else◌, length, get_elem?,
}
use bleps.Data
use bleps.Data.{Data, as_slice, append, append_u16, append_len, limit_len, checked_sub}
use bleps.Att.{
  Uuid, uuid16, uuid_eq, uuid_of, AttErrorCode, attribute_not_found, invalid_handle,
  write_not_permitted, att_read_by_group_type_request_opcode, att_read_by_type_request_opcode,
  att_read_request_opcode, att_write_request_opcode, att_find_by_type_value_request_opcode,
  att_find_information_req_opcode, att_prepare_write_req_opcode, att_read_blob_req_opcode,
}
use bleps.Att.Response.{
  new_att_read_by_group_type_response, append_att_read_by_group_type_response,
  new_att_error_response, new_att_read_by_type_response, append_att_read_by_type_response,
  new_att_read_response, new_att_write_response, new_att_exchange_mtu_response,
  new_att_find_information_response, append_att_find_information_response,
  has_att_find_information_response_data, new_att_prepare_write_response,
  new_att_execute_write_response, new_att_read_blob_response,
}
use bleps.Attribute.{
  Attribute, readable, writable, read, write, enable_notification, read_into, attribute_value,
}
use bleps.Server.State.{Server, find_first, write_att}

-- The Client Characteristic Configuration descriptor.
abbrev pub cccd_uuid : Uuid
cccd_uuid = uuid16 0x2902

module _ {S : Type 0} where
  abbrev pub has_handle : ℕ → Attribute S → Bool
  has_handle handle att = att.handle == handle

  abbrev pub in_range : Uuid → ℕ → ℕ → Attribute S → Bool
  in_range uuid start end att =
      uuid_eq att.uuid uuid && (leb start att.handle && leb att.handle end)

  -- The bytes that the caller's buffer holds afterwards come with the result.
  unfoldable pub get_characteristic_value :
      Server S → ℕ → ℕ → List ℕ → Run (Option ℕ × List ℕ × Server S)
  get_characteristic_value server handle offset buffer = do
    i ← checked_sub handle 1
    att ← unwrap (get_elem? server.attributes i)
    if readable att.content
        then (do
          (result, buffer', app) ← read server.app att.content offset buffer
          done (
            elim result [ ok len ↦ some len | err _ ↦ none ],
            buffer',
            record server { app = app },
          ))
        else done (none, buffer, server)

  unfoldable pub handle_read_by_group_type_req : Server S → ℕ → ℕ → ℕ → Uuid → Run (Server S)
  handle_read_by_group_type_req server src_handle start end group_type = do
    d ← new_att_read_by_group_type_response
    elim (find_first (in_range group_type start end) server.attributes) [
      | none ↦ do
        response ←
            new_att_error_response att_read_by_group_type_request_opcode start attribute_not_found
        write_att server src_handle response
      | some (before, att, after) ↦ do
        (val, app) ← attribute_value server.app att
        response ← elim val [
          | ok val ↦ do
            uuid ← uuid_of val
            append_att_read_by_group_type_response d att.handle att.last_handle_in_group uuid
          | err e ↦ new_att_error_response att_read_by_group_type_request_opcode att.handle e
        ]
        write_att (record server { app = app }) src_handle response
    ]

  unfoldable pub handle_read_by_type_req : Server S → ℕ → ℕ → ℕ → Uuid → Run (Server S)
  handle_read_by_type_req server src_handle start end attribute_type = do
    d ← new_att_read_by_type_response
    elim (find_first (in_range attribute_type start end) server.attributes) [
      | none ↦ do
        response ← new_att_error_response att_read_by_type_request_opcode start attribute_not_found
        write_att server src_handle response
      | some (before, att, after) ↦ do
        d ← append_u16 d att.handle
        if readable att.content
            then (do
              (result, d, app) ← read_into server.app att.content 0 d
              response ← elim result [
                | ok len ↦ append_att_read_by_type_response (append_len d len)
                | err e ↦ new_att_error_response att_read_by_type_request_opcode att.handle e
              ]
              write_att (record server { app = app }) src_handle response)
            else (do
              response ←
                  new_att_error_response att_read_by_type_request_opcode att.handle
                    attribute_not_found
              write_att server src_handle response)
    ]

  -- The loop and the response that a read request and a read blob request share: `d` is the
  -- response begun, and `opcode` the request's.
  unfoldable pub respond_with_value : Server S → ℕ → ℕ → ℕ → ℕ → Data → Run (Server S)
  respond_with_value server src_handle handle offset opcode d =
      elim (find_first (has_handle handle) server.attributes) [
        | none ↦ do
          response ← new_att_error_response opcode handle attribute_not_found
          write_att server src_handle response
        | some (before, att, after) ↦
            if readable att.content
            then (do
              (result, d, app) ← read_into server.app att.content offset d
              response ← elim result [
                | ok len ↦ done (limit_len (append_len d len) server.mtu)
                | err e ↦ new_att_error_response opcode handle e
              ]
              write_att (record server { app = app }) src_handle response)
            else (do
              response ← new_att_error_response opcode handle attribute_not_found
              write_att server src_handle response)
      ]

  unfoldable pub handle_read_req : Server S → ℕ → ℕ → Run (Server S)
  handle_read_req server src_handle handle = do
    d ← new_att_read_response
    respond_with_value server src_handle handle 0 att_read_request_opcode d

  unfoldable pub handle_read_blob : Server S → ℕ → ℕ → ℕ → Run (Server S)
  handle_read_blob server src_handle handle offset = do
    d ← new_att_read_blob_response
    respond_with_value server src_handle handle offset att_read_blob_req_opcode d

  -- The end of `handle_write`, once the attribute at `index` is written: a write to a CCCD goes on
  -- to the attribute before it.
  unfoldable pub notify_parent :
      Server S → ℕ → Uuid → Data → Run (Result {0, 0} AttErrorCode (Unit {0}) × Server S)
  notify_parent server index uuid payload =
      if not (uuid_eq uuid cccd_uuid) then done (ok tt, server) else (do
        i ← checked_sub index 1
        parent ← unwrap (get_elem? server.attributes i)
        bytes ← as_slice payload
        first ← Data.index bytes 0
        let (result, app) = enable_notification server.app parent.content ((first % 2) == 1)
        done (result, record server { app = app }))

  unfoldable pub handle_write :
      Server S → ℕ → Data → Run (Result {0, 0} AttErrorCode (Unit {0}) × Server S)
  handle_write server handle payload = elim (find_first (has_handle handle) server.attributes) [
    | none ↦ done (err invalid_handle, server)
    | some (before, att, after) ↦
        if not (writable att.content) then done (err write_not_permitted, server) else (do
          bytes ← as_slice payload
          (result, content, app) ← write server.app att.content 0 bytes
          let written = record server {
            attributes = before ++ record att { content = content } ∷ after;
            app = app;
          }
          elim result [
            | err e ↦ done (err e, written)
            | ok _ ↦ notify_parent written (length before) att.uuid payload
          ])
  ]

  unfoldable pub handle_write_cmd : Server S → ℕ → ℕ → Data → Run (Server S)
  handle_write_cmd server src_handle handle payload = do
    (_, server) ← handle_write server handle payload
    done server

  unfoldable pub handle_write_req : Server S → ℕ → ℕ → Data → Run (Server S)
  handle_write_req server src_handle handle payload = do
    (result, server) ← handle_write server handle payload
    response ← elim result [
      | ok _ ↦ new_att_write_response
      | err e ↦ new_att_error_response att_write_request_opcode handle e
    ]
    write_att server src_handle response

  unfoldable pub handle_exchange_mtu : Server S → ℕ → ℕ → Run (Server S)
  handle_exchange_mtu server src_handle mtu = do
    let server = record server { mtu = min mtu server.max_mtu }
    response ← new_att_exchange_mtu_response server.mtu
    write_att server src_handle response

  unfoldable pub handle_find_type_value : Server S → ℕ → ℕ → ℕ → ℕ → ℕ → Run (Server S)
  handle_find_type_value server src_handle start end attr_type attr_value = do
    response ←
        new_att_error_response att_find_by_type_value_request_opcode start attribute_not_found
    write_att server src_handle response

  -- The loop over the attributes: it ends at the first one in range whose UUID has another size.
  unfoldable pub find_information_loop : List (Attribute S) → ℕ → ℕ → Data → Run Data
  find_information_loop [] start end d = done d
  find_information_loop (att ∷ atts) start end d =
      let rest = find_information_loop atts start end in
      if leb start att.handle && leb att.handle end
      then (do
        (d', more) ← append_att_find_information_response d att.handle att.uuid
        if more then rest d' else done d')
      else rest d

  unfoldable pub handle_find_information : Server S → ℕ → ℕ → ℕ → Run (Server S)
  handle_find_information server src_handle start end = do
    d ← new_att_find_information_response
    d ← find_information_loop server.attributes start end d
    if has_att_find_information_response_data d then write_att server src_handle d else (do
      response ← new_att_error_response att_find_information_req_opcode start attribute_not_found
      write_att server src_handle response)

  unfoldable pub handle_prepare_write : Server S → ℕ → ℕ → ℕ → Data → Run (Server S)
  handle_prepare_write server src_handle handle offset payload = do
    d ← new_att_prepare_write_response handle offset
    elim (find_first (has_handle handle) server.attributes) [
      | none ↦ do
        response ← new_att_error_response att_prepare_write_req_opcode handle attribute_not_found
        write_att server src_handle response
      | some (before, att, after) ↦ do
        bytes ← as_slice payload
        (result, content, app) ←
            if writable att.content
            then write server.app att.content offset bytes
            else done (err attribute_not_found, att.content, server.app)
        d ← append d bytes
        let server = record server {
          attributes = before ++ record att { content = content } ∷ after;
          app = app;
        }
        response ← elim result [
          | ok _ ↦ done d
          | err e ↦ new_att_error_response att_prepare_write_req_opcode handle e
        ]
        write_att server src_handle response
    ]

  unfoldable pub handle_execute_write : Server S → ℕ → ℕ → Run (Server S)
  handle_execute_write server src_handle flags = do
    response ← new_att_execute_write_response
    write_att server src_handle response
