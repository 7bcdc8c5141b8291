-- ===== src/Server/Invariant.antt =====
-- What every round of `do_work` of bleps/src/attribute_server.rs keeps: the table of the attributes,
-- and the bound of the MTU.
pub mod Handlers
pub mod Requests
pub mod Rounds
use bleps.Common.{
  ℕ, zero, suc, ◌+◌, ◌-◌, ◌%◌, ◌≤◌, ◌<◌, ◌≡◌, ◌≢◌, refl, sym, ap, ap₂, subst, ◌∙◌, min, Bool, true,
  false, not, Option, none, some, List, [], ◌∷◌, ◌++◌, map, arith, get_elem?, Run, done, panic,
  hang, stuck, ◌>>=◌, unwrap, Ends, done-Ends, if-Ends, bind-Ends, bind-any, Result, ok, err, ◌==◌,
  if◌then◌else◌, Option-cases, Bool-cases, inl, inr,
}
use bleps.Data
use bleps.Data.{Data, as_slice, append, append_u16, append_len, limit_len, checked_sub}
use bleps.Acl.{AclPacket}
use bleps.L2cap.{sm_channel}
use bleps.Att
use bleps.Att.{
  Uuid, uuid_of, Att, read_by_group_type_req, read_by_type_req, read_req, write_req, write_cmd,
  exchange_mtu, find_by_type_value, find_information, prepare_write_req, execute_write_req,
  read_blob_req,
}
use bleps.Event.{
  EventType, command_complete, disconnect_complete, number_of_completed_packets,
  connection_complete, long_term_key_request,
}
use bleps.Ble
use bleps.Ble.{PollResult, event, async_data}
use bleps.Attribute.{Attribute, AttData, readable, writable, write}
use bleps.Hci.{Hci}
use bleps.Server

-- What a client can find out about an attribute without reading it.
abbrev pub entry : {S : Type 0} → Attribute S → Uuid × ℕ × ℕ
entry att = (att.uuid, att.handle, att.last_handle_in_group)

module _ {S : Type 0} where
  abbrev pub table : List (Attribute S) → List (Uuid × ℕ × ℕ)
  table atts = map entry atts

  -- The attributes have the given table, the MTU's limit is the given one, and the MTU is within it.
  pub record Invariant (t : List (Uuid × ℕ × ℕ)) (limit : ℕ) (server : Server.Server S)
      : Type 0 where
    pub same_table : table server.attributes ≡ t
    pub same_limit : server.max_mtu ≡ limit
    pub bounded : server.mtu ≤ limit

  map-replace :
      (before after : List (Attribute S)) (att : Attribute S) (a : AttData S)
      → table (before ++ (record att { content = a } ∷ after)) ≡ table (before ++ (att ∷ after))
  map-replace [] after att a = refl
  map-replace (b ∷ before) after att a = ap (λ l. entry b ∷ l) (map-replace before after att a)

  -- The three parts of a search make up the list.
  abbrev pub Splits :
      List (Attribute S) → Option (List (Attribute S) × Attribute S × List (Attribute S)) → Type 0
  Splits atts none = Unit
  Splits atts (some (before, att, after)) = before ++ (att ∷ after) ≡ atts

  later-Splits :
      (a : Attribute S) (atts : List (Attribute S))
      (o : Option (List (Attribute S) × Attribute S × List (Attribute S)))
      → Splits atts o
      → Splits
          (a ∷ atts)
          (elim o [ none ↦ none | some (before, found, after) ↦ some (a ∷ before, found, after) ])
  later-Splits a atts none h = tt
  later-Splits a atts (some (before, found, after)) h = ap (λ l. a ∷ l) h

  pub find_first-Splits :
      (p : Attribute S → Bool) (atts : List (Attribute S)) → Splits atts (Server.find_first p atts)
  unfolding Server.find_first
  find_first-Splits p [] = tt
  find_first-Splits p (a ∷ atts) = elim (Bool-cases (p a)) [
    | inl first ↦ rw first refl
    | inr later ↦
        rw later (later-Splits a atts (Server.find_first p atts) (find_first-Splits p atts))
  ]

module _ {S : Type 0} (t : List (Uuid × ℕ × ℕ)) (limit : ℕ) where
  -- The goal of a handler.
  abbrev pub Kept : Run (Server.Server S) → Type 0
  Kept m = Ends (Invariant t limit) m

  pub write_att-Kept :
      (server : Server.Server S) (handle : ℕ) (d : Data)
      → Invariant t limit server
      → Kept (Server.write_att server handle d)
  unfolding Server.write_att
  write_att-Kept server handle d h =
      let kept : (hci : Hci) → Invariant t limit (record server { hci = hci }) = λ hci. record {
        same_table = h.same_table;
        same_limit = h.same_limit;
        bounded = h.bounded;
      } in
      search (bind-any, done-Ends, kept) depth 8

  -- A response is made, and sent.
  pub respond-Kept :
      (server : Server.Server S) (handle : ℕ) (m : Run Data)
      → Invariant t limit server
      → Kept (m >>= Server.write_att server handle)
  respond-Kept server handle m h =
      bind-any m (Server.write_att server handle) (λ d. write_att-Kept server handle d h)

  -- A new state of the application, or a new content of an attribute.
  pub with_app :
      (server : Server.Server S) (app : S)
      → Invariant t limit server
      → Invariant t limit (record server { app = app })
  with_app server app h = record {
    same_table = h.same_table;
    same_limit = h.same_limit;
    bounded = h.bounded;
  }

  pub with_content :
      (server : Server.Server S) (app : S) (before after : List (Attribute S)) (att : Attribute S)
      (a : AttData S)
      → before ++ (att ∷ after) ≡ server.attributes
      → Invariant t limit server
      → Invariant t limit
          (record server { attributes = before ++ (record att { content = a } ∷ after); app = app })
  with_content server app before after att a e h = record {
    same_table = map-replace before after att a ∙ ap table e ∙ h.same_table;
    same_limit = h.same_limit;
    bounded = h.bounded;
  }

pub ruleset kept = (bind-any, done-Ends, if-Ends, write_att-Kept)
