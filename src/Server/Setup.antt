-- ===== src/Server/Setup.antt =====
-- `AttributeServer::new_with_ltk` of bleps/src/attribute_server.rs (604-648): handles and groups.
use bleps.Common.{
  ℕ, zero, suc, ◌+◌, ◌-◌, ◌%◌, ◌^◌, Bool, ◌&&◌, Option, none, some, List, [], ◌∷◌, Run, done, ◌>>=◌,
  ◌>>◌, require, unwrap, ltb, if◌then◌else◌, length, get_elem?, set,
}
use bleps.Att.{Uuid, uuid16, uuid_eq}
use bleps.Attribute.{Attribute}
use bleps.Hci.{Hci}
use bleps.Server.State.{Server, base_mtu}

abbrev pub primary_service_uuid : Uuid
primary_service_uuid = uuid16 0x2800

module _ {S : Type 0} where
  abbrev pub is_primary : Attribute S → Bool
  is_primary att = uuid_eq att.uuid primary_service_uuid

  -- `for (i, attr) in …enumerate() { attr.handle = i as u16 + 1; }`, from `i` on.
  unfoldable pub number_from : ℕ → List (Attribute S) → Run (List (Attribute S))
  number_from i [] = done []
  number_from i (att ∷ atts) = do
    let index : ℕ = i % 2 ^ 16
    require (ltb (index + 1) (2 ^ 16))
    rest ← number_from (i + 1) atts
    done (record att { handle = index + 1 } ∷ rest)

  -- One round of the loop over the groups, for the attribute at `i`: the attributes, and the last
  -- handle of the group that ends before `i`.
  unfoldable pub group_step : ℕ → List (Attribute S) → ℕ → Run (List (Attribute S) × ℕ)
  group_step i atts last_in_group = do
    att ← unwrap (get_elem? atts i)
    let atts = set atts i (record att { last_handle_in_group = last_in_group })
    if is_primary att && ltb 0 i
        then (do previous ← unwrap (get_elem? atts (i - 1)); done (atts, previous.handle))
        else done (atts, last_in_group)

  -- `for i in (0..n).rev()`.
  unfoldable pub group_loop : ℕ → List (Attribute S) → ℕ → Run (List (Attribute S))
  group_loop zero atts last_in_group = done atts
  group_loop (suc i) atts last_in_group = do
    (atts', last') ← group_step i atts last_in_group
    group_loop i atts' last'

  -- `attributes.last()`.
  unfoldable pub last_attribute : List (Attribute S) → Option (Attribute S)
  last_attribute [] = none
  last_attribute (att ∷ []) = some att
  last_attribute (att ∷ next ∷ rest) = last_attribute (next ∷ rest)

  -- The attributes as the constructor leaves them.
  unfoldable pub assign_handles : List (Attribute S) → Run (List (Attribute S))
  assign_handles attributes = do
    atts ← number_from 0 attributes
    last ← unwrap (last_attribute atts)
    group_loop (length atts) atts last.handle

  unfoldable pub new_server : Hci → List (Attribute S) → S → ℕ → Run (Server S)
  new_server hci attributes app max_mtu = do
    atts ← assign_handles attributes
    done (record {
      mtu = base_mtu;
      src_handle = 0;
      attributes = atts;
      app = app;
      hci = hci;
      max_mtu = max_mtu;
    })
