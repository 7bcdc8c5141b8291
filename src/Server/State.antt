-- ===== src/Server/State.antt =====
-- The state of `AttributeServer`, and `write_att`.
use bleps.Common.{ℕ, Option, none, some, Bool, List, [], ◌∷◌, Run, done, ◌>>=◌, if◌then◌else◌}
use bleps.Data.{Data, as_slice}
use bleps.Hci.{Hci, write_bytes}
use bleps.Acl
use bleps.L2cap
use bleps.Attribute.{Attribute}

abbrev pub base_mtu : ℕ
base_mtu = 23

-- `ble` is reduced to its connection. `app` is the state of the application's closures, and
-- `max_mtu` the constant `MTU`, which a feature of the build sets to 23, 128 or 256.
pub record Server (S : Type 0) : Type 0 where
  pub mtu : ℕ
  pub src_handle : ℕ
  pub attributes : List (Attribute S)
  pub app : S
  pub hci : Hci
  pub max_mtu : ℕ

-- A `for` loop over the attributes that ends at the first one with the property: what stands
-- before that one, itself, and the rest.
unfoldable pub find_first :
    {S : Type 0}
    → (Attribute S → Bool)
    → List (Attribute S)
    → Option (List (Attribute S) × Attribute S × List (Attribute S))
find_first p [] = none
find_first p (a ∷ rest) = if p a then some ([], a, rest) else elim (find_first p rest) [
  | none ↦ none
  | some (before, found, after) ↦ some (a ∷ before, found, after)
]

unfoldable pub write_att : {S : Type 0} → Server S → ℕ → Data → Run (Server S)
write_att server handle d = do
  l2cap ← L2cap.encode d
  acl ← Acl.encode handle Acl.first_auto_flushable Acl.no_broadcast l2cap
  bytes ← as_slice acl
  (_, hci) ← write_bytes bytes server.hci
  done (record server { hci = hci })
