-- ===== src/Examples.antt =====
-- A small device on which the theorems are applied: a service with a value and its CCCD.
mod Link
mod Attributes
mod Requests
mod Security
mod Macros
mod Secured
mod Notified
mod Discovered
mod Generated
use bleps.Common.{
  ℕ, zero, suc, ◌+◌, ◌-◌, ◌≤◌, ◌≡◌, refl, Option, none, some, List, [], ◌∷◌, ◌++◌, append-nil,
  arith, length, length-append, length-replicate, replicate,
}
use bleps.Data.{Data, capacity}
use bleps.Data.Buffer.{Represents}
use bleps.Hci.{Hci}
use bleps.Hci.Reads.{delivering}
use bleps.Acl.{first_auto_flushable, continuing, no_broadcast}
use bleps.Att.{uuid16}
use bleps.Attribute.{Attribute, array, array_mut}
use bleps.Ble.Reassembly.{Fragment, IsSent, stream}
use bleps.Server.{Server}

-- A buffer with the given bytes.
abbrev pub data_of : List ℕ → Data
data_of bs = record { buf = bs ++ replicate (capacity - length bs) 0; len = length bs }

pub data_of-Represents : (bs : List ℕ) → length bs ≤ capacity → Represents (data_of bs) bs
data_of-Represents bs h = record {
  spare = replicate (capacity - length bs) 0;
  layout = refl;
  size = refl;
  full = omega (arith, length-replicate {A = ℕ} (capacity - length bs) 0);
}

abbrev pub silent : Hci
silent = record { reads = []; clock = λ n. n; ticks = 0; written = [] }

abbrev pub service : Attribute (Unit {0})
service = record {
  uuid = uuid16 0x2800;
  handle = 1;
  content = array (0x0a ∷ 0x18 ∷ []);
  last_handle_in_group = 3;
}

abbrev pub value_of : List ℕ → Attribute (Unit {0})
value_of xs = record {
  uuid = uuid16 0x2a00;
  handle = 2;
  content = array_mut xs;
  last_handle_in_group = 3;
}

abbrev pub cccd_of : List ℕ → Attribute (Unit {0})
cccd_of xs = record {
  uuid = uuid16 0x2902;
  handle = 3;
  content = array_mut xs;
  last_handle_in_group = 3;
}

abbrev pub attributes_of : List ℕ → List ℕ → List (Attribute (Unit {0}))
attributes_of xs ys = service ∷ value_of xs ∷ cccd_of ys ∷ []

abbrev pub device_on : Hci → List ℕ → List ℕ → Server (Unit {0})
device_on hci xs ys = record {
  mtu = 23;
  src_handle = 0;
  attributes = attributes_of xs ys;
  app = tt;
  hci = hci;
  max_mtu = 128;
}

abbrev pub device : Server (Unit {0})
device = device_on silent (7 ∷ 8 ∷ 9 ∷ []) (0 ∷ 0 ∷ [])

-- The read of the handle 2, in two fragments.
abbrev pub head : Fragment
head = record {
  handle = 64;
  pb = first_auto_flushable;
  bc = no_broadcast;
  bytes = 3 ∷ 0 ∷ 4 ∷ 0 ∷ [];
}

abbrev pub tail : Fragment
tail = record { handle = 64; pb = continuing; bc = no_broadcast; bytes = 0x0a ∷ 2 ∷ 0 ∷ [] }

pub head-IsSent : IsSent head
head-IsSent = record { handle_fits = omega arith; fits = omega arith; carries = omega arith }

pub tail-IsSent : IsSent tail
tail-IsSent = record { handle_fits = omega arith; fits = omega arith; carries = omega arith }

abbrev pub asking : Hci
asking = delivering (stream (head ∷ tail ∷ [])) (some 4 ∷ []) silent

abbrev pub answering : Hci
answering = record silent { reads = some 4 ∷ [] }
