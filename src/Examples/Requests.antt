-- ===== src/Examples/Requests.antt =====
-- The theorems on whole requests, and on the server's state, on the small device.
use bleps.Common.{
  Ends, ℕ, ◌≡◌, refl, Bool, true, none, some, List, [], ◌∷◌, arith, done, ◌>>=◌, ok, length,
}
use bleps.Att.{Att, uuid16}
use bleps.Att.RoundTrip.{Request, Matches}
use bleps.Attribute.{Attribute, closures, enable_notification, writable}
use bleps.Gatt.Stored.{cccd_data, write_cccd}
use bleps.Attribute.Memory.{overwritten}
use bleps.Server.{
  Server, do_work, do_work_with_notification, dispatch, did_work, handle_read_req, handle_write,
  handle_exchange_mtu, assign_handles,
}
use bleps.Server.Handles.{Numbered}
use bleps.Server.Replies.{sent}
use bleps.Server.Reads.{handle_read_req_lem}
use bleps.Server.Writes.{handle_write_memory, handle_write_cccd}
use bleps.Server.Groups.{grouped, assign_handles_lem}
use bleps.Server.Service.{serve_request, serve_read, handle_exchange_mtu_lem}
use bleps.Server.Invariant.{Invariant, table}
use bleps.Server.Invariant.Rounds.{do_work_with_notification-Kept}
use bleps.Server.Invariant.Requests.{Second}
use bleps.Examples.{
  data_of, data_of-Represents, silent, service, value_of, device_on, device, head, tail,
  head-IsSent, tail-IsSent, asking, answering,
}

device-Numbered : Numbered 1 device.attributes
device-Numbered = (refl, (refl, (refl, tt)))

device-Invariant :
    Invariant (table device.attributes) 128 (device_on asking (7 ∷ 8 ∷ 9 ∷ []) (0 ∷ 0 ∷ []))
device-Invariant = record { same_table = refl; same_limit = refl; bounded = omega arith }

serve_read_example :
    do_work (device_on asking (7 ∷ 8 ∷ 9 ∷ []) (0 ∷ 0 ∷ []))
    ≡ done (
      ok did_work,
      sent (device_on answering (7 ∷ 8 ∷ 9 ∷ []) (0 ∷ 0 ∷ [])) 64 (0x0b ∷ 7 ∷ 8 ∷ 9 ∷ []),
    )
serve_read_example =
    serve_read 1 (value_of (7 ∷ 8 ∷ 9 ∷ [])) (7 ∷ 8 ∷ 9 ∷ []) head (tail ∷ [])
      (device_on asking (7 ∷ 8 ∷ 9 ∷ []) (0 ∷ 0 ∷ [])) (some 4 ∷ []) silent refl device-Numbered
      refl refl (omega arith) (omega arith) head-IsSent (tail-IsSent, tt) (omega arith) refl

serve_request_example :
    (a : Att) × Matches (Request.read 2) a
    × (do_work (device_on asking (7 ∷ 8 ∷ 9 ∷ []) (0 ∷ 0 ∷ []))
        ≡ dispatch (device_on answering (7 ∷ 8 ∷ 9 ∷ []) (0 ∷ 0 ∷ [])) 64 a >>= λ server'.
            done (ok did_work, server'))
serve_request_example =
    serve_request (Request.read 2) head (tail ∷ []) (device_on asking (7 ∷ 8 ∷ 9 ∷ []) (0 ∷ 0 ∷ []))
      (some 4 ∷ []) silent refl (omega arith) head-IsSent (tail-IsSent, tt) (omega arith) refl
      (omega arith)

do_work_with_notification-Kept_example : Ends (Second _ (table device.attributes) 128) (
    do_work_with_notification
      (device_on asking (7 ∷ 8 ∷ 9 ∷ []) (0 ∷ 0 ∷ []))
      (some (record { handle = 2; payload = data_of (7 ∷ []) })))
do_work_with_notification-Kept_example =
    do_work_with_notification-Kept (table device.attributes) 128 (omega arith)
      (device_on asking (7 ∷ 8 ∷ 9 ∷ []) (0 ∷ 0 ∷ []))
      (some (record { handle = 2; payload = data_of (7 ∷ []) })) device-Invariant

handle_read_req_lem_example :
    handle_read_req device 64 2 ≡ done (sent device 64 (0x0b ∷ 7 ∷ 8 ∷ 9 ∷ []))
handle_read_req_lem_example =
    handle_read_req_lem device 64 device-Numbered 1 (value_of (7 ∷ 8 ∷ 9 ∷ [])) (7 ∷ 8 ∷ 9 ∷ [])
      refl refl (omega arith)

handle_write_memory_example :
    (handle_write device 2 (data_of (5 ∷ 6 ∷ []))
      ≡ done (ok tt, device_on silent (5 ∷ 6 ∷ 9 ∷ []) (0 ∷ 0 ∷ [])))
    × (length (overwritten (7 ∷ 8 ∷ 9 ∷ []) 0 (5 ∷ 6 ∷ [])) ≡ length {A = ℕ} (7 ∷ 8 ∷ 9 ∷ []))
unfolding writable
handle_write_memory_example =
    handle_write_memory device device-Numbered 1 (value_of (7 ∷ 8 ∷ 9 ∷ [])) (7 ∷ 8 ∷ 9 ∷ [])
      (5 ∷ 6 ∷ []) refl refl refl refl (data_of-Represents (5 ∷ 6 ∷ []) (omega arith))

-- A value whose application notes whether notifications are wanted, and the CCCD of `gatt!` behind it;
-- the state is the CCCD's static array and what was noted.
abbrev noted : List (Attribute (List ℕ × List Bool))
noted =
    record {
      uuid = uuid16 0x2a00;
      handle = 1;
      content = closures none none (some (λ s enabled. (ok tt, (s.0, enabled ∷ s.1))));
      last_handle_in_group = 2;
    }
    ∷ record {
      uuid = uuid16 0x2902;
      handle = 2;
      content = cccd_data (λ s. s.0) (λ backing s. (backing, s.1));
      last_handle_in_group = 2;
    }
    ∷ []

abbrev noting : List ℕ → List Bool → Server (List ℕ × List Bool)
noting backing notes = record {
  mtu = 23;
  src_handle = 0;
  attributes = noted;
  app = (backing, notes);
  hci = silent;
  max_mtu = 128;
}

handle_write_cccd_example :
    handle_write (noting (0 ∷ 0 ∷ []) []) 2 (data_of (1 ∷ 0 ∷ []))
    ≡ done (ok tt, noting (1 ∷ 0 ∷ []) (true ∷ []))
unfolding writable enable_notification
handle_write_cccd_example =
    handle_write_cccd (noting (0 ∷ 0 ∷ []) []) (refl, (refl, tt)) 0 _ _ (1 ∷ 0 ∷ []) _ _ refl refl
      refl refl (data_of-Represents (1 ∷ 0 ∷ []) (omega arith))
      (write_cccd (0 ∷ 0 ∷ [], []) (λ s. s.0) (λ backing s. (backing, s.1)) 0 (1 ∷ 0 ∷ []))

handle_exchange_mtu_lem_example :
    handle_exchange_mtu device 64 256
    ≡ done (sent (record device { mtu = 128 }) 64 (0x03 ∷ 128 ∷ 0 ∷ []))
handle_exchange_mtu_lem_example = handle_exchange_mtu_lem device 64 256

assign_handles_lem_example :
    assign_handles (service ∷ service ∷ value_of [] ∷ [])
    ≡ done (grouped 1 (service ∷ service ∷ value_of [] ∷ []))
assign_handles_lem_example = assign_handles_lem service (service ∷ value_of [] ∷ []) (omega arith)
