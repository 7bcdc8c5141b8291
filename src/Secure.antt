-- ===== src/Secure.antt =====
-- bleps/src/attribute_server.rs with the feature `crypto`: the attribute server with a security
-- manager, which answers the packets of channel 6, and with a long term key for the controller.
pub mod Rounds
pub mod Keys
pub mod Reach
use bleps.Common.{
  [], ◌∷◌, false, ℕ, Bool, true, false, Option, none, some, List, Run, done, ◌>>=◌, Result, ok, err,
  ◌==◌, if◌then◌else◌, unwrap_ok,
}
use bleps.Data.{Data}
use bleps.Hci.{Hci}
use bleps.Acl.{AclPacket}
use bleps.L2cap
use bleps.L2cap.{L2capPacket, sm_channel}
use bleps.Event.{
  from_le_bytes, Addr, EventType, ConnectionComplete, command_complete, disconnect_complete,
  number_of_completed_packets, connection_complete, long_term_key_request,
}
use bleps.Attribute.{Attribute}
use bleps.Ble
use bleps.Ble.{PollResult, event, async_data}
use bleps.Crypto.{Primitives, Rng}
use bleps.Sm
use bleps.Sm.{SecurityManager, World, security_manager_new}
use bleps.Server
use bleps.Server.{
  Server, NotificationData, WorkResult, AttributeServerError, l2cap_error, did_work,
  got_disconnected, base_mtu, new_server,
}

-- `server` is the rest of the struct.
pub record SecureServer (S : Type 0) : Type 0 where
  pub server : Server S
  pub manager : SecurityManager
  pub pin_callback : Option (ℕ → S → S)

abbrev pub Outcome : Type 0 → Type 0
Outcome S = Result {0, 0} AttributeServerError WorkResult × SecureServer S

module _ {S : Type 0} where
  unfoldable pub new_with_ltk :
      Hci → List (Attribute S) → S → ℕ → Addr → Option ℕ → Rng → Run (SecureServer S)
  new_with_ltk hci attributes app max_mtu local_addr ltk rng = do
    server ← new_server hci attributes app max_mtu
    done (record {
      server = server;
      manager = record (security_manager_new rng) { local_address = some local_addr; ltk = ltk };
      pin_callback = none;
    })

  -- `new`: an address of zeros, and no key.
  unfoldable pub new : Hci → List (Attribute S) → S → ℕ → Rng → Run (SecureServer S)
  new hci attributes app max_mtu rng =
      new_with_ltk hci attributes app max_mtu (from_le_bytes false (0 ∷ 0 ∷ 0 ∷ 0 ∷ 0 ∷ 0 ∷ []))
        none rng

  unfoldable pub get_ltk : SecureServer S → Option ℕ
  get_ltk s = s.manager.ltk

  unfoldable pub set_pin_callback : SecureServer S → Option (ℕ → S → S) → SecureServer S
  set_pin_callback s pin_callback = record s { pin_callback = pin_callback }

  -- The part of the server that the security manager works on, and the server after it.
  abbrev pub world_of : SecureServer S → World S
  world_of s = record {
    manager = s.manager;
    hci = s.server.hci;
    app = s.server.app;
    pin_callback = s.pin_callback;
  }

  abbrev pub with_world : SecureServer S → World S → SecureServer S
  with_world s w = record s {
    server = record s.server { hci = w.hci; app = w.app };
    manager = w.manager;
  }

  -- `if status == 0 { self.security_manager.peer_address = Some(…) }`.
  unfoldable pub connected : SecureServer S → ConnectionComplete → SecureServer S
  connected s c =
      if c.status == 0
      then (record s { manager = record s.manager { peer_address = some c.peer_address } })
      else s

  -- `fuel` bounds the rounds of waiting for the controller's answer.
  unfoldable pub reply_with_key : ℕ → SecureServer S → ℕ → Option ℕ → Run (SecureServer S)
  reply_with_key fuel s handle none = done s
  reply_with_key fuel s handle (some ltk) = do
    (r, hci) ← Ble.cmd_long_term_key_request_reply fuel handle ltk s.server.hci
    e ← unwrap_ok r
    done (record s { server = record s.server { hci = hci } })

  unfoldable pub handle_event : ℕ → SecureServer S → EventType → Run (WorkResult × SecureServer S)
  handle_event fuel s (disconnect_complete handle status reason) =
      done (got_disconnected, record s { server = record s.server { mtu = base_mtu } })
  handle_event fuel s (connection_complete c) = done (did_work, connected s c)
  handle_event fuel s (long_term_key_request handle random diversifier) = do
    s ← reply_with_key fuel s handle s.manager.ltk
    done (did_work, s)
  handle_event fuel s (command_complete n code payload) = done (did_work, s)
  handle_event fuel s (number_of_completed_packets n handles packets) = done (did_work, s)
  handle_event fuel s EventType.unknown = done (did_work, s)

module _ {S : Type 0} (p : Primitives) where
  unfoldable pub handle_security : SecureServer S → ℕ → L2capPacket → Run (Outcome S)
  handle_security s src_handle l2cap_packet = do
    (r, w) ← Sm.handle p (world_of s) src_handle l2cap_packet.payload
    elim r [ err e ↦ done (err e, with_world s w) | ok _ ↦ done (ok did_work, with_world s w) ]

  unfoldable pub handle_att : SecureServer S → ℕ → L2capPacket → Run (Outcome S)
  handle_att s src_handle l2cap_packet = do
    (r, server) ← Server.handle_att s.server src_handle l2cap_packet
    done (r, record s { server = server })

  unfoldable pub handle_packet : SecureServer S → AclPacket → Run (Outcome S)
  handle_packet s packet = do
    l2cap ← L2cap.decode packet
    elim l2cap [
      | err e ↦ done (err (l2cap_error e), s)
      | ok (src_handle, l2cap_packet) ↦
          if l2cap_packet.channel == sm_channel
          then handle_security s src_handle l2cap_packet
          else handle_att s src_handle l2cap_packet
    ]

  unfoldable pub handle_poll_result : ℕ → SecureServer S → Option PollResult → Run (Outcome S)
  handle_poll_result fuel s none = done (ok did_work, s)
  handle_poll_result fuel s (some (event e)) = do (r, s) ← handle_event fuel s e; done (ok r, s)
  handle_poll_result fuel s (some (async_data packet)) = handle_packet s packet

  unfoldable pub do_work_with_notification :
      ℕ → SecureServer S → Option NotificationData → Run (Outcome S)
  do_work_with_notification fuel s notification_data = do
    server ← elim notification_data [
      | some notification ↦ Server.send_notification s.server notification
      | none ↦ done s.server
    ]
    (packet, hci) ← Ble.poll server.hci
    handle_poll_result fuel (record s { server = record server { hci = hci } }) packet
