-- ===== src/Secure/Reach.antt =====
-- Every state that the server with a security manager comes to from its constructor, whatever the
-- controller and the application do.
use bleps.Common.{
  ℕ, ◌≤◌, ◌≡◌, refl, Option, List, done, Result, Ends, done-Ends, bind-Ends, bind-any, inl,
}
use bleps.Data.{Data, as_slice}
use bleps.Hci.{Hci, write_bytes}
use bleps.Command
use bleps.Event.{Addr, Error, EventType}
use bleps.Att.{Uuid}
use bleps.Attribute.{Attribute}
use bleps.Ble
use bleps.Crypto.{Primitives, Rng}
use bleps.Sm.{security_manager_new}
use bleps.Server
use bleps.Server.{Server, NotificationData, base_mtu, assign_handles, new_server}
use bleps.Server.Invariant.{Invariant, table}
use bleps.Server.Invariant.Handlers.{get_characteristic_value-Kept}
use bleps.Server.Invariant.Rounds.{with_hci}
use bleps.Secure.{SecureServer, new_with_ltk, set_pin_callback, do_work_with_notification}
use bleps.Secure.Rounds.{Holds, do_work_with_notification-Holds}

module _ {S : Type 0} (p : Primitives) (fuel : ℕ) where
  abbrev with_server : SecureServer S → Server S → SecureServer S
  with_server s server = record s { server = server }

  -- A call of the application, or what the controller does between two calls.
  pub data Step : SecureServer S → SecureServer S → Type 0 where
    round :
        {s s' : SecureServer S} (notification : Option NotificationData) (r : _)
        → do_work_with_notification p fuel s notification ≡ done (r, s')
        → Step s s'
    display : {s : SecureServer S} (f : Option (ℕ → S → S)) → Step s (set_pin_callback s f)
    advertise :
        {s : SecureServer S} {server : Server S} (payload : Data)
        (r : Result {0, 0} Error EventType)
        → Server.update_le_advertising_data fuel s.server payload ≡ done (r, server)
        → Step s (with_server s server)
    drop :
        {s : SecureServer S} {server : Server S} (reason : ℕ) (r : Result {0, 0} Error EventType)
        → Server.disconnect s.server reason ≡ done (r, server)
        → Step s (with_server s server)
    look_up :
        {s : SecureServer S} {server : Server S} (handle offset : ℕ) (buffer : List ℕ)
        (len : Option ℕ) (buffer' : List ℕ)
        → Server.get_characteristic_value s.server handle offset buffer
          ≡ done (len, buffer', server)
        → Step s (with_server s server)
    arrival :
        {s : SecureServer S} (hci : Hci) → Step s (with_server s (record s.server { hci = hci }))

  pub data Reaches (s : SecureServer S) : SecureServer S → Type 0 where
    here : Reaches s s
    then_step : {s' s'' : SecureServer S} → Reaches s s' → Step s' s'' → Reaches s s''

  started-Holds :
      (hci : Hci) (attributes : List (Attribute S)) (app : S) (max_mtu : ℕ) (addr : Addr)
      (ltk : Option ℕ) (rng : Rng)
      → base_mtu ≤ max_mtu
      → Ends
          (λ s. Holds p (table s.server.attributes) max_mtu s)
          (new_with_ltk hci attributes app max_mtu addr ltk rng)
  unfolding new_with_ltk security_manager_new new_server
  started-Holds hci attributes app max_mtu addr ltk rng at_least =
      bind-Ends {P = λ server. Invariant (table server.attributes) max_mtu server}
        (new_server hci attributes app max_mtu) _
        (bind-any (assign_handles attributes) _
          λ atts. done-Ends _ (record { same_table = refl; same_limit = refl; bounded = at_least }))
        λ server i. done-Ends _ (record { serves = i; secures = (inl refl, inl refl) })

  module _ (t : List (Uuid × ℕ × ℕ)) (limit : ℕ) (at_least : base_mtu ≤ limit) where
    advertised :
        (server : Server S) (payload : Data)
        → Invariant t limit server
        → Ends (λ r. Invariant t limit r.1) (Server.update_le_advertising_data fuel server payload)
    unfolding Server.update_le_advertising_data
    advertised server payload i =
        bind-any (Ble.run_command fuel _ _ _ server.hci) _
          λ (r, hci). done-Ends _ (with_hci t limit server hci i)

    dropped :
        (server : Server S) (reason : ℕ)
        → Invariant t limit server
        → Ends (λ r. Invariant t limit r.1) (Server.disconnect server reason)
    unfolding Server.disconnect
    dropped server reason i = bind-any (Command.encode _) _ λ d. bind-any (as_slice d) _ λ bytes.
        bind-any (write_bytes bytes server.hci) _
          λ (u, hci). done-Ends _ (with_hci t limit server hci i)

    step-Holds : {s s' : SecureServer S} → Step s s' → Holds p t limit s → Holds p t limit s'
    unfolding set_pin_callback
    step-Holds {s} {s'} (round notification r e) h =
        (do_work_with_notification-Holds p t limit at_least fuel s notification h).ends _ e
    step-Holds (display f) h = record { serves = h.serves; secures = h.secures }
    step-Holds {s} (advertise payload r e) h = record {
      serves = (advertised s.server payload h.serves).ends _ e;
      secures = h.secures;
    }
    step-Holds {s} (drop reason r e) h = record {
      serves = (dropped s.server reason h.serves).ends _ e;
      secures = h.secures;
    }
    step-Holds {s} (look_up handle offset buffer len buffer' e) h = record {
      serves =
          (get_characteristic_value-Kept t limit s.server h.serves handle offset buffer).ends _ e;
      secures = h.secures;
    }
    step-Holds {s} (arrival hci) h = record {
      serves = with_hci t limit s.server hci h.serves;
      secures = h.secures;
    }

    steps-Holds : {s s' : SecureServer S} → Reaches s s' → Holds p t limit s → Holds p t limit s'
    steps-Holds here h = h
    steps-Holds (then_step before step) h = step-Holds step (steps-Holds before h)

  -- From the constructor on, through every public call that changes the server (rounds with and
  -- without notifications, reads of a characteristic's value, updates of the advertising data,
  -- disconnects, new callbacks) and anything that the controller sends: the table of the attributes
  -- stays as the constructor made it, the MTU stays within its limit, and the security manager stays
  -- consistent: where it has an own nonce, its keys, nonce and confirm value are of one exchange, and
  -- where it has the peer's nonce, the results of stage 2 are computed of that nonce and of one
  -- shared secret.
  pub reached-Holds :
      (hci : Hci) (attributes : List (Attribute S)) (app : S) (max_mtu : ℕ) (addr : Addr)
      (ltk : Option ℕ) (rng : Rng) (s s' : SecureServer S)
      → base_mtu ≤ max_mtu
      → new_with_ltk hci attributes app max_mtu addr ltk rng ≡ done s
      → Reaches s s'
      → Holds p (table s.server.attributes) max_mtu s'
  reached-Holds hci attributes app max_mtu addr ltk rng s s' at_least made reached =
      steps-Holds (table s.server.attributes) max_mtu at_least reached
        ((started-Holds hci attributes app max_mtu addr ltk rng at_least).ends s made)
