-- ===== src/Examples/Secured.antt =====
-- The theorems on the server with a security manager, on the small device.
use bleps.Common.{
  map, ◌≡◌, refl, none, some, List, [], ◌∷◌, ◌++◌, arith, done, ok, le_bytes, u16_le,
}
use bleps.Data.{Data}
use bleps.Data.Buffer.{Represents}
use bleps.Hci.{Hci}
use bleps.Hci.Reads.{delivering}
use bleps.Event.{command_complete, long_term_key_request}
use bleps.Command.{Command, opcode_of}
use bleps.Command.Encoding.{command_bytes}
use bleps.Ble.{run_command}
use bleps.Ble.Waiting.{completes}
use bleps.Ble.Behind.{Passed, nothing, other, arrivals, run_command_behind}
use bleps.Attribute.{Attribute}
use bleps.Server.{did_work}
use bleps.Server.Invariant.{table}
use bleps.Server
use bleps.Sm
use bleps.Ble
use bleps.Hci
use bleps.Secure.{
  SecureServer, new_with_ltk, handle_event, handle_poll_result, do_work_with_notification,
  set_pin_callback,
}
use bleps.Secure.Rounds.{Holds}
use bleps.Secure.Keys.{holding, long_term_key_lem}
use bleps.Secure.Reach.{Reaches, Step, reached-Holds}
use bleps.Examples.{silent, device, attributes_of}
use bleps.Examples.Security.{toy, rng, addr_b}

-- The first poll finds nothing, the second the completion of another command.
abbrev before_answer : List Passed
before_answer = nothing ∷ other 1 0x0c01 (0 ∷ []) ∷ []

abbrev answering_late : Hci
answering_late = record silent {
  reads = arrivals before_answer (map some (completes 1 0x0c03 (0 ∷ [])) ++ some 4 ∷ []);
}

run_command_behind_example :
    (d : Data) × (run_command 3 Command.reset 0x03 0x03 answering_late
      ≡ done (
        ok (command_complete 1 0x0c03 d),
        record silent { reads = some 4 ∷ []; ticks = 3; written = 0x01 ∷ 0x03 ∷ 0x0c ∷ 0 ∷ [] },
      ))
    × Represents d (0 ∷ [])
unfolding opcode_of
run_command_behind_example =
    run_command_behind before_answer 0 0x03 0x03 1 0 [] Command.reset [] (some 4 ∷ []) silent refl
      refl (omega arith) (omega arith) (tt, ((refl, omega arith, omega arith), tt))
      (λ j lt. omega arith)

abbrev attributes : List (Attribute (Unit {0}))
attributes = attributes_of (7 ∷ 8 ∷ 9 ∷ []) (0 ∷ 0 ∷ [])

-- The device as the constructor leaves it.
abbrev secured : SecureServer (Unit {0})
secured = record {
  server = device;
  manager = record {
    ioa = none;
    skb = none;
    pkb = none;
    pka = none;
    confirm = none;
    na = none;
    nb = none;
    shared = none;
    mac_key = none;
    eb = none;
    local_address = some addr_b;
    peer_address = none;
    ltk = some 5;
    rng = rng;
  };
  pin_callback = none;
}

long_term_key_lem_example :
    handle_event 1
      (holding secured 5 (delivering (completes 1 0x201a (0 ∷ [])) [] silent))
      (long_term_key_request 64 0 0)
    ≡ done (
      did_work,
      holding secured 5 (record silent {
        ticks = 1;
        written =
            command_bytes
              (Command.le_long_term_key_request_reply 64 5)
              (u16_le 64 ++ le_bytes 16 5);
      }),
    )
long_term_key_lem_example = long_term_key_lem secured 5 0 1 64 0 0 0 [] [] silent (omega arith)

reached-Holds_example : Holds toy (table device.attributes) 128 (set_pin_callback secured none)
unfolding new_with_ltk Server.new_server Server.assign_handles Server.number_from
    Server.last_attribute Server.group_loop Server.group_step Sm.security_manager_new
    do_work_with_notification handle_poll_result Ble.poll Hci.read set_pin_callback
reached-Holds_example =
    reached-Holds toy 1 silent attributes tt 128 addr_b (some 5) rng secured
      (set_pin_callback secured none) (omega arith) refl
      (Reaches.then_step
        (Reaches.then_step Reaches.here (Step.round {s' = secured} none (ok did_work) refl))
        (Step.display none))
