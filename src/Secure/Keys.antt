-- ===== src/Secure/Keys.antt =====
-- How the server with a security manager hands the long term key to the controller.
use bleps.Common.{
  ℕ, suc, ◌+◌, ◌≤◌, ◌≡◌, refl, Option, some, List, ◌∷◌, ◌++◌, arith, done, panic, length, le_bytes,
  u16_le, ◌==◌, if◌then◌else◌, Bool-cases, inl, inr,
}
use bleps.Data.{capacity}
use bleps.Hci.{Hci}
use bleps.Hci.Reads.{delivering}
use bleps.Event.{long_term_key_request}
use bleps.Command.{Command, opcode_of}
use bleps.Command.Encoding.{command_bytes}
use bleps.Ble
use bleps.Ble.Waiting.{completes}
use bleps.Ble.Commands.{run_command_lem}
use bleps.Server.{did_work}
use bleps.Secure.{SecureServer, handle_event, reply_with_key}

module _ {S : Type 0} (s : SecureServer S) (ltk : ℕ) where
  -- The server with a key, and with the controller's connection `hci`.
  abbrev pub holding : Hci → SecureServer S
  holding hci = record s {
    server = record s.server { hci = hci };
    manager = record s.manager { ltk = some ltk };
  }

  -- A request for the long term key is answered with the stored key, for the connection of the
  -- request. The controller's status 0 lets the round end; every other status panics.
  pub long_term_key_lem :
      (fuel n handle random diversifier status : ℕ) (more : List ℕ) (rest : List (Option ℕ))
      (h : Hci)
      → 4 + length more ≤ capacity
      → handle_event
          (suc fuel)
          (holding (delivering (completes n 0x201a (status ∷ more)) rest h))
          (long_term_key_request handle random diversifier)
        ≡ (if status == 0
            then done (
              did_work,
              holding (record h {
                reads = rest;
                ticks = h.ticks + 1;
                written =
                    h.written
                    ++ command_bytes
                        (Command.le_long_term_key_request_reply handle ltk)
                        (u16_le handle ++ le_bytes 16 ltk);
              }),
            )
            else panic)
  unfolding handle_event reply_with_key Ble.cmd_long_term_key_request_reply opcode_of
  long_term_key_lem fuel n handle random diversifier status more rest h fits =
      let c = Command.le_long_term_key_request_reply handle ltk in
      let (d, e, r) =
        run_command_lem fuel 0x08 0x1a n status more c (u16_le handle ++ le_bytes 16 ltk) rest h
          refl refl (omega arith) fits in
      elim (Bool-cases (status == 0)) [ inl good ↦ rw (e, good) refl | inr bad ↦ rw (e, bad) refl ]
