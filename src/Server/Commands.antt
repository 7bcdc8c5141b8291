-- ===== src/Server/Commands.antt =====
-- The operations of bleps/src/attribute_server.rs (108-130, 671-678) beside `do_work`.
use bleps.Common.{ℕ, List, Run, done, ◌>>=◌, Result, ok}
use bleps.Data
use bleps.Data.{Data, as_slice}
use bleps.Hci.{write_bytes}
use bleps.Command
use bleps.Event.{EventType, Error}
use bleps.Ble
use bleps.Server.State.{Server}
use bleps.Server.Work.{NotificationData}

unfoldable pub notification_data_new : ℕ → List ℕ → Run NotificationData
notification_data_new handle bytes = do
  payload ← Data.new bytes
  done (record { handle = handle; payload = payload })

module _ {S : Type 0} where
  -- `fuel` bounds the rounds of waiting for the controller's answer.
  unfoldable pub update_le_advertising_data :
      ℕ → Server S → Data → Run (Result {0, 0} Error EventType × Server S)
  update_le_advertising_data fuel server payload = do
    (r, hci) ←
        Ble.run_command fuel (Command.le_set_advertising_data payload) Command.le_ogf
          Command.set_advertising_data_ocf server.hci
    done (r, record server { hci = hci })

  -- The answer is not waited for.
  unfoldable pub disconnect : Server S → ℕ → Run (Result {0, 0} Error EventType × Server S)
  disconnect server reason = do
    d ← Command.encode (Command.disconnect 0 reason)
    bytes ← as_slice d
    (_, hci) ← write_bytes bytes server.hci
    done (ok EventType.unknown, record server { hci = hci })
