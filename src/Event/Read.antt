-- ===== src/Event/Read.antt =====
-- `Event::read` and `EventType::read` of bleps/src/event.rs (306-312, 109-203).
use bleps.Common.{ℕ}
use bleps.Data.{Data}
use bleps.Hci.{M, ◌>>=◌, pure, lift, read_unwrap, read_data}
use bleps.Event.{EventType, decode}

-- `Event`: the code and the parameters.
unfoldable pub read_event : M (ℕ × Data)
read_event = do code ← read_unwrap; len ← read_unwrap; payload ← read_data len; pure (code, payload)

unfoldable pub read : M EventType
read = do (code, payload) ← read_event; lift (decode code payload)
