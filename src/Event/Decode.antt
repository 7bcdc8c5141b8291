-- ===== src/Event/Decode.antt =====
-- Decoding of events: no loop of the model, and what a connection event tells.
use bleps.Common.{ℕ, ◌≢◌, List, Run, stuck, Bool, true, false, if◌then◌else◌}
use bleps.Data.{Data}
use bleps.Data.Ends.{ends}
use bleps.Event.{
  u16_at, decode, decode_command_complete, decode_disconnect_complete,
  decode_number_of_completed_packets, decode_connection_complete, decode_long_term_key_request,
  decode_le_meta,
}

u16_at-ne-stuck : (xs : List ℕ) (i j : ℕ) → u16_at xs i j ≢ stuck
unfolding u16_at
u16_at-ne-stuck xs i j = search ends depth 8

if-ne-stuck :
    {A : Type 0} (b : Bool) (x y : Run A) → x ≢ stuck → y ≢ stuck → (if b then x else y) ≢ stuck
if-ne-stuck true x y hx hy = hx
if-ne-stuck false x y hx hy = hy

command_complete-ne-stuck : (d : Data) → decode_command_complete d ≢ stuck
unfolding decode_command_complete
command_complete-ne-stuck d = search (ends, u16_at-ne-stuck) depth 10

disconnect_complete-ne-stuck : (d : Data) → decode_disconnect_complete d ≢ stuck
unfolding decode_disconnect_complete
disconnect_complete-ne-stuck d = search (ends, u16_at-ne-stuck) depth 10

number_of_completed_packets-ne-stuck : (d : Data) → decode_number_of_completed_packets d ≢ stuck
unfolding decode_number_of_completed_packets
number_of_completed_packets-ne-stuck d = search (ends, u16_at-ne-stuck) depth 10

connection_complete-ne-stuck : (xs : List ℕ) → decode_connection_complete xs ≢ stuck
unfolding decode_connection_complete
connection_complete-ne-stuck xs = search (ends, u16_at-ne-stuck) depth 14

long_term_key_request-ne-stuck : (xs : List ℕ) → decode_long_term_key_request xs ≢ stuck
unfolding decode_long_term_key_request
long_term_key_request-ne-stuck xs = search (ends, u16_at-ne-stuck) depth 10

le_meta-ne-stuck : (d : Data) → decode_le_meta d ≢ stuck
unfolding decode_le_meta
le_meta-ne-stuck d =
    search (ends, if-ne-stuck, connection_complete-ne-stuck, long_term_key_request-ne-stuck) depth
      10

pub decode-ne-stuck : (code : ℕ) (d : Data) → decode code d ≢ stuck
unfolding decode
decode-ne-stuck code d =
    search
      (
        ends, if-ne-stuck, command_complete-ne-stuck, disconnect_complete-ne-stuck,
        number_of_completed_packets-ne-stuck, le_meta-ne-stuck,
      )
      depth 10
