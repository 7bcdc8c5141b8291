-- ===== src/Examples/Attributes.antt =====
-- The theorems on attributes, requests, commands and advertising data at concrete inputs.
use bleps.Common.{◌≡◌, refl, [], ◌∷◌, arith, done, ok, replicate}
use bleps.Data.{Data}
use bleps.Data.Buffer.{Represents}
use bleps.Att.{uuid16, decode}
use bleps.Att.RoundTrip.{Request, Decodes, pdu, decode_request}
use bleps.Attribute.{AttData, array_mut, read, write, writable}
use bleps.Attribute.Memory.{read-write}
use bleps.Command.{Command}
use bleps.Command.Encoding.{encode_command, Encodes}
use bleps.AdStructure.{create_advertising_data, flags, service_uuids16}
use bleps.AdStructure.Layout.{create_advertising_data_lem}
use bleps.Examples.{data_of, data_of-Represents}

abbrev memory : AttData (Unit {0})
memory = array_mut (7 ∷ 8 ∷ 9 ∷ [])

read-write_example :
    (a' : AttData (Unit {0})) × (write tt memory 1 (5 ∷ 6 ∷ []) ≡ done (ok tt, a', tt))
    × (read tt a' 1 (0 ∷ 0 ∷ []) ≡ done (ok 2, 5 ∷ 6 ∷ [], tt))
unfolding writable
read-write_example =
    read-write tt memory (7 ∷ 8 ∷ 9 ∷ []) 1 (5 ∷ 6 ∷ []) (0 ∷ 0 ∷ []) refl refl (omega arith) refl

decode_request_example : Decodes (Request.by_group_type 1 0xffff (uuid16 0x2800)) (
    decode (record {
      len = 7;
      channel = 4;
      payload = data_of (pdu (Request.by_group_type 1 0xffff (uuid16 0x2800)));
    }))
decode_request_example =
    decode_request (Request.by_group_type 1 0xffff (uuid16 0x2800))
      (record {
        len = 7;
        channel = 4;
        payload = data_of (pdu (Request.by_group_type 1 0xffff (uuid16 0x2800)));
      })
      (omega arith, omega arith, omega arith)
      (data_of-Represents (pdu (Request.by_group_type 1 0xffff (uuid16 0x2800))) (omega arith))

encode_command_example : Encodes (Command.disconnect 0x40 0x13) (0x40 ∷ 0x00 ∷ 0x13 ∷ [])
encode_command_example =
    encode_command (Command.disconnect 0x40 0x13) (0x40 ∷ 0x00 ∷ 0x13 ∷ []) refl

create_advertising_data_lem_example :
    (d : Data) × (create_advertising_data (flags 6 ∷ service_uuids16 (uuid16 0x1809 ∷ []) ∷ [])
      ≡ done (ok d))
    × Represents d (7 ∷ 2 ∷ 1 ∷ 6 ∷ 3 ∷ 2 ∷ 9 ∷ 0x18 ∷ replicate 24 0)
create_advertising_data_lem_example =
    create_advertising_data_lem (flags 6 ∷ service_uuids16 (uuid16 0x1809 ∷ []) ∷ []) (omega arith)
      (omega arith)
