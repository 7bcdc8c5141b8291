-- ===== src/Examples/Discovered.antt =====
-- The discovery of services, at a table of two services.
use bleps.Common.{replicate, panic, done, ◌≡◌, ℕ, refl, List, [], ◌∷◌, arith, inl, inr, All}
use bleps.Data.{append, append_u16, set_byte, index, new, copy_at, zeros}
use bleps.Att.{get_type, append_uuid}
use bleps.Att.Response.{new_att_find_information_response, append_att_find_information_response}
use bleps.Server.Information.{handle_find_information_lem}
use bleps.Server.Replies.{sent}
use bleps.Attribute.{Attribute, array}
use bleps.Server.{Server, handle_find_information, find_information_loop}
use bleps.Server.Groups.{grouped, assign_handles_lem}
use bleps.Server.Lookup.{short, long, Declares}
use bleps.Server.Discovery.{Discovery, discover_all}
use bleps.Examples.{service, value_of, device}

abbrev long_uuid : List ℕ
long_uuid = 0 ∷ 1 ∷ 2 ∷ 3 ∷ 4 ∷ 5 ∷ 6 ∷ 7 ∷ 8 ∷ 9 ∷ 10 ∷ 11 ∷ 12 ∷ 13 ∷ 14 ∷ 15 ∷ []

-- A service with one value, and a second service with a UUID of 16 bytes.
abbrev second : Attribute (Unit {0})
second = record service { content = array long_uuid }

abbrev two_services : Server (Unit {0})
two_services = record device { attributes = grouped 1 (service ∷ value_of [] ∷ second ∷ []) }

services_declared : All Declares (service ∷ value_of [] ∷ second ∷ [])
services_declared =
    let first : Declares service =
      inr (0x0a ∷ 0x18 ∷ [], refl, short 0x0a 0x18 (omega arith) (omega arith)) in
    let other : Declares (value_of []) = inl refl in
    let last : Declares second = inr (long_uuid, refl, long long_uuid refl) in
    (first, (other, (last, tt)))

discover_all_example : Discovery 64 two_services 1 (
    record { handle = 1; end = 2; uuid = 0x0a ∷ 0x18 ∷ [] }
    ∷ record { handle = 3; end = 3; uuid = long_uuid }
    ∷ [])
discover_all_example =
    discover_all 64 service (value_of [] ∷ second ∷ []) two_services
      (assign_handles_lem service (value_of [] ∷ second ∷ []) (omega arith)) (omega arith)
      services_declared

handle_find_information_lem_example :
    handle_find_information device 64 1 65535
    ≡ done (sent device 64 (0x05 ∷ 1 ∷ 1 ∷ 0 ∷ 0 ∷ 0x28 ∷ 2 ∷ 0 ∷ 0 ∷ 0x2a ∷ 3 ∷ 0 ∷ 2 ∷ 0x29 ∷ []))
unfolding get_type
handle_find_information_lem_example = handle_find_information_lem device 64 1 65535 (omega arith)

-- The 64 entries of 64 attributes with short UUIDs are two bytes too many for a buffer.
too_many :
    handle_find_information (record device { attributes = replicate 64 service }) 64 1 65535 ≡ panic
unfolding handle_find_information find_information_loop new_att_find_information_response
    append_att_find_information_response get_type append_uuid append append_u16 set_byte index new
    copy_at zeros
too_many = refl
