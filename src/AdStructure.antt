-- ===== src/AdStructure.antt =====
-- bleps/src/ad_structure.rs: the structures of advertising data, and `create_advertising_data`.
pub mod Layout
use bleps.Common.{
  ℕ, zero, suc, ◌+◌, ◌-◌, ◌*◌, List, [], ◌∷◌, Run, done, ◌>>=◌, Result, ok, err, ltb, if◌then◌else◌,
  length, low_byte, u16_le,
}
use bleps.Data
use bleps.Data.{Data, append, append_u16, set_byte, checked_sub}
use bleps.Att.{Uuid, append_uuid}

pub data AdvertisementDataError : Type 0 where
  too_long : AdvertisementDataError

-- A name is given by its bytes.
pub data AdStructure : Type 0 where
  flags : ℕ → AdStructure
  service_uuids16 service_uuids128 : List Uuid → AdStructure
  service_data16 : ℕ → List ℕ → AdStructure
  complete_local_name shortened_local_name : List ℕ → AdStructure
  manufacturer_specific_data : ℕ → List ℕ → AdStructure
  unknown : ℕ → List ℕ → AdStructure

-- `for uuid in uuids.iter() { self.append_uuid(uuid); }`
unfoldable pub append_uuids : Data → List Uuid → Run Data
append_uuids d [] = done d
append_uuids d (uuid ∷ uuids) = do d ← append_uuid d uuid; append_uuids d uuids

unfoldable pub append_ad_structure : Data → AdStructure → Run Data
append_ad_structure d (flags f) = append d (0x02 ∷ 0x01 ∷ f ∷ [])
append_ad_structure d (service_uuids16 uuids) = do
  d ← append d (low_byte (length uuids * 2 + 1) ∷ 0x02 ∷ [])
  append_uuids d uuids
append_ad_structure d (service_uuids128 uuids) = do
  d ← append d (low_byte (length uuids * 16 + 1) ∷ 0x07 ∷ [])
  append_uuids d uuids
append_ad_structure d (shortened_local_name name) = do
  d ← append d (low_byte (length name + 1) ∷ 0x08 ∷ [])
  append d name
append_ad_structure d (complete_local_name name) = do
  d ← append d (low_byte (length name + 1) ∷ 0x09 ∷ [])
  append d name
append_ad_structure d (service_data16 uuid bytes) = do
  d ← append d (low_byte (length bytes + 3) ∷ 0x16 ∷ [])
  d ← append_u16 d uuid
  append d bytes
append_ad_structure d (manufacturer_specific_data company_identifier payload) = do
  d ← append d (low_byte (length payload + 3) ∷ 0xff ∷ [])
  d ← append_u16 d company_identifier
  append d payload
append_ad_structure d (unknown ty bytes) = do
  d ← append d (low_byte (length bytes + 1) ∷ ty ∷ [])
  append d bytes

unfoldable pub append_ad_structures : Data → List AdStructure → Run Data
append_ad_structures d [] = done d
append_ad_structures d (item ∷ ad) = do d ← append_ad_structure d item; append_ad_structures d ad

-- `for _ in 0..n { data.append(&[0]); }`
unfoldable pub pad : ℕ → Data → Run Data
pad zero d = done d
pad (suc n) d = do d ← append d (0 ∷ []); pad n d

unfoldable pub create_advertising_data : List AdStructure → Run (Result AdvertisementDataError Data)
create_advertising_data ad = do
  d ← Data.default
  d ← append d (0 ∷ [])
  d ← append_ad_structures d ad
  len ← checked_sub d.len 1
  d ← set_byte d 0 (low_byte len)
  if ltb 31 len then done (err too_long) else (do d ← pad (31 - len) d; done (ok d))
