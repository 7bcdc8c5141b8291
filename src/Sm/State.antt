-- ===== src/Sm/State.antt =====
-- The types of bleps/src/sm.rs (14-128) and the requirements that the device announces (195-203).
use bleps.Common.{ℕ, ◌+◌, ◌*◌, Bool, true, false, Option, none, some, List}
use bleps.Hci.{Hci}
use bleps.Event.{Addr}
use bleps.Crypto.{Rng, IoCap, PublicKey}

-- The errors of the protocol, by number, that the code reports.
pub data SecurityManagerError : Type 0 where
  passkey_entry_failed oob_not_available authentication_requirements : SecurityManagerError
  confirm_value_failed pairing_not_supported encryption_key_size : SecurityManagerError
  command_not_supported unspecified_reason repeated_attempts invalid_parameters :
      SecurityManagerError
  dh_key_check_failed numeric_comparison_failed br_edr_pairing_in_progress : SecurityManagerError
  generation_not_allowed key_rejected : SecurityManagerError

-- `error as u8`.
unfoldable pub sm_error_byte : SecurityManagerError → ℕ
sm_error_byte passkey_entry_failed = 1
sm_error_byte oob_not_available = 2
sm_error_byte authentication_requirements = 3
sm_error_byte confirm_value_failed = 4
sm_error_byte pairing_not_supported = 5
sm_error_byte encryption_key_size = 6
sm_error_byte command_not_supported = 7
sm_error_byte unspecified_reason = 8
sm_error_byte repeated_attempts = 9
sm_error_byte invalid_parameters = 10
sm_error_byte dh_key_check_failed = 11
sm_error_byte numeric_comparison_failed = 12
sm_error_byte br_edr_pairing_in_progress = 13
sm_error_byte generation_not_allowed = 14
sm_error_byte key_rejected = 15

pub data IoCapability : Type 0 where
  display_only display_yes_no keyboard_only no_input_no_output keyboard_display : IoCapability

unfoldable pub io_capability_byte : IoCapability → ℕ
io_capability_byte display_only = 0
io_capability_byte display_yes_no = 1
io_capability_byte keyboard_only = 2
io_capability_byte no_input_no_output = 3
io_capability_byte keyboard_display = 4

pub data OobDataFlag : Type 0 where
  not_present present : OobDataFlag

unfoldable pub oob_data_flag_byte : OobDataFlag → ℕ
oob_data_flag_byte not_present = 0
oob_data_flag_byte present = 1

-- `AuthReq(0)` with its fields set: bits 1..0, 2, 3, 4 and 5.
unfoldable pub auth_req : ℕ → ℕ → ℕ → ℕ → ℕ → ℕ
auth_req bonding_flags mitm sc keypress ct2 =
    bonding_flags + mitm * 4 + sc * 8 + keypress * 16 + ct2 * 32

unfoldable pub make_auth_req : ℕ
unfolding auth_req
make_auth_req = auth_req 1 1 1 0 1

abbrev pub sm_pairing_request : ℕ
sm_pairing_request = 0x01

abbrev pub sm_pairing_response : ℕ
sm_pairing_response = 0x02

abbrev pub sm_pairing_confirm : ℕ
sm_pairing_confirm = 0x03

abbrev pub sm_pairing_random : ℕ
sm_pairing_random = 0x04

abbrev pub sm_pairing_failed : ℕ
sm_pairing_failed = 0x05

abbrev pub sm_pairing_public_key : ℕ
sm_pairing_public_key = 0x0c

abbrev pub sm_pairing_dhkey_check : ℕ
sm_pairing_dhkey_check = 0x0d

pub record SecurityManager : Type 0 where
  pub ioa : Option IoCap
  pub skb : Option ℕ
  pub pkb : Option PublicKey
  pub pka : Option PublicKey
  pub confirm : Option ℕ
  pub na : Option ℕ
  pub nb : Option ℕ
  pub shared : Option (List ℕ)
  pub mac_key : Option (List ℕ)
  pub eb : Option ℕ
  pub local_address : Option Addr
  pub peer_address : Option Addr
  pub ltk : Option ℕ
  pub rng : Rng

unfoldable pub security_manager_new : Rng → SecurityManager
security_manager_new rng = record {
  ioa = none;
  skb = none;
  pkb = none;
  pka = none;
  confirm = none;
  na = none;
  nb = none;
  shared = none;
  mac_key = none;
  eb = none;
  local_address = none;
  peer_address = none;
  ltk = none;
  rng = rng;
}

-- What a handler works on: the manager, the connection, and the state of the application with its
-- callback for the code to display.
pub record World (S : Type 0) : Type 0 where
  pub manager : SecurityManager
  pub hci : Hci
  pub app : S
  pub pin_callback : Option (ℕ → S → S)

abbrev pub is_none : {A : Type 0} → Option A → Bool
is_none none = true
is_none (some a) = false
