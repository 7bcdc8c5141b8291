-- ===== src/Command/Encoding.antt =====
-- The bytes of the HCI commands: `Command::encode` of bleps/src/command.rs (71-176), against the
-- opcodes and parameters of the Bluetooth Core specification.
use bleps.Common.{
  ℕ, ◌+◌, ◌≤◌, ◌≡◌, refl, sym, ap, subst, ◌∙◌, true, false, List, [], ◌∷◌, ◌++◌, append_assoc,
  append-nil, arith, length, replicate, length-append, take-append, drop-all, le→leb, ◌==◌, done,
  ◌>>=◌, Returns, u16_le, low_byte, le_bytes,
}
use bleps.Data
use bleps.Data.{Data, capacity, copy_at, as_slice}
use bleps.Data.Buffer.{Represents, new-Represents, append-Represents, as_slice-Represents}
use bleps.Command.{
  Command, u16_be, AdvertisingParameters, advertising_type_byte, own_address_type_byte,
  peer_address_type_byte, filter_policy_byte, encode, framed, store, from_ogf_ocf, opcode_of,
  write_into, copy_tail, custom_parameters, default_parameters,
}

-- The opcode of the specification: ten bits of command, six of group.
abbrev pub opcode : Command → ℕ
opcode Command.reset = 0x0c03
opcode Command.le_set_advertising_parameters = 0x2006
opcode (Command.le_set_advertising_parameters_custom params) = 0x2006
opcode (Command.le_set_advertising_data payload) = 0x2008
opcode (Command.le_set_scan_rsp_data payload) = 0x2009
opcode (Command.le_set_advertise_enable enable) = 0x200a
opcode (Command.disconnect handle reason) = 0x0406
opcode (Command.le_long_term_key_request_reply handle ltk) = 0x201a
opcode Command.read_br_addr = 0x1009
opcode (Command.set_event_mask events) = 0x0c01

-- The bytes that a command carries. The intervals of custom advertising parameters stand high byte
-- first, as the code sends them.
abbrev pub Carries : Command → List ℕ → Type 0
Carries Command.reset ps = ps ≡ []
Carries Command.le_set_advertising_parameters ps = ps ≡ default_parameters
Carries (Command.le_set_advertising_parameters_custom params) ps =
    (length params.peer_address ≡ 6)
    × (ps
        ≡ u16_be params.interval_min
          ++ (u16_be params.interval_max
              ++ (advertising_type_byte params.advertising_type
                  ∷ own_address_type_byte params.own_address_type
                  ∷ peer_address_type_byte params.peer_address_type
                  ∷ (params.peer_address
                      ++ (params.channel_map ∷ filter_policy_byte params.filter_policy ∷ [])))))
Carries (Command.le_set_advertising_data payload) ps = Represents payload ps × (length ps ≤ 252)
Carries (Command.le_set_scan_rsp_data payload) ps = Represents payload ps × (length ps ≤ 252)
Carries (Command.le_set_advertise_enable true) ps = ps ≡ 1 ∷ []
Carries (Command.le_set_advertise_enable false) ps = ps ≡ 0 ∷ []
Carries (Command.disconnect handle reason) ps = ps ≡ u16_le handle ++ (reason ∷ [])
Carries (Command.le_long_term_key_request_reply handle ltk) ps =
    ps ≡ u16_le handle ++ le_bytes 16 ltk
Carries Command.read_br_addr ps = ps ≡ []
Carries (Command.set_event_mask events) ps = (length events ≡ 8) × (ps ≡ events)

-- A command packet: the packet type, the opcode, the number of parameter bytes, and those.
abbrev pub command_bytes : Command → List ℕ → List ℕ
command_bytes c ps = 0x01 ∷ (u16_le (opcode c) ++ (length ps ∷ ps))

abbrev pub Encodes : Command → List ℕ → Type 0
Encodes c ps = Returns (encode c) (λ d. Represents d (command_bytes c ps))

-- Parameters that fill the rest of the packet.
copy_tail_lem :
    (front spare bytes : List ℕ) (n : ℕ)
    → length front ≡ n
    → length bytes ≡ length spare
    → copy_tail (front ++ spare) n bytes ≡ done (front ++ bytes)
unfolding copy_tail copy_at
copy_tail_lem front spare bytes n e h =
    rw
      (
        agree,
        le→leb (n + length bytes) (length (front ++ spare))
            (omega (arith, length-append front spare)),
        take-append n front spare (sym e),
        drop-all (n + length bytes) (front ++ spare) (omega (arith, length-append front spare)),
        append-nil bytes,
      )
      refl
  where
    agree : ((n + length bytes) == length (front ++ spare)) ≡ true
    agree = ground (arith, length-append front spare)

custom_parameters_lem :
    (params : AdvertisingParameters) (ps : List ℕ)
    → Carries (Command.le_set_advertising_parameters_custom params) ps
    → Returns (custom_parameters params) (λ d. Represents d ps)
unfolding custom_parameters
custom_parameters_lem params ps (six, h) =
    let (d₀, e₀, r₀) = new-Represents [] (omega arith) in
    let (d₁, e₁, r₁) = append-Represents (u16_be params.interval_min) r₀ (omega arith) in
    let (d₂, e₂, r₂) = append-Represents (u16_be params.interval_max) r₁ (omega arith) in
    let (d₃, e₃, r₃) =
      append-Represents (advertising_type_byte params.advertising_type ∷ []) r₂ (omega arith) in
    let (d₄, e₄, r₄) =
      append-Represents (own_address_type_byte params.own_address_type ∷ []) r₃ (omega arith) in
    let (d₅, e₅, r₅) =
      append-Represents (peer_address_type_byte params.peer_address_type ∷ []) r₄ (omega arith) in
    let (d₆, e₆, r₆) = append-Represents params.peer_address r₅ (omega (arith, six)) in
    let (d₇, e₇, r₇) = append-Represents (params.channel_map ∷ []) r₆ (omega (arith, six)) in
    let (d₈, e₈, r₈) =
      append-Represents (filter_policy_byte params.filter_policy ∷ []) r₇
        (omega (arith, six, length-append params.peer_address (params.channel_map ∷ []))) in
    (
      d₈,
      rw (e₀, e₁, e₂, e₃, e₄, e₅, e₆, e₇, e₈) refl,
      subst (λ (l : List ℕ). Represents d₈ l) (joined ∙ sym h) r₈,
    )
  where
    front : List ℕ
    front =
        u16_be params.interval_min
        ++ (u16_be params.interval_max
            ++ (advertising_type_byte params.advertising_type
                ∷ own_address_type_byte params.own_address_type
                ∷ peer_address_type_byte params.peer_address_type
                ∷ []))

    joined :
        ((front ++ params.peer_address) ++ (params.channel_map ∷ []))
          ++ (filter_policy_byte params.filter_policy ∷ [])
        ≡ front
          ++ (params.peer_address
              ++ (params.channel_map ∷ filter_policy_byte params.filter_policy ∷ []))
    joined =
        ap (λ (l : List ℕ). front ++ l)
          (append_assoc params.peer_address (params.channel_map ∷ [])
            (filter_policy_byte params.filter_policy ∷ []))

with_data :
    (low high : ℕ) (payload : Data) (ps : List ℕ)
    → Represents payload ps
    → length ps ≤ 252
    → Returns
        (Data.new (0x01 ∷ low ∷ high ∷ low_byte payload.len ∷ []) >>= λ res.
          as_slice payload >>= λ bytes. Data.append res bytes)
        (λ d. Represents d (0x01 ∷ low ∷ high ∷ length ps ∷ ps))
with_data low high payload ps r h =
    let (d, e, rd) = new-Represents (0x01 ∷ low ∷ high ∷ length ps ∷ []) (omega arith) in
    let (d', e', rd') = append-Represents ps rd (omega arith) in
    let small : low_byte payload.len ≡ length ps = omega (arith, r.size) in
    (d', rw (small, e, as_slice-Represents r, e') refl, rd')

encode_custom :
    (params : AdvertisingParameters) (ps : List ℕ)
    → Carries (Command.le_set_advertising_parameters_custom params) ps
    → Encodes (Command.le_set_advertising_parameters_custom params) ps
unfolding encode framed store from_ogf_ocf opcode_of write_into
encode_custom params ps h =
    let (adv, e, r) = custom_parameters_lem params ps h in
    let fifteen : length ps ≡ 15 =
      ap (λ (l : List ℕ). length l) (h.1)
      ∙ omega (
        arith,
        h.0,
        length-append params.peer_address
            (params.channel_map ∷ filter_policy_byte params.filter_policy ∷ []),
      ) in
    let (d, e', r') =
      new-Represents (command_bytes (Command.le_set_advertising_parameters_custom params) ps)
        (omega arith) in
    (
      d,
      rw
          (
            e,
            as_slice-Represents r,
            copy_tail_lem (0x01 ∷ 0x06 ∷ 0x20 ∷ 0x0f ∷ []) (replicate 15 0) ps 4 refl fifteen,
          )
          (ap (λ n. Data.new (0x01 ∷ 0x06 ∷ 0x20 ∷ n ∷ ps)) (sym fifteen) ∙ e'),
      r',
    )

encode_mask :
    (events ps : List ℕ)
    → Carries (Command.set_event_mask events) ps
    → Encodes (Command.set_event_mask events) ps
unfolding encode framed store from_ogf_ocf opcode_of write_into
encode_mask events ps h =
    let eight : length ps ≡ 8 = ap (λ (l : List ℕ). length l) (h.1) ∙ h.0 in
    let (d, e, r) =
      new-Represents (command_bytes (Command.set_event_mask events) ps) (omega arith) in
    (
      d,
      rw (sym (h.1), copy_tail_lem (0x01 ∷ 0x01 ∷ 0x0c ∷ 0x08 ∷ []) (replicate 8 0) ps 4 refl eight)
          (ap (λ n. Data.new (0x01 ∷ 0x01 ∷ 0x0c ∷ n ∷ ps)) (sym eight) ∙ e),
      r,
    )

-- Every command is encoded as the specification's packet: type byte, opcode, the number of
-- parameter bytes, and the parameters.
pub encode_command : (c : Command) (ps : List ℕ) → Carries c ps → Encodes c ps
unfolding encode framed store from_ogf_ocf opcode_of write_into copy_tail copy_at
encode_command Command.reset ps h =
    subst (Encodes Command.reset) (sym h) (new-Represents _ (omega arith))
encode_command Command.le_set_advertising_parameters ps h =
    subst (Encodes Command.le_set_advertising_parameters) (sym h) (new-Represents _ (omega arith))
encode_command (Command.le_set_advertising_parameters_custom params) ps h =
    encode_custom params ps h
encode_command (Command.le_set_advertising_data payload) ps (r, h) =
    with_data 0x08 0x20 payload ps r h
encode_command (Command.le_set_scan_rsp_data payload) ps (r, h) = with_data 0x09 0x20 payload ps r h
encode_command (Command.le_set_advertise_enable true) ps h =
    subst (Encodes (Command.le_set_advertise_enable true)) (sym h) (new-Represents _ (omega arith))
encode_command (Command.le_set_advertise_enable false) ps h =
    subst (Encodes (Command.le_set_advertise_enable false)) (sym h) (new-Represents _ (omega arith))
encode_command (Command.disconnect handle reason) ps h =
    subst (Encodes (Command.disconnect handle reason)) (sym h) (new-Represents _ (omega arith))
encode_command (Command.le_long_term_key_request_reply handle ltk) ps h =
    subst (Encodes (Command.le_long_term_key_request_reply handle ltk)) (sym h)
      (new-Represents _ (omega arith))
encode_command Command.read_br_addr ps h =
    subst (Encodes Command.read_br_addr) (sym h) (new-Represents _ (omega arith))
encode_command (Command.set_event_mask events) ps h = encode_mask events ps h
