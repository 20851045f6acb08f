-- ===== src/Meter/Apdu.antt =====
-- simulator_meter/common/ptcl_codec/ptcl_module_dlms47.cpp: the messages that a meter answers with.
-- Each builds its message in an array of 1024 bytes, makes it the data area of the packet, and formats
-- the packet. `none` is a message that is larger than an array that it is built in, or a text that is
-- not one of hexadecimal digits.
-- `scan` is sscanf with "%02X" on two characters of the C library: the number, where it converts.
pub mod Profile
use test.Prelude.{
  ℕ, ◌+◌, ◌/◌, ◌%◌, ◌^◌, List, [], ◌∷◌, ◌++◌, Option, none, some, Bool, ◌||◌, leb, ltb, ◌==◌, ◌!=◌,
  if◌then◌else◌, length,
}
use test.Prelude.Int.{pos}
use test.Packet.{Packet, set_data_area_buffer}
use test.Packet.Dlms47.{set_src_port, set_dst_port, set_host_id}
use test.Asn.{
  format_length_area, format_context_area_int, format_ber_graphic_string, format_ber_choice,
  format_ber_seqence,
}

-- `set_data_area_buffer` and `format_packet` at the end of each method.
unfoldable pub finish : List ℕ → Packet → Option Packet
finish message p =
    if leb (length message) 1024
    then elim (set_data_area_buffer (some message) (pos (length message)) p) [
      | none ↦ none
      | some q ↦ some (test.Packet.Dlms47.format_packet q)
    ]
    else none

-- The parts of an AARE that both kinds of association share.
abbrev pub context_name : Bool → List ℕ
context_name b_ciphering =
    0xa1
    ∷ 0x09
    ∷ 0x06
    ∷ 0x07
    ∷ 0x60
    ∷ 0x85
    ∷ 0x74
    ∷ 0x05
    ∷ 0x08
    ∷ 0x01
    ∷ (if b_ciphering then 3 else 1)
    ∷ []

abbrev result_part : ℕ → List ℕ
result_part result = 0xa2 ∷ 0x03 ∷ 0x02 ∷ 0x01 ∷ result ∷ []

abbrev diagnostic_part : List ℕ
diagnostic_part = 0xa3 ∷ 0x05 ∷ 0xa1 ∷ 0x03 ∷ 0x02 ∷ 0x01 ∷ 0x00 ∷ []

-- The user information, in an array of 255 bytes; lengths are `unsigned char`.
unfoldable pub user_information : List ℕ → Option (List ℕ)
user_information response =
    let n = length response in
    if leb (4 + n) 255 then some (0xbe ∷ (n + 2) % 2 ^ 8 ∷ 0x04 ∷ n % 2 ^ 8 ∷ response) else none

-- The title of the meter, in an array of 64 bytes, where the messages are ciphered.
unfoldable pub title_part : Bool → List ℕ → Option (List (List ℕ))
title_part b_ciphering title =
    if b_ciphering
    then if leb (4 + length title) 64
      then some ((0xa4 ∷ 0x0a ∷ 0x04 ∷ length title % 2 ^ 8 ∷ title) ∷ [])
      else none
    else some []

-- The AARE of the parts before the user information, this, and the title.
aare : Bool → List ℕ → List ℕ → List (List ℕ) → Option (List ℕ)
unfolding user_information title_part
aare b_ciphering title response parts = elim (user_information response) [
  | none ↦ none
  | some ui ↦ elim (title_part b_ciphering title) [
    | none ↦ none
    | some last ↦ format_ber_seqence 1 (pos 1) (parts ++ (ui ∷ last))
  ]
]

unfoldable pub finish_some : Option (List ℕ) → Packet → Option Packet
finish_some none p = none
finish_some (some message) p = finish message p

unfoldable pub format_packet_lls_aare_ln : ℕ → Bool → List ℕ → List ℕ → ℕ → Packet → Option Packet
unfolding finish_some aare
format_packet_lls_aare_ln client_id b_ciphering title response result p =
    let parts = context_name b_ciphering ∷ result_part result ∷ diagnostic_part ∷ [] in
    if leb 255 (length title) || leb 255 (length response)
    then some p
    else finish_some (aare b_ciphering title response parts)
        (set_src_port 1 (set_dst_port (client_id % 2 ^ 16) p))

-- The mechanism and the challenge of the meter. The text of the challenge ends at its first 0.
challenge_part : List ℕ → Option (List ℕ)
challenge_part challenge = elim (format_ber_graphic_string 2 (pos 0) challenge) [
  | none ↦ none
  | some sub ↦ some (format_ber_choice 2 (pos 10) sub)
]

unfoldable pub format_packet_hls_aare_ln :
    ℕ → Bool → ℕ → List ℕ → List ℕ → ℕ → List ℕ → Packet → Option Packet
unfolding finish_some aare challenge_part
format_packet_hls_aare_ln client_id b_ciphering mech_id title response result challenge p =
    let mechanism = 0x89 ∷ 0x07 ∷ 0x60 ∷ 0x85 ∷ 0x74 ∷ 0x05 ∷ 0x08 ∷ 0x02 ∷ mech_id ∷ [] in
    if leb 255 (length title) || leb 255 (length response)
    then some p
    else elim (challenge_part challenge) [
      | none ↦ none
      | some value ↦
          let parts =
            context_name b_ciphering
            ∷ result_part result
            ∷ diagnostic_part
            ∷ mechanism
            ∷ value
            ∷ [] in
          finish_some (aare b_ciphering title response parts)
            (set_src_port 1 (set_dst_port (client_id % 2 ^ 16) p))
    ]

-- The user information of a release is in an array of 256 bytes.
unfoldable pub release_information : List ℕ → Option (List ℕ)
release_information response =
    let n = length response in
    if leb (4 + n) 256 then some (0xbe ∷ (n + 2) % 2 ^ 8 ∷ 0x04 ∷ n % 2 ^ 8 ∷ response) else none

-- The flags for the reason and for the user information are tests with bits 1 and 3.
unfoldable pub format_packet_rlre : ℕ → ℕ → ℕ → List ℕ → Packet → Option Packet
unfolding release_information
format_packet_rlre client_id use_flags reason response p =
    let why = if use_flags % 2 != 0 then 0x80 ∷ 0x01 ∷ reason ∷ [] else [] in
    let q = set_dst_port (client_id % 2 ^ 16) p in
    let message : List ℕ → List ℕ = λ info. 0x63 ∷ length (why ++ info) % 2 ^ 8 ∷ (why ++ info) in
    if use_flags % 4 == 0
    then finish (message []) q
    else if ltb 255 (length response)
    then some q
    else elim (release_information response) [ none ↦ none | some info ↦ finish (message info) q ]

-- `get_data_result`; `data` is the `length` bytes of its buffer.
pub record DataResult : Type 0 where
  pub result_type : ℕ
  pub content : List ℕ

-- The type, a length for the types of strings, and the bytes.
unfoldable pub result_bytes : DataResult → List ℕ
result_bytes r =
    let t = r.result_type in
    let sized = (t == 4) || ((t == 9) || ((t == 10) || (t == 12))) in
    t ∷ (if sized then length r.content % 2 ^ 8 ∷ r.content else r.content)

-- The result is `none` where the pointer is NULL.
unfoldable pub format_packet_get_response : ℕ → ℕ → Option DataResult → ℕ → Packet → Option Packet
format_packet_get_response host_id client_id result invoke_id p =
    let q = set_dst_port (client_id % 2 ^ 16) (set_host_id host_id p) in
    elim result [
      | none ↦ finish (0xc4 ∷ 0x01 ∷ invoke_id % 2 ^ 8 ∷ 0x01 ∷ 0x03 ∷ []) q
      | some r ↦ finish (0xc4 ∷ 0x01 ∷ invoke_id % 2 ^ 8 ∷ 0x00 ∷ result_bytes r) q
    ]

list_bytes : List (Option DataResult) → List ℕ
list_bytes [] = []
list_bytes (none ∷ rs) = 0x01 ∷ 0x03 ∷ list_bytes rs
list_bytes (some r ∷ rs) = 0x00 ∷ (result_bytes r ++ list_bytes rs)

unfoldable pub format_packet_get_response_with_list :
    ℕ → ℕ → List (Option DataResult) → ℕ → Packet → Option Packet
unfolding list_bytes
format_packet_get_response_with_list host_id client_id results invoke_id p =
    finish (0xc4 ∷ 0x03 ∷ invoke_id % 2 ^ 8 ∷ length results % 2 ^ 8 ∷ list_bytes results)
      (set_dst_port (client_id % 2 ^ 16) (set_host_id host_id p))

unfoldable pub format_packet_action_response :
    ℕ → ℕ → Option DataResult → ℕ → Packet → Option Packet
format_packet_action_response error_code client_id result invoke_id p =
    let q = set_dst_port (client_id % 2 ^ 16) (set_host_id 1 p) in
    let front : List ℕ → List ℕ =
      λ rest. 0xc7 ∷ 0x01 ∷ invoke_id % 2 ^ 8 ∷ error_code % 2 ^ 8 ∷ rest in
    if ltb 0 error_code then finish (front (0x00 ∷ [])) q else elim result [
      | none ↦ finish (front (0x00 ∷ [])) q
      | some r ↦ finish (front (0x01 ∷ 0x00 ∷ result_bytes r)) q
    ]

module _ (scan : ℕ → ℕ → Option ℕ) where
  -- `format_context_area_octet_string`: pairs of characters, a last single one is left out.
  unfoldable pub octet_string : List ℕ → Option (List ℕ)
  octet_string (x ∷ y ∷ rest) =
      let later = octet_string rest in
      elim (scan x y) [
        | none ↦ none
        | some b ↦ elim later [ none ↦ none | some bs ↦ some (b ∷ bs) ]
      ]
  octet_string _ = some []

  -- The texts end at the end of their list. The last conversion writes an `unsigned int`, three bytes
  -- behind the message, which must lie in the array.
  unfoldable pub with_octets : List ℕ → List ℕ → Packet → Option Packet
  with_octets front text p = elim (octet_string text) [
    | none ↦ none
    | some bs ↦ if leb (length front + length bs + 3) 1024 then finish (front ++ bs) p else none
  ]

  unfoldable pub format_packet_glo : ℕ → ℕ → ℕ → ℕ → List ℕ → ℕ → Packet → Option Packet
  unfolding with_octets
  format_packet_glo host_id tag sc fc text client_id p =
      with_octets
        (tag
          ∷ (format_length_area (pos (length text / 2 + 5)) ++ (sc ∷ format_context_area_int fc)))
        text (set_dst_port (client_id % 2 ^ 16) (set_host_id host_id p))

  unfoldable pub format_packet_pass4 : ℕ → ℕ → ℕ → List ℕ → Packet → Option Packet
  unfolding with_octets
  format_packet_pass4 client_id error_code invoke_id text p =
      let q = set_dst_port (client_id % 2 ^ 16) (set_host_id 1 p) in
      let front = 0xc7 ∷ 0x01 ∷ invoke_id % 2 ^ 8 ∷ error_code ∷ [] in
      if ltb 0 error_code
      then finish (front ++ (0x00 ∷ [])) q
      else with_octets (front ++ (0x01 ∷ 0x00 ∷ 0x09 ∷ length text / 2 % 2 ^ 8 ∷ [])) text q
