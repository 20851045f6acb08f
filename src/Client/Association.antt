-- ===== src/Client/Association.antt =====
-- simulator_meter/common/ptcl_codec/ptcl_module_dlms47.cpp: the AARQ and the RLRQ of a client.
-- `junk` is what the array of the bit string holds before it is written.
use test.Prelude.{
  ℕ, ◌+◌, ◌/◌, ◌%◌, ◌^◌, List, [], ◌∷◌, ◌++◌, Option, none, some, Bool, ◌||◌, leb, ltb, ◌==◌,
  if◌then◌else◌, length,
}
use test.Prelude.Int.{pos}
use test.Memory.{Memory, store}
use test.Packet.{Packet}
use test.Packet.Dlms47.{set_src_port, set_host_id, format_packet}
use test.Asn.{
  format_ber_bit_string, format_ber_object_indentifier, format_ber_graphic_string,
  format_ber_choice, format_ber_seqence,
}
use test.Meter.Apdu.{finish, finish_some, context_name, user_information, release_information}

-- The user information, with APDU_MAX_LEN as its last two bytes.
abbrev pub initiate_request : List ℕ
initiate_request =
    0xbe ∷ 0x10 ∷ 0x04 ∷ 0x0e ∷ 0x01 ∷ 0x00 ∷ 0x00 ∷ 0x00 ∷ 0x06 ∷ 0x5f ∷ 0x1f ∷ 0x04 ∷ 0x00 ∷ 0x00
    ∷ 0x7e ∷ 0x1f ∷ 0x04 ∷ 0x00 ∷ []

-- The parts of an AARQ in their order; `none` is one that does not fit.
abbrev with_part : Option (List ℕ) → Option (List (List ℕ)) → Option (List (List ℕ))
with_part none parts = none
with_part (some p) none = none
with_part (some p) (some ps) = some (p ∷ ps)

-- The AARQ is finished in the packet.
unfoldable pub finish_aarq : Option (List (List ℕ)) → Packet → Option Packet
finish_aarq none p = none
finish_aarq (some parts) p = finish_some (format_ber_seqence 1 (pos 0) parts) p

unfoldable pub format_packet_pure_aarq : ℕ → Packet → Option Packet
unfolding finish_aarq
format_packet_pure_aarq host_id p =
    finish_aarq (some (context_name Bool.false ∷ initiate_request ∷ [])) (set_src_port host_id p)

unfoldable pub format_packet_pure_rlrq : ℕ → Packet → Option Packet
format_packet_pure_rlrq host_id p =
    let content : List ℕ = 0x80 ∷ 0x01 ∷ 0x00 ∷ initiate_request in
    finish (0x62 ∷ length content ∷ content) (set_src_port host_id p)

-- sender-acse-requirements
unfoldable pub acse_part : Memory → Option (List ℕ)
acse_part junk = format_ber_bit_string 2 (pos 10) (0x31 ∷ []) junk

unfoldable pub mechanism_part : ℕ → Option (List ℕ)
mechanism_part mech =
    format_ber_object_indentifier 2 (pos 11) (some (2 ∷ 16 ∷ 756 ∷ 5 ∷ 8 ∷ 2 ∷ mech ∷ []))

-- calling-authentication-value
unfoldable pub authentication_part : List ℕ → Option (List ℕ)
authentication_part value = elim (format_ber_graphic_string 2 (pos 0) value) [
  | none ↦ none
  | some sub ↦ some (format_ber_choice 2 (pos 12) sub)
]

-- calling-ap-title, in an array of 64 bytes
unfoldable pub calling_title : List ℕ → Option (List ℕ)
calling_title title =
    if leb (4 + length title) 64
    then some (0xa6 ∷ 0x0a ∷ 0x04 ∷ length title % 2 ^ 8 ∷ title)
    else none

unfoldable pub format_packet_cosem_connect : Memory → ℕ → ℕ → List ℕ → Packet → Option Packet
unfolding finish_aarq acse_part mechanism_part authentication_part
format_packet_cosem_connect junk host mech psw p =
    finish_aarq
      (with_part (some (context_name Bool.false)) (
        with_part (acse_part junk) (
          with_part (mechanism_part mech)
            (with_part (authentication_part psw) (with_part (some initiate_request) (some []))))))
      (set_host_id host p)

unfoldable pub format_packet_cosem_connect_with_security :
    Memory → ℕ → ℕ → List ℕ → List ℕ → Packet → Option Packet
unfolding finish_aarq acse_part mechanism_part calling_title authentication_part
format_packet_cosem_connect_with_security junk host mech title psw p =
    finish_aarq
      (with_part (some (context_name Bool.true)) (
        with_part (acse_part junk) (
          with_part (mechanism_part mech) (
            with_part (calling_title title) (
              with_part (authentication_part psw) (with_part (some initiate_request) (some [])))))))
      (set_host_id host p)

unfoldable pub format_packet_cosem_connect_ln :
    Memory → ℕ → Bool → ℕ → List ℕ → List ℕ → List ℕ → Packet → Option Packet
unfolding finish_aarq acse_part mechanism_part calling_title authentication_part
format_packet_cosem_connect_ln junk host_id b_ciphering mech_id title value init_request p =
    if leb 255 (length title) || leb 255 (length init_request)
    then some p
    else finish_aarq
        (with_part (some (context_name b_ciphering)) (
          with_part (calling_title title) (
            with_part (acse_part junk) (
              with_part (mechanism_part mech_id) (
                with_part (authentication_part value)
                  (with_part (user_information init_request) (some [])))))))
        (set_src_port host_id p)

unfoldable pub format_packet_cosem_disc : ℕ → Packet → Option Packet
format_packet_cosem_disc host p = finish (0x62 ∷ 0x00 ∷ []) (set_host_id host p)

-- The flags are REASON_FIELD, 1, and USER_INFO_RLRQ, 2. The source port is set before the length of the
-- request is looked at.
unfoldable pub format_packet_cosem_disc_ln : ℕ → ℕ → ℕ → List ℕ → Packet → Option Packet
format_packet_cosem_disc_ln host_id use_flags reason init_request p =
    let why : List ℕ = if use_flags % 2 == 1 then 0x80 ∷ 0x01 ∷ reason ∷ [] else [] in
    let q = set_src_port host_id p in
    let message : List ℕ → List ℕ = λ info. 0x62 ∷ length (why ++ info) % 2 ^ 8 ∷ (why ++ info) in
    if use_flags / 2 % 2 == 0
    then finish (message []) q
    else if ltb 255 (length init_request)
    then some q
    else elim (release_information init_request) [
      | none ↦ none
      | some info ↦ finish (message info) q
    ]

-- The invoke id is written into the message that the packet holds.
unfoldable pub format_packet_cosem : ℕ → ℕ → Packet → Option Packet
format_packet_cosem host invokeid_priority p =
    let q = set_host_id host p in
    if ltb (q.data_off + 2) 1536
    then some (
        format_packet (record q { mem = store q.mem (q.data_off + 2) (invokeid_priority % 2 ^ 8) }))
    else none
