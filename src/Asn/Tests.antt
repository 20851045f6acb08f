-- ===== src/Asn/Tests.antt =====
-- Encodings with concrete bytes.
use test.Prelude.{ℕ, ◌≡◌, refl, List, [], ◌∷◌, some}
use test.Prelude.Int.{pos}
use test.Memory.{Memory, zeroes, bytes}
use test.Asn.{
  format_tagging_area, format_length_area, format_context_area_bit_string,
  format_context_area_object_indentifier, format_ber_object_indentifier,
  parse_context_area_octet_string,
}

-- The application context name of DLMS, 2.16.756.5.8.1.1.
abbrev context_name : List ℕ
context_name = 2 ∷ 16 ∷ 756 ∷ 5 ∷ 8 ∷ 1 ∷ 1 ∷ []

ber_context_name :
    format_ber_object_indentifier 0 (pos 6) (some context_name)
    ≡ some (6 ∷ 7 ∷ 0x60 ∷ 0x85 ∷ 0x74 ∷ 5 ∷ 8 ∷ 1 ∷ 1 ∷ [])
unfolding format_ber_object_indentifier format_context_area_object_indentifier format_tagging_area
    format_length_area
ber_context_name = refl

-- "11111111" becomes the byte 1.
all_ones :
    bytes
      (format_context_area_bit_string
        (0x31 ∷ 0x31 ∷ 0x31 ∷ 0x31 ∷ 0x31 ∷ 0x31 ∷ 0x31 ∷ 0x31 ∷ [])
        zeroes).1
      0
      2
    ≡ 8 ∷ 1 ∷ []
unfolding format_context_area_bit_string bytes test.Memory.store
all_ones = refl

hex_text : parse_context_area_octet_string (0x04 ∷ 0xfe ∷ []) ≡ 0x30 ∷ 0x34 ∷ 0x46 ∷ 0x45 ∷ []
unfolding parse_context_area_octet_string
hex_text = refl
