-- ===== src/Asn.antt =====
-- simulator_meter/common/ptcl_codec/asn_codec.cpp and include/ptcl_codec/asn_codec.h: the ASN.1
-- and COSEM data encodings. A formatter that writes to `buffer` returns the bytes written, whose
-- number is its result; a parser takes the bytes from `buffer` on and is `none` where it reads
-- behind them. Text that goes through `sscanf`, floats and calendar time are not modelled.
pub mod Tagging
pub mod Length
pub mod Oid
pub mod BitString
mod Tests
use test.Prelude.{
  ℕ, zero, suc, ◌+◌, ◌-◌, ◌*◌, ◌/◌, ◌%◌, ◌^◌, List, [], ◌∷◌, ◌++◌, map, Option, none, some, Bool,
  true, false, ◌&&◌, leb, ltb, ◌==◌, if◌then◌else◌, length, take, get_or, bit_or,
}
use test.Prelude.Int.{ℤ, pos, negsuc, to_u8}
use test.Memory.{Memory, store, bytes}

-- `asn_tagging_codec_type`.
abbrev pub primary : ℕ
primary = 0

abbrev pub construct : ℕ
construct = 1

-- The first byte of a tag: five bits of number, one of the kind of coding, two of the class.
abbrev tag_byte : ℕ → ℕ → ℕ → ℕ
tag_byte class codec number = number % 2 ^ 5 + codec % 2 * 2 ^ 5 + class % 4 * 2 ^ 6

unfoldable pub format_tagging_area : ℕ → ℕ → ℤ → List ℕ
format_tagging_area class codec (negsuc v) = []
format_tagging_area class codec (pos v) =
    if leb v 30
    then tag_byte class codec v ∷ []
    else if leb v 127
    then tag_byte class codec 0x1f ∷ v % 2 ^ 7 ∷ []
    else []

-- What `parse_tagging_area` returns and assigns.
pub record Tag : Type 0 where
  pub used : ℕ
  pub class : ℕ
  pub codec : ℕ
  pub value : ℕ

long_tag : Tag → List ℕ → Option Tag
long_tag t [] = none
long_tag t (b ∷ rest) =
    some (if b / 2 ^ 7 % 2 == 0 then record t { used = 2; value = b % 2 ^ 7 } else t)

unfoldable pub parse_tagging_area : List ℕ → Option Tag
unfolding long_tag
parse_tagging_area [] = none
parse_tagging_area (b ∷ rest) =
    let t : Tag = record {
      used = 0;
      class = b / 2 ^ 6 % 4;
      codec = b / 2 ^ 5 % 2;
      value = b % 2 ^ 5;
    } in
    if leb (b % 2 ^ 5) 30 then some (record t { used = 1 }) else long_tag t rest

unfoldable pub format_length_area : ℤ → List ℕ
format_length_area (negsuc n) = to_u8 (negsuc n) ∷ []
format_length_area (pos n) =
    if leb n 127
    then n ∷ []
    else if leb n 255
    then 0x81 ∷ n ∷ []
    else if leb n 65535
    then 0x82 ∷ n / 256 ∷ n % 256 ∷ []
    else []

-- `length = length*256+buffer[parse_len++]`, `count` times, on the bits of an `int`.
length_loop : ℕ → ℕ → ℕ → List ℕ → Option (ℕ × ℕ)
length_loop zero n used buffer = some (used, n)
length_loop (suc count) n used [] = none
length_loop (suc count) n used (b ∷ rest) =
    length_loop count ((n * 256 + b) % 2 ^ 32) (used + 1) rest

-- The result, and the value of `length` after the call where it is `n` before.
unfoldable pub parse_length_area : List ℕ → ℕ → Option (ℕ × ℕ)
unfolding length_loop
parse_length_area [] n = none
parse_length_area (b ∷ rest) n =
    if b / 2 ^ 7 == 0
    then some (1, b % 2 ^ 7)
    else if ltb 4 (b % 2 ^ 7)
    then some (0, n)
    else length_loop (b % 2 ^ 7) n 1 rest

-- The loop over the characters, from number `n` on: each assigns its byte anew.
bit_loop : ℕ → List ℕ → Memory → Memory
bit_loop n [] m = m
bit_loop n (c ∷ cs) m =
    bit_loop (n + 1) cs (store m (1 + n / 8) ((c + 2 ^ 8 - 0x30) * 2 ^ (8 - n % 8 - 1) % 2 ^ 8))

-- The result, and the buffer.
unfoldable pub format_context_area_bit_string : List ℕ → Memory → ℕ × Memory
unfolding bit_loop
format_context_area_bit_string bits m =
    (1 + length bits / 8 + 1, bit_loop 0 bits (store m 0 (8 - length bits % 8)))

-- The characters before the first NUL, of a text that has one behind the listed characters.
unfoldable pub format_context_area_graphic_string : List ℕ → List ℕ
format_context_area_graphic_string [] = []
format_context_area_graphic_string (c ∷ text) =
    let rest = format_context_area_graphic_string text in if c == 0 then [] else c ∷ rest

-- The two characters of "%02X".
abbrev pub hex_digit : ℕ → ℕ
hex_digit d = if ltb d 10 then 0x30 + d else 0x37 + d

unfoldable pub parse_context_area_octet_string : List ℕ → List ℕ
parse_context_area_octet_string [] = []
parse_context_area_octet_string (b ∷ bs) =
    hex_digit (b / 16) ∷ hex_digit (b % 16) ∷ parse_context_area_octet_string bs

-- The bytes of a word, highest first; the word is given by its bits.
unfoldable pub format_context_area_short : ℕ → List ℕ
format_context_area_short s = s / 2 ^ 8 % 2 ^ 8 ∷ s % 2 ^ 8 ∷ []

unfoldable pub format_context_area_int : ℕ → List ℕ
unfolding format_context_area_short
format_context_area_int i =
    format_context_area_short (i / 2 ^ 16) ++ format_context_area_short (i % 2 ^ 16)

unfoldable pub format_context_area_int64 : ℕ → List ℕ
unfolding format_context_area_int
format_context_area_int64 i =
    format_context_area_int (i / 2 ^ 32) ++ format_context_area_int (i % 2 ^ 32)

-- `v_oi[0] * 40 + v_oi[1]`, two bytes for the third number, and one for each of the others.
oid_bytes : List ℕ → List ℕ
oid_bytes (a ∷ b ∷ c ∷ rest) =
    (a * 40 + b) % 2 ^ 8 ∷ (c / 2 ^ 7 % 2 ^ 7 + 2 ^ 7) ∷ c % 2 ^ 7 ∷ map (λ v. v % 2 ^ 8) rest
oid_bytes _ = []

-- The numbers are `none` where the pointer is NULL; they are all the `count_oi` numbers.
unfoldable pub format_context_area_object_indentifier : Option (List ℕ) → List ℕ
unfolding oid_bytes
format_context_area_object_indentifier none = []
format_context_area_object_indentifier (some v) = if ltb (length v) 5 then [] else oid_bytes v

-- The numbers assigned, of `length` bytes.
unfoldable pub parse_context_area_object_indentifier : List ℕ → ℕ → Option (List ℕ)
parse_context_area_object_indentifier (a ∷ b ∷ c ∷ rest) n =
    if ltb (length rest) (n - 3)
    then none
    else some (a / 40 ∷ a % 40 ∷ (b % 2 ^ 7 * 2 ^ 7 + c % 2 ^ 7) ∷ take (n - 3) rest)
parse_context_area_object_indentifier _ n = none

-- A tag, the length of the content, and the content; the content is assembled in an array of 1024
-- bytes, and `none` is a content that is larger.
unfoldable pub format_ber : ℕ → ℕ → ℤ → List ℕ → Option (List ℕ)
format_ber class codec value content =
    if leb (length content) 1024
    then some (
        format_tagging_area class codec value
        ++ (format_length_area (pos (length content)) ++ content))
    else none

unfoldable pub format_ber_object_indentifier : ℕ → ℤ → Option (List ℕ) → Option (List ℕ)
unfolding format_ber
format_ber_object_indentifier class value v =
    format_ber class primary value (format_context_area_object_indentifier v)

unfoldable pub format_ber_graphic_string : ℕ → ℤ → List ℕ → Option (List ℕ)
unfolding format_ber
format_ber_graphic_string class value text =
    format_ber class primary value (format_context_area_graphic_string text)

-- The array `context_area` holds `junk` before it is written.
unfoldable pub format_ber_bit_string : ℕ → ℤ → List ℕ → Memory → Option (List ℕ)
unfolding format_ber
format_ber_bit_string class value bits junk =
    let (n, m) = format_context_area_bit_string bits junk in
    format_ber class primary value (bytes m 0 n)

-- The content is the caller's, of any length.
unfoldable pub format_ber_choice : ℕ → ℤ → List ℕ → List ℕ
format_ber_choice class value content =
    format_tagging_area class construct value
    ++ (format_length_area (pos (length content)) ++ content)

unfoldable pub concat : List (List ℕ) → List ℕ
concat [] = []
concat (p ∷ ps) = p ++ concat ps

-- The parts are the `context_area`s of `v_pdu`.
unfoldable pub format_ber_seqence : ℕ → ℤ → List (List ℕ) → Option (List ℕ)
unfolding format_ber concat
format_ber_seqence class value parts = format_ber class construct value (concat parts)

unfoldable pub bcd_to_bin : ℕ → ℕ
bcd_to_bin bcd =
    if ltb 9 (bcd / 16) then 0 else if ltb 9 (bcd % 16) then 0 else bcd / 16 * 10 + bcd % 16

-- The two methods `format_basic_data`, `format_array_data` and `format_struct_data`.
unfoldable pub format_basic_data : ℕ → ℕ → List ℕ
format_basic_data tid n =
    tid ∷ format_length_area (if ltb n (2 ^ 31) then pos n else negsuc (2 ^ 32 - n - 1))

unfoldable pub format_basic_data_bare : ℕ → List ℕ
format_basic_data_bare tid = tid ∷ []

unfoldable pub format_array_data : ℕ → List ℕ
format_array_data item_size = 0x01 ∷ item_size % 2 ^ 8 ∷ []

unfoldable pub format_struct_data : ℕ → List ℕ
format_struct_data item_size = 0x02 ∷ item_size % 2 ^ 8 ∷ []

unfoldable pub format_unsigned_double_long : ℕ → List ℕ
unfolding format_context_area_int
format_unsigned_double_long value = 0x06 ∷ format_context_area_int value

unfoldable pub format_unsigned : ℕ → List ℕ
format_unsigned value = 0x16 ∷ value ∷ []
