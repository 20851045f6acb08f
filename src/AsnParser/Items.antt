-- ===== src/AsnParser/Items.antt =====
-- simulator_meter/include/ptcl_codec/asn_codec.h: `result_data`, and the methods of ptcl_cosem_block in
-- simulator_meter/common/ptcl_codec/ptcl_cosem_dlms.cpp that look into the results of a parse.
use test.Prelude.{
  ℕ, ◌+◌, ◌*◌, ◌/◌, ◌%◌, List, [], ◌∷◌, ◌++◌, Option, none, some, Bool, true, false, ◌&&◌, ◌||◌,
  ltb, ◌==◌, if◌then◌else◌, get_or, drop,
}
use test.Prelude.Int.{ℤ, pos, sub_ℕ, minus_one}
use test.AsnParser.{AsnType, code, Text, ci_null}
use test.AsnParser.Parse.{ResultItem, ResultSet}

abbrev byte_at : ResultItem → ℕ → ℕ
byte_at r i = get_or r.buf i 0

abbrev pub to_bool : ResultItem → Bool
to_bool r = if byte_at r 0 == 0 then false else true

abbrev pub to_uint8 : ResultItem → ℕ
to_uint8 r = byte_at r 0

abbrev pub to_uint16 : ResultItem → ℕ
to_uint16 r = byte_at r 0 * 0x100 + byte_at r 1

abbrev pub to_uint32 : ResultItem → ℕ
to_uint32 r = byte_at r 0 * 0x1000000 + byte_at r 1 * 0x10000 + byte_at r 2 * 0x100 + byte_at r 3

-- `struct tm`, as far as it is set.
pub record Calendar : Type 0 where
  pub tm_sec : ℕ
  pub tm_min : ℕ
  pub tm_hour : ℕ
  pub tm_mday : ℕ
  pub tm_mon : ℤ
  pub tm_year : ℤ
  pub tm_isdst : ℤ

-- `mktime` of the C library is a parameter: what it returns, as an `unsigned int`.
unfoldable pub to_time : (Calendar → ℕ) → ResultItem → ℕ
to_time mktime r = mktime (record {
  tm_sec = byte_at r 7;
  tm_min = byte_at r 6;
  tm_hour = byte_at r 5;
  tm_mday = byte_at r 3;
  tm_mon = sub_ℕ (byte_at r 2) 1;
  tm_year = sub_ℕ (byte_at r 0 * 256 + byte_at r 1) 1900;
  tm_isdst =
      if byte_at r 11 == 255 then minus_one else if ltb (byte_at r 11) 128 then pos 0 else pos 1;
})

-- "%02X"
abbrev hex_char : ℕ → ℕ
hex_char n = if ltb n 10 then 48 + n else 55 + n

abbrev pub hex2 : ℕ → List ℕ
hex2 b = hex_char (b / 16) ∷ hex_char (b % 16) ∷ []

unfoldable pub to_formatted_obis : ResultItem → Text
to_formatted_obis r =
    hex2 (byte_at r 0)
    ++ (hex2 (byte_at r 1)
        ++ (hex2 (byte_at r 2)
            ++ (hex2 (byte_at r 3) ++ (hex2 (byte_at r 4) ++ hex2 (byte_at r 5)))))

-- `des_info.find(des) != npos`
unfoldable pub starts_with : Text → Text → Bool
starts_with [] s = true
starts_with (c ∷ p) [] = false
starts_with (c ∷ p) (d ∷ s) = (c == d) && starts_with p s

unfoldable pub contains : Text → Text → Bool
unfolding starts_with
contains p [] = starts_with p []
contains p (c ∷ s) = starts_with p (c ∷ s) || contains p s

-- The results of a type, and those whose description contains a text.
unfoldable pub extract_results : AsnType → ResultSet → ResultSet
extract_results t [] = []
extract_results t (r ∷ rs) =
    let rest = extract_results t rs in if code r.tid == code t then r ∷ rest else rest

unfoldable pub extract_described : Text → ResultSet → ResultSet
unfolding contains
extract_described s [] = []
extract_described s (r ∷ rs) =
    let rest = extract_described s rs in if contains s r.des then r ∷ rest else rest

abbrev pub get_item : Text → ResultSet → ResultItem
unfolding extract_described
get_item s rs =
    get_or (extract_described s rs) 0 (record { tid = ci_null; des = []; size = 0; buf = [] })

-- The place of the first one of the results whose description contains the text, counted from `i`.
find_from : Text → ResultSet → ℕ → Option ℕ
unfolding contains
find_from s [] i = none
find_from s (r ∷ rs) i =
    let rest = find_from s rs (i + 1) in if contains s r.des then some i else rest

-- `none` is -1.
unfoldable pub find_item : Text → ℕ → ResultSet → Option ℕ
unfolding find_from
find_item s begin rs = find_from s (drop begin rs) begin
