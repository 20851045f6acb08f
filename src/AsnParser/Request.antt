-- ===== src/AsnParser/Request.antt =====
-- simulator_meter/common/ptcl_codec/ptcl_cosem_dlms.cpp: ptcl_cosem_request, which parses a message and
-- reads the results.
pub mod Reading
pub mod Endless
pub mod Types
use test.Prelude.{
  ℕ, zero, suc, ◌+◌, ◌-◌, ◌*◌, List, [], ◌∷◌, ◌++◌, Option, none, some, Bool, true, false, ◌&&◌,
  leb, ltb, ◌==◌, if◌then◌else◌, length, get_elem?, take, drop,
}
use test.Prelude.Int.{ℤ, pos, negsuc, sub_ℕ, minus_one, is_positive}
use test.Memory.{Memory}
use test.AsnParser.{
  AsnType, code, Text, text, ci_cosem_pdu, ci_get_request, ci_raw_data, ci_get_data_result,
  ci_cosem_object_instance_id, ci_cosem_class_id, ci_cosem_object_attribute_id, ci_unsigned8,
  ci_octet_string, ci_datetime,
}
use test.AsnParser.Parse.{ResultItem, ResultSet}
use test.AsnParser.Block
use test.AsnParser.Items.{
  to_bool, to_uint8, to_uint16, to_uint32, Calendar, to_time, to_formatted_obis, extract_results,
  extract_described, find_item,
}

-- `< len`
unfoldable pub is_whole : ℕ → Option (ℤ × ResultSet) → Option (Bool × ResultSet)
is_whole len none = none
is_whole len (some (negsuc n, rs)) = some (false, rs)
is_whole len (some (pos n, rs)) = some (leb len n, rs)

-- Whether the whole message was read, and the results.
unfoldable pub parse_block : ℕ → Memory → ℕ → ℕ → Option (Bool × ResultSet)
unfolding is_whole Block.parse_block
parse_block fuel m fin at = is_whole (fin - at) (Block.parse_block fuel m fin ci_cosem_pdu at [])

-- The first one of the results, or what is returned where there is none.
abbrev first_or {ℓ} : {A : Type ℓ} → A → (ResultItem → A) → ResultSet → A
first_or a f [] = a
first_or a f (r ∷ rs) = f r

unfoldable pub get_request_type : ResultSet → ℤ
unfolding extract_results
get_request_type rs = first_or minus_one (λ r. pos (to_uint8 r)) (extract_results ci_get_request rs)

unfoldable pub is_last_block : ResultSet → Bool
unfolding extract_described
is_last_block rs = first_or true to_bool (extract_described (text "datablock_g_boolean") rs)

-- `int` from `unsigned int`.
abbrev int_of : ℕ → ℤ
int_of n = if ltb n 0x80000000 then pos n else negsuc (0xffffffff - n)

unfoldable pub request_block_number : ResultSet → ℤ
unfolding extract_described
request_block_number rs =
    first_or minus_one (λ r. int_of (to_uint32 r))
      (extract_described (text "datablock_g_unsigned32") rs)

-- `none` is `false`; `length` is at most the size of the array.
unfoldable pub get_raw_data : ResultSet → Option (List ℕ)
unfolding extract_results
get_raw_data rs = first_or none (λ r. some (take r.size r.buf)) (extract_results ci_raw_data rs)

unfoldable pub data_result_type : ResultSet → ℤ
unfolding extract_results
data_result_type rs =
    first_or minus_one (λ r. pos (to_uint8 r)) (extract_results ci_get_data_result rs)

-- The results behind the choice; `none` is `false`.
unfoldable pub get_normal_data : ResultSet → Option ResultSet
unfolding data_result_type find_item
get_normal_data rs = elim (data_result_type rs) [
  | negsuc n ↦ none
  | pos (suc n) ↦ none
  | pos zero ↦ elim (find_item (text "get_data_result") 0 rs) [
    | none ↦ none
    | some p ↦ some (drop (p + 1) rs)
  ]
]

unfoldable pub get_obis : ResultSet → Text
unfolding extract_results to_formatted_obis
get_obis rs = first_or (text "0") to_formatted_obis (extract_results ci_cosem_object_instance_id rs)

unfoldable pub get_class_id : ResultSet → ℕ
unfolding extract_results
get_class_id rs = first_or 0 to_uint16 (extract_results ci_cosem_class_id rs)

unfoldable pub get_attr_id : ResultSet → ℕ
unfolding extract_results
get_attr_id rs = first_or 0 to_uint8 (extract_results ci_cosem_object_attribute_id rs)

unfoldable pub is_access_selector : ResultSet → ℕ
unfolding find_item
is_access_selector rs = elim (find_item (text "unsigned8") 0 rs) [
  | none ↦ 0
  | some p ↦ elim (get_elem? rs p) [
    | none ↦ 0
    | some r ↦ if code r.tid == code ci_unsigned8 then to_uint8 r else 0
  ]
]

abbrev is_octets12 : ResultItem → Bool
is_octets12 r = (code r.tid == code ci_octet_string) && (r.size == 12)

-- `cosem_methoed_desc`; the times are not set where there is no selector.
pub record CosemMethoedDesc : Type 0 where
  pub class_id : ℕ
  pub obis : Text
  pub attr_id : ℕ
  pub access_selector : Bool
  pub times : Option (ℕ × ℕ)

module _ (mktime : Calendar → ℕ) where
  -- The time some places behind the selector; `none` is a read behind the last result.
  selected_time : ℕ → ResultSet → Option ℕ
  unfolding find_item to_time
  selected_time n rs = elim (find_item (text "unsigned8") 0 rs) [
    | none ↦ some 0
    | some p ↦ elim (get_elem? rs (p + n)) [
      | none ↦ none
      | some r ↦ some (
          if is_octets12 r
          then to_time mktime r
          else if code r.tid == code ci_datetime
          then to_time mktime r
          else 0)
    ]
  ]

  unfoldable pub get_start_time : ResultSet → Option ℕ
  unfolding selected_time
  get_start_time rs = selected_time 7 rs

  unfoldable pub get_end_time : ResultSet → Option ℕ
  unfolding selected_time
  get_end_time rs = selected_time 8 rs

  -- The two times of an entry; `some none` where there is none, which ends the reading.
  entry_times : ResultSet → Option (Option (ℕ × ℕ))
  unfolding to_time
  entry_times [] = none
  entry_times (r ∷ []) =
      if is_octets12 r then none else if code r.tid == code ci_datetime then none else some none
  entry_times (r ∷ s ∷ rs) =
      if is_octets12 r && is_octets12 s
      then some (some (to_time mktime r, to_time mktime s))
      else if code r.tid == code ci_datetime
      then some (some (to_time mktime r, to_time mktime s))
      else some none

  desc : ResultItem → ResultItem → ResultItem → ResultItem → Option (ℕ × ℕ) → CosemMethoedDesc
  unfolding to_formatted_obis
  desc c o a s t = record {
    class_id = to_uint16 c;
    obis = to_formatted_obis o;
    attr_id = to_uint8 a;
    access_selector = to_bool s;
    times = t;
  }

  with_entry :
      CosemMethoedDesc
      → Option (Bool × List CosemMethoedDesc)
      → Option (Bool × List CosemMethoedDesc)
  with_entry d none = none
  with_entry d (some (ok, ds)) = some (ok, d ∷ ds)

  -- The entries from the results on, with what is returned; `none` is a read behind the last result.
  read_entries : ℕ → ResultSet → Option (Bool × List CosemMethoedDesc)
  unfolding entry_times desc with_entry
  read_entries zero rs = some (true, [])
  read_entries (suc n) (c ∷ o ∷ a ∷ s ∷ rs) =
      let rest = read_entries n rs in
      let behind = read_entries n (drop 10 rs) in
      if to_bool s
      then elim (entry_times (drop 7 rs)) [
        | none ↦ none
        | some none ↦ some (false, [])
        | some (some t) ↦ with_entry (desc c o a s (some t)) behind
      ]
      else with_entry (desc c o a s none) rest
  read_entries (suc n) rs = none

  unfoldable pub get_list_data : ResultSet → Option (Bool × List CosemMethoedDesc)
  unfolding find_item read_entries
  get_list_data rs = elim (find_item (text "attribute_descriptor_list") 0 rs) [
    | none ↦ some (false, [])
    | some p ↦ elim (drop p rs) [ [] ↦ none | r ∷ rest ↦ read_entries (to_uint8 r) rest ]
  ]
