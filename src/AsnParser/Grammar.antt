-- ===== src/AsnParser/Grammar.antt =====
-- simulator_meter/common/ptcl_codec/asn_parser.cpp: `asn_factory::create_parser`, and the classes of
-- asn_parser.h as what their constructors keep.
use test.Prelude.{ℕ, List, [], ◌∷◌, ◌++◌, Option, none, some, ◌==◌, if◌then◌else◌, get_or}
use test.AsnParser.{
  AsnType, Text, text, ci_null, ci_sequence_of_array, ci_sequence_of_struct, ci_boolean,
  ci_bit_string, ci_integer32, ci_unsigned32, ci_floating_point, ci_octet_string, ci_visible_string,
  ci_gen_time, ci_bcd, ci_integer8, ci_integer16, ci_unsigned8, ci_unsigned16, ci_integer64,
  ci_unsigned64, ci_enumerated, ci_float32, ci_float64, ci_datetime, ci_cosem_class_id,
  ci_cosem_object_instance_id, ci_cosem_object_attribute_id, ci_invoke_id_and_priority, ci_raw_data,
  ci_aarq, ci_cosem_pdu, ci_get_data_result, ci_data_access_result, ci_data, ci_datablock_g,
  ci_result, ci_cosem_attribute_descriptor, ci_selective_access_descriptor,
  ci_attribute_descriptor_list, ci_get_request, ci_get_request_normal, ci_get_request_next,
  ci_get_request_with_list, ci_get_response, ci_get_response_normal, ci_get_response_with_datablock,
  ci_get_response_with_list, ci_set_request, ci_set_request_normal,
  ci_set_request_with_first_datablock, ci_set_request_with_datablock, ci_set_request_with_list,
  ci_set_request_with_list_and_first_datablock, ci_set_response, ci_set_response_normal,
  ci_set_response_datablock, ci_set_response_last_datablock,
  ci_set_response_last_datablock_with_list, ci_set_response_with_list, ci_action_request,
  ci_action_request_normal, ci_action_request_next_pblock, ci_action_request_with_list,
  ci_action_request_with_first_pblock, ci_action_request_with_list_and_first_pblock,
  ci_action_reqeust_with_pblock, ci_action_response, ci_action_response_normal,
  ci_action_response_with_pblock, ci_action_response_with_list, ci_action_response_next_pblock,
}

-- The classes of parsers, with the arguments of their constructors; `data_des_` of a sequence is
-- the prefix with its `_`, or empty. A choice has `size` items.
pub data Parser : Type 0 where
  sequence_parser : List AsnType → ℕ → Text → Parser
  choice_parser : ℕ → (ℕ → AsnType) → AsnType → Text → Parser
  sequence_of_data : AsnType → Text → Parser
  sequence_of_with_list : AsnType → Text → Parser
  ber_sequence_parser : List AsnType → Parser
  fixed_length_type : ℕ → AsnType → Text → Parser
  unfixed_length_type : AsnType → Text → Parser

abbrev pub items_of : List AsnType → ℕ → AsnType
items_of ts tag = get_or ts tag ci_null

-- The array of 256 items of the PDU.
abbrev pdu_items : ℕ → AsnType
pdu_items tag =
    if tag == 192
    then ci_get_request
    else if tag == 196
    then ci_get_response
    else if tag == 193
    then ci_set_request
    else if tag == 197
    then ci_set_response
    else if tag == 195
    then ci_action_request
    else ci_null

-- The array of 256 items of data: behind those listed it is filled with 0, which is ci_null.
abbrev pub data_items : ℕ → AsnType
data_items = items_of (
    ci_null ∷ ci_sequence_of_array ∷ ci_sequence_of_struct ∷ ci_boolean ∷ ci_bit_string
    ∷ ci_integer32 ∷ ci_unsigned32 ∷ ci_floating_point ∷ ci_null ∷ ci_octet_string
    ∷ ci_visible_string ∷ ci_gen_time ∷ ci_null ∷ ci_bcd ∷ ci_null ∷ ci_integer8 ∷ ci_integer16
    ∷ ci_unsigned8 ∷ ci_unsigned16 ∷ ci_null ∷ ci_integer64 ∷ ci_unsigned64 ∷ ci_enumerated
    ∷ ci_float32 ∷ ci_float64 ∷ ci_datetime ∷ ci_null ∷ [])

abbrev choice_of : List AsnType → ℕ → AsnType → Text → Option Parser
choice_of ts size t des = some (choice_parser size (items_of ts) t des)

-- `none` is the pointer that stays NULL.
unfoldable pub create_parser : AsnType → Text → Option Parser
create_parser ci_cosem_attribute_descriptor prefix = some (
    sequence_parser
      (ci_cosem_class_id ∷ ci_cosem_object_instance_id ∷ ci_cosem_object_attribute_id ∷ []) 0 [])
create_parser ci_invoke_id_and_priority prefix =
    some (fixed_length_type 1 ci_invoke_id_and_priority (text "invoke_id_and_priority"))
create_parser ci_cosem_object_instance_id prefix =
    some (fixed_length_type 6 ci_cosem_object_instance_id (text "cosem_object_instance_id"))
create_parser ci_get_request_normal prefix = some (
    sequence_parser
      (ci_invoke_id_and_priority ∷ ci_cosem_attribute_descriptor ∷ ci_selective_access_descriptor
        ∷ [])
      4 [])
create_parser ci_get_request_next prefix =
    some (sequence_parser (ci_invoke_id_and_priority ∷ ci_unsigned32 ∷ []) 4 [])
create_parser ci_get_request_with_list prefix =
    some (sequence_parser (ci_invoke_id_and_priority ∷ ci_attribute_descriptor_list ∷ []) 4 [])
create_parser ci_attribute_descriptor_list prefix =
    some (sequence_of_with_list ci_attribute_descriptor_list (text "attribute_descriptor_list"))
create_parser ci_cosem_class_id prefix =
    some (fixed_length_type 2 ci_cosem_class_id (text "cosem_class_id"))
create_parser ci_cosem_object_attribute_id prefix =
    some (fixed_length_type 1 ci_cosem_object_attribute_id (text "cosem_object_attribute_id"))
create_parser ci_cosem_pdu prefix =
    some (choice_parser 256 pdu_items ci_cosem_pdu (text "cosem_pdu"))
create_parser ci_get_response prefix =
    choice_of
      (ci_null ∷ ci_get_response_normal ∷ ci_get_response_with_datablock ∷ ci_get_response_with_list
        ∷ [])
      4 ci_get_response (text "get_response")
create_parser ci_get_response_normal prefix =
    some (sequence_parser (ci_invoke_id_and_priority ∷ ci_get_data_result ∷ []) 0 [])
create_parser ci_get_response_with_datablock prefix =
    some (sequence_parser (ci_invoke_id_and_priority ∷ ci_datablock_g ∷ []) 0 [])
create_parser ci_get_data_result prefix =
    choice_of (ci_data ∷ ci_data_access_result ∷ []) 2 ci_get_data_result (text "get_data_result")
create_parser ci_data_access_result prefix =
    some (fixed_length_type 1 ci_data_access_result (text "data_access_result"))
create_parser ci_data prefix = some (choice_parser 256 data_items ci_null [])
create_parser ci_null prefix = some (fixed_length_type 0 ci_null (prefix ++ text "null_data"))
create_parser ci_sequence_of_array prefix =
    some (sequence_of_data ci_sequence_of_array (text "sequence_of_array"))
create_parser ci_sequence_of_struct prefix =
    some (sequence_of_data ci_sequence_of_struct (text "sequence_of_struct"))
create_parser ci_boolean prefix = some (fixed_length_type 1 ci_boolean (prefix ++ text "boolean"))
create_parser ci_bit_string prefix =
    some (unfixed_length_type ci_bit_string (prefix ++ text "bit_string"))
create_parser ci_integer32 prefix =
    some (fixed_length_type 4 ci_integer32 (prefix ++ text "integer32"))
create_parser ci_unsigned32 prefix =
    some (fixed_length_type 4 ci_unsigned32 (prefix ++ text "unsigned32"))
create_parser ci_floating_point prefix =
    some (unfixed_length_type ci_floating_point (prefix ++ text "floating_point"))
create_parser ci_float32 prefix = some (fixed_length_type 4 ci_float32 (prefix ++ text "float32"))
create_parser ci_float64 prefix = some (fixed_length_type 8 ci_float64 (prefix ++ text "float64"))
create_parser ci_octet_string prefix =
    some (unfixed_length_type ci_octet_string (text "octet_string"))
create_parser ci_visible_string prefix =
    some (unfixed_length_type ci_visible_string (prefix ++ text "visible_string"))
create_parser ci_gen_time prefix =
    some (fixed_length_type 6 ci_gen_time (prefix ++ text "gen_time"))
create_parser ci_bcd prefix = some (fixed_length_type 1 ci_bcd (prefix ++ text "bcd"))
create_parser ci_integer8 prefix =
    some (fixed_length_type 1 ci_integer8 (prefix ++ text "integer8"))
create_parser ci_integer16 prefix =
    some (fixed_length_type 2 ci_integer16 (prefix ++ text "integer16"))
create_parser ci_unsigned8 prefix =
    some (fixed_length_type 1 ci_unsigned8 (prefix ++ text "unsigned8"))
create_parser ci_unsigned16 prefix =
    some (fixed_length_type 2 ci_unsigned16 (prefix ++ text "unsigned16"))
create_parser ci_integer64 prefix =
    some (fixed_length_type 8 ci_integer64 (prefix ++ text "integer64"))
create_parser ci_unsigned64 prefix =
    some (fixed_length_type 8 ci_unsigned64 (prefix ++ text "unsigned64"))
create_parser ci_datetime prefix =
    some (fixed_length_type 12 ci_datetime (prefix ++ text "datetime"))
create_parser ci_enumerated prefix =
    some (fixed_length_type 1 ci_enumerated (prefix ++ text "enumerated"))
create_parser ci_raw_data prefix =
    some (unfixed_length_type ci_raw_data (prefix ++ text "raw_data"))
create_parser ci_get_request prefix =
    choice_of
      (ci_null ∷ ci_get_request_normal ∷ ci_get_request_next ∷ ci_get_request_with_list ∷ []) 4
      ci_null []
create_parser ci_set_request prefix =
    choice_of
      (ci_null ∷ ci_set_request_normal ∷ ci_set_request_with_first_datablock
        ∷ ci_set_request_with_datablock ∷ ci_set_request_with_list
        ∷ ci_set_request_with_list_and_first_datablock ∷ [])
      6 ci_null []
create_parser ci_set_response prefix =
    choice_of
      (ci_null ∷ ci_set_response_normal ∷ ci_set_response_datablock ∷ ci_set_response_last_datablock
        ∷ ci_set_response_last_datablock_with_list ∷ ci_set_response_with_list ∷ [])
      6 ci_null []
create_parser ci_set_request_normal prefix = some (
    sequence_parser
      (ci_invoke_id_and_priority ∷ ci_cosem_attribute_descriptor ∷ ci_selective_access_descriptor
        ∷ ci_data ∷ [])
      4 [])
create_parser ci_set_response_normal prefix =
    some (sequence_parser (ci_invoke_id_and_priority ∷ ci_data_access_result ∷ []) 0 [])
create_parser ci_action_request prefix =
    choice_of
      (ci_null ∷ ci_action_request_normal ∷ ci_action_request_next_pblock
        ∷ ci_action_request_with_list ∷ ci_action_request_with_first_pblock
        ∷ ci_action_request_with_list_and_first_pblock ∷ ci_action_reqeust_with_pblock ∷ [])
      7 ci_null []
create_parser ci_action_response prefix =
    choice_of
      (ci_null ∷ ci_action_response_normal ∷ ci_action_response_with_pblock
        ∷ ci_action_response_with_list ∷ ci_action_response_next_pblock ∷ [])
      5 ci_null []
create_parser ci_action_request_normal prefix = some (
    sequence_parser (ci_invoke_id_and_priority ∷ ci_cosem_attribute_descriptor ∷ ci_data ∷ []) 4 [])
create_parser ci_selective_access_descriptor prefix =
    some (sequence_parser (ci_unsigned8 ∷ ci_data ∷ []) 4 [])
create_parser ci_aarq prefix = some (ber_sequence_parser (ci_unsigned8 ∷ ci_data ∷ []))
create_parser ci_datablock_g prefix =
    some (sequence_parser (ci_boolean ∷ ci_unsigned32 ∷ ci_result ∷ []) 0 (text "datablock_g_"))
create_parser ci_result prefix = choice_of (ci_raw_data ∷ ci_data_access_result ∷ []) 2 ci_null []
create_parser _ prefix = none
