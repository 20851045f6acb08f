-- ===== src/AsnParser.antt =====
-- simulator_meter/common/ptcl_codec/asn_parser.cpp and asn_parser.h: the grammar of the messages
-- in the child Grammar, and its parsers in Parse. The types here are those of
-- simulator_meter/include/ptcl_codec/asn_codec.h; the children
-- Items and Block are ptcl_cosem_block, the child Request is ptcl_cosem_request. Texts are lists of
-- character codes.
pub mod Grammar
pub mod Parse
pub mod Items
pub mod Block
pub mod Request
use Prim.Native.Char.{code as char_code}
use Prim.Native.String.{String}
use test.Prelude.{ℕ, List, [], ◌∷◌, Option, none, some}

-- `asn_type`
pub data AsnType : Type 0 where
  ci_null ci_sequence_of_array ci_sequence_of_struct ci_boolean ci_bit_string ci_integer32 : AsnType
  ci_unsigned32 ci_floating_point ci_octet_string ci_visible_string ci_gen_time ci_bcd : AsnType
  ci_integer8 ci_integer16 ci_unsigned8 ci_unsigned16 ci_integer64 ci_unsigned64 ci_enumerated :
      AsnType
  ci_float32 ci_float64 ci_datetime ci_cosem_class_id ci_cosem_object_instance_id : AsnType
  ci_cosem_object_attribute_id ci_invoke_id_and_priority ci_attribute_descriptor_list_qty : AsnType
  ci_raw_data ci_aarq ci_aare ci_application_context_name ci_acse_requirements ci_mechanism_name :
      AsnType
  ci_cosem_pdu ci_get_data_result ci_data_access_result ci_data ci_datablock_g ci_result : AsnType
  ci_cosem_attribute_descriptor ci_selective_access_descriptor ci_attribute_descriptor_list :
      AsnType
  ci_get_request ci_get_request_normal ci_get_request_next ci_get_request_with_list : AsnType
  ci_get_response ci_get_response_normal ci_get_response_with_datablock : AsnType
  ci_get_response_with_list ci_set_request ci_set_request_normal : AsnType
  ci_set_request_with_first_datablock ci_set_request_with_datablock ci_set_request_with_list :
      AsnType
  ci_set_request_with_list_and_first_datablock ci_set_response ci_set_response_normal : AsnType
  ci_set_response_datablock ci_set_response_last_datablock : AsnType
  ci_set_response_last_datablock_with_list ci_set_response_with_list ci_action_request : AsnType
  ci_action_request_normal ci_action_request_next_pblock ci_action_request_with_list : AsnType
  ci_action_request_with_first_pblock ci_action_request_with_list_and_first_pblock : AsnType
  ci_action_reqeust_with_pblock ci_action_response ci_action_response_normal : AsnType
  ci_action_response_with_pblock ci_action_response_with_list ci_action_response_next_pblock :
      AsnType

-- The number of the constant.
abbrev pub code : AsnType → ℕ
code ci_null = 0
code ci_sequence_of_array = 1
code ci_sequence_of_struct = 2
code ci_boolean = 3
code ci_bit_string = 4
code ci_integer32 = 5
code ci_unsigned32 = 6
code ci_floating_point = 7
code ci_octet_string = 8
code ci_visible_string = 9
code ci_gen_time = 10
code ci_bcd = 11
code ci_integer8 = 12
code ci_integer16 = 13
code ci_unsigned8 = 14
code ci_unsigned16 = 15
code ci_integer64 = 16
code ci_unsigned64 = 17
code ci_enumerated = 18
code ci_float32 = 19
code ci_float64 = 20
code ci_datetime = 21
code ci_cosem_class_id = 22
code ci_cosem_object_instance_id = 23
code ci_cosem_object_attribute_id = 24
code ci_invoke_id_and_priority = 25
code ci_attribute_descriptor_list_qty = 26
code ci_raw_data = 27
code ci_aarq = 28
code ci_aare = 29
code ci_application_context_name = 30
code ci_acse_requirements = 31
code ci_mechanism_name = 32
code ci_cosem_pdu = 33
code ci_get_data_result = 34
code ci_data_access_result = 35
code ci_data = 36
code ci_datablock_g = 37
code ci_result = 38
code ci_cosem_attribute_descriptor = 39
code ci_selective_access_descriptor = 40
code ci_attribute_descriptor_list = 41
code ci_get_request = 42
code ci_get_request_normal = 43
code ci_get_request_next = 44
code ci_get_request_with_list = 45
code ci_get_response = 46
code ci_get_response_normal = 47
code ci_get_response_with_datablock = 48
code ci_get_response_with_list = 49
code ci_set_request = 50
code ci_set_request_normal = 51
code ci_set_request_with_first_datablock = 52
code ci_set_request_with_datablock = 53
code ci_set_request_with_list = 54
code ci_set_request_with_list_and_first_datablock = 55
code ci_set_response = 56
code ci_set_response_normal = 57
code ci_set_response_datablock = 58
code ci_set_response_last_datablock = 59
code ci_set_response_last_datablock_with_list = 60
code ci_set_response_with_list = 61
code ci_action_request = 62
code ci_action_request_normal = 63
code ci_action_request_next_pblock = 64
code ci_action_request_with_list = 65
code ci_action_request_with_first_pblock = 66
code ci_action_request_with_list_and_first_pblock = 67
code ci_action_reqeust_with_pblock = 68
code ci_action_response = 69
code ci_action_response_normal = 70
code ci_action_response_with_pblock = 71
code ci_action_response_with_list = 72
code ci_action_response_next_pblock = 73

abbrev pub Text : Type 0
Text = List ℕ

-- A literal as the codes of its characters.
abbrev pub text : String → Text
text String.[] = []
text (String.◌∷◌ c s) = char_code c ∷ text s
