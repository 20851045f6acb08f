-- ===== src/Meter/Handler/Data.antt =====
-- simulator_meter/fee/meter_simulator/meter_handler.cpp: `process_data`, the answer to a request for
-- data. The record `Objects` is what it uses of object_transfer, which looks values up. The request is
-- parsed with a fuel (AsnParser.Parse); a result `none` is also a parse that does not end.
use test.Prelude.{
  ℕ, ◌+◌, List, [], ◌∷◌, Option, none, some, Bool, true, false, ltb, ◌==◌, if◌then◌else◌, length,
}
use test.Prelude.Int.{is_positive}
use test.MessageBlock.{MessageBlock, contents}
use test.Packet.{Packet, count, packet_bytes}
use test.AsnParser.{Text}
use test.AsnParser.Parse.{ResultSet}
use test.AsnParser.Items.{Calendar}
use test.AsnParser.Request.{
  parse_block, get_class_id, get_obis, get_attr_id, is_access_selector, get_start_time,
  get_end_time, CosemMethoedDesc, get_list_data,
}
use test.Packet.Dlms47.{get_src_port}
use test.Security.{Crypto}
use test.Meter.{Meter}
use test.Meter.Protect.{put_block, call_encrypt}
use test.Meter.Apdu.{
  DataResult, format_packet_get_response, format_packet_get_response_with_list,
  format_packet_action_response,
}
use test.Meter.Apdu.Profile.{
  Tm, ProfileUnit, format_packet_get_response_units, format_packet_get_response_with_profiles,
}

-- What is asked for; the times are 0 where there is no selector.
pub record Attribute : Type 0 where
  pub class_id : ℕ
  pub obis : Text
  pub attr_id : ℕ
  pub start_time : ℕ
  pub end_time : ℕ

-- What was found: rows of a profile, a value, or nothing; a result that is not set is sent as it is, or the
-- process has ended before.
pub data Found : Type 0 where
  rows : ProfileUnit → List ProfileUnit → Found
  value : DataResult → Found
  missing : Found
  unset : Found

-- `format_get_normal_response` and `format_action_normal_response`, with the state of the
-- image transfer. The second one tells whether the method was run, and gives the state behind it.
pub record Objects : Type 0 where
  pub find : Attribute → ℕ → Found
  pub action : Attribute → ℕ → Bool × ℕ

-- The pointers to results that a list collects; a result of its own is a variable of the loop body, and
-- its pointer dangles when the list is formatted.
profiles_of : List Found → List (List ProfileUnit)
profiles_of [] = []
profiles_of (rows u us ∷ fs) = (u ∷ us) ∷ profiles_of fs
profiles_of (_ ∷ fs) = profiles_of fs

missing_of : List Found → Option (List (Option DataResult))
missing_of [] = some []
missing_of (rows u us ∷ fs) = missing_of fs
missing_of (value r ∷ fs) = none
missing_of (unset ∷ fs) = none
missing_of (missing ∷ fs) = elim (missing_of fs) [ none ↦ none | some rs ↦ some (none ∷ rs) ]

-- `none` is a time that is not among the results.
abbrev with_times : ℕ → Text → ℕ → Option ℕ → Option ℕ → Option Attribute
with_times c s a none end = none
with_times c s a (some b) none = none
with_times c s a (some b) (some e) =
    some (record { class_id = c; obis = s; attr_id = a; start_time = b; end_time = e })

unfoldable pub attribute_of : (Calendar → ℕ) → ResultSet → Option Attribute
attribute_of mktime rs =
    let c = get_class_id rs in
    let s = get_obis rs in
    let a = get_attr_id rs in
    if ltb 0 (is_access_selector rs)
    then with_times c s a (get_start_time mktime rs) (get_end_time mktime rs)
    else with_times c s a (some 0) (some 0)

listed_attribute : CosemMethoedDesc → Attribute
listed_attribute d = record {
  class_id = d.class_id;
  obis = d.obis;
  attr_id = d.attr_id;
  start_time = elim d.times [ none ↦ 0 | some t ↦ t.0 ];
  end_time = elim d.times [ none ↦ 0 | some t ↦ t.1 ];
}

listed_attributes : List CosemMethoedDesc → List Attribute
unfolding listed_attribute
listed_attributes [] = []
listed_attributes (d ∷ ds) = listed_attribute d ∷ listed_attributes ds

abbrev pub keep_invokeid : Packet → Meter → Meter
keep_invokeid p m = record m { invokeid = p.mem (p.data_off + 2) }

module _ (o : Objects) (fuel : ℕ) (mktime : Calendar → ℕ) (localtime : ℕ → Tm) (host : ℕ) where
  open o use {find, action}

  answer_one : Found → ℕ → ℕ → Packet → Option Packet
  answer_one (rows u us) client invoke p =
      format_packet_get_response_units localtime host client (u ∷ us) invoke p
  answer_one (value r) client invoke p = format_packet_get_response host client (some r) invoke p
  answer_one unset client invoke p = none
  answer_one missing client invoke p = format_packet_get_response host client none invoke p

  find_all : List Attribute → ℕ → List Found
  find_all [] its = []
  find_all (d ∷ ds) its = find d its ∷ find_all ds its

  answer_profiles : List (List ProfileUnit) → ℕ → ℕ → Packet → Option Packet
  answer_profiles [] client invoke p = some p
  answer_profiles (us ∷ rest) client invoke p =
      format_packet_get_response_with_profiles localtime host client (us ∷ rest) invoke p

  answer_missing : List (Option DataResult) → ℕ → ℕ → Packet → Option Packet
  answer_missing [] client invoke p = some p
  answer_missing (r ∷ rs) client invoke p =
      format_packet_get_response_with_list host client (r ∷ rs) invoke p

  -- The second answer is written over the first one.
  answer_all : List Found → ℕ → ℕ → Packet → Option Packet
  unfolding profiles_of missing_of answer_profiles answer_missing
  answer_all fs client invoke p = elim (missing_of fs) [
    | none ↦ none
    | some rs ↦ elim (answer_profiles (profiles_of fs) client invoke p) [
      | none ↦ none
      | some q ↦ answer_missing rs client invoke q
    ]
  ]

  -- A request for one attribute.
  unfoldable pub get_answer : Packet → ℕ → Attribute → Option Packet
  unfolding answer_one
  get_answer p its d =
      answer_one (find d its) (get_src_port p) (p.mem (p.data_off + 2)) (test.Packet.Dlms47.new 1)

  -- One for a list of them.
  unfoldable pub list_answer : Packet → ℕ → List Attribute → Option Packet
  unfolding answer_all find_all
  list_answer p its ds =
      answer_all (find_all ds its) (get_src_port p) (p.mem (p.data_off + 2))
        (test.Packet.Dlms47.new 1)

  unfoldable pub action_answer : Packet → ℕ → Attribute → Option Packet
  action_answer p its d =
      format_packet_action_response (if (action d its).0 then 0 else 3) (get_src_port p) none
        (p.mem (p.data_off + 2)) (test.Packet.Dlms47.new 1)

  module _ (c : Crypto) where
    unfoldable pub encrypted : Option (Bool × MessageBlock × Meter) → Option (Bool × Meter)
    encrypted none = none
    encrypted (some (ok, mb, m)) =
        if ok then some (true, record m { sent = contents mb ∷ m.sent }) else some (false, m)

    -- What is sent, protected where the request was.
    unfoldable pub sent_block : MessageBlock → Meter → Option (Bool × Meter)
    unfolding encrypted
    sent_block mb m =
        if m.is_cipher
        then encrypted (call_encrypt c mb mb m)
        else some (true, record m { sent = contents mb ∷ m.sent })

    unfoldable pub send_answer : Option Packet → Meter → Option (Bool × Meter)
    unfolding sent_block
    send_answer none m = none
    send_answer (some s) m =
        if is_positive s.len_packet
        then elim (put_block (packet_bytes s) test.MessageBlock.new) [
          | none ↦ none
          | some mb ↦ sent_block mb m
        ]
        else some (false, m)

    -- By the kind of the request, the byte behind the tag; of another kind an empty packet is left,
    -- which is not sent.
    unfoldable pub get_one : Packet → ResultSet → Meter → Option (Bool × Meter)
    get_one p rs m = elim (attribute_of mktime rs) [
      | none ↦ none
      | some d ↦ send_answer (get_answer p m.its_state d) m
    ]

    unfoldable pub get_list : Packet → ResultSet → Meter → Option (Bool × Meter)
    unfolding listed_attributes
    get_list p rs m = elim (get_list_data mktime rs) [
      | none ↦ none
      | some (ok, ds) ↦
          if length ds == 0
          then some (false, m)
          else send_answer (list_answer p m.its_state (listed_attributes ds)) m
    ]

    unfoldable pub get_kind : Packet → ResultSet → Meter → Option (Bool × Meter)
    unfolding get_one get_list
    get_kind p rs m =
        let kind = p.mem (p.data_off + 1) in
        if kind == 1
        then get_one p rs m
        else if kind == 3
        then get_list p rs m
        else send_answer (some (test.Packet.Dlms47.new 1)) m

    -- `request.parse_block` on the data area.
    unfoldable pub parse_request : Packet → Option (Bool × ResultSet)
    parse_request p = parse_block fuel p.mem (p.data_off + count p.len_data_area) p.data_off

    -- The invoke id is kept before the kind of the request is looked at.
    unfoldable pub get_request : Packet → Meter → Option (Bool × Meter)
    unfolding get_kind parse_request
    get_request p m = elim (parse_request p) [
      | none ↦ none
      | some (ok, rs) ↦ if ok then get_kind p rs (keep_invokeid p m) else some (false, m)
    ]

    unfoldable pub action_one : Packet → ResultSet → Meter → Option (Bool × Meter)
    action_one p rs m =
        let d : Attribute = record {
          class_id = get_class_id rs;
          obis = get_obis rs;
          attr_id = get_attr_id rs;
          start_time = 0;
          end_time = 0;
        } in
        send_answer (action_answer p m.its_state d)
          (record m { its_state = (action d m.its_state).1 })

    unfoldable pub action_request : Packet → Meter → Option (Bool × Meter)
    unfolding parse_request action_one
    action_request p m = elim (parse_request p) [
      | none ↦ none
      | some (ok, rs) ↦ if ok then action_one p rs (keep_invokeid p m) else some (false, m)
    ]

    unfoldable pub process_data : Packet → Meter → Option (Bool × Meter)
    unfolding get_request action_request
    process_data p m =
        let tag = p.mem p.data_off in
        if tag == 192
        then get_request p m
        else if tag == 195
        then action_request p m
        else some (false, m)
