-- ===== src/Meter/Transfer/Response.antt =====
-- simulator_meter/fee/meter_simulator/object_transfer.cpp: the values of objects, and the choice by the
-- kind of the object.
use test.Prelude.{
  ℕ, ◌+◌, ◌%◌, ◌^◌, List, [], ◌∷◌, Option, none, some, Bool, true, false, ◌==◌, if◌then◌else◌,
  replicate,
}
use test.Security.{same_text, word_bytes}
use test.AsnParser.{Text, text}
use test.Meter.Apdu.Profile.{ProfileUnit, format_date_time}
use test.Meter.Handler.Data.{Attribute, Found, rows, value, missing, unset, Objects}
use test.Meter.Transfer.{Ambience}
use test.Meter.Transfer.Config.{Config, get_data_type}
use test.Meter.Transfer.Types.{
  get_ci_type, ot_null, ot_event, ot_event_code, ot_profile, ot_register, ot_firmware,
  ot_disconnect_control, get_obis_type,
}
use test.Meter.Transfer.Rows.{
  value_of, format_profile_data_attr_2, format_profile_attr_3, format_profile_attr_4,
  format_profile_event_attr_2,
}

-- Rows where there are any.
abbrev rows_or_missing : List ProfileUnit → Found
rows_or_missing [] = missing
rows_or_missing (u ∷ us) = rows u us

-- A string of another class than the clock's is answered with a result that is not set.
unfoldable pub format_register_attr_2 : Ambience → Config → Text → ℕ → ℕ → Found
format_register_attr_2 a c obis class attr =
    let t = get_ci_type (get_data_type c class obis attr) in
    let date = value (value_of t (format_date_time (a.localtime a.now))) in
    if t == 6
    then value (value_of t (replicate 4 0))
    else if t == 17
    then value (value_of t (0 ∷ []))
    else if t == 22
    then value (value_of t (0 ∷ []))
    else if t == 25
    then date
    else if t == 9
    then if class == 8 then date else unset
    else missing

unfoldable pub format_event_code_attr_2 : Ambience → Text → Found
format_event_code_attr_2 a obis =
    if same_text obis (text "0000600B00FF")
    then value (value_of 22 ((1 + a.rand 0 % 20) ∷ []))
    else missing

unfoldable pub format_disconnect_control_attr : ℕ → Found
format_disconnect_control_attr attr =
    if attr == 2
    then value (value_of 3 (1 ∷ []))
    else if attr == 3
    then value (value_of 22 (1 ∷ []))
    else if attr == 4
    then value (value_of 22 (3 ∷ []))
    else missing

unfoldable pub format_image_transfer_attr : ℕ → ℕ → Found
format_image_transfer_attr attr its_state =
    if attr == 2
    then value (value_of 6 (word_bytes 192))
    else if attr == 3
    then value (value_of 4 (1 ∷ []))
    else if attr == 4
    then value (value_of 6 (word_bytes 0xffffff))
    else if attr == 5
    then value (value_of 3 (1 ∷ []))
    else if attr == 6
    then value (value_of 22 (its_state % 2 ^ 8 ∷ []))
    else missing

-- Whether the method was run, and the state of the switch behind it.
unfoldable pub format_image_transfer_method : ℕ → ℕ → Bool × ℕ
format_image_transfer_method attr its_state =
    if attr == 1
    then (true, 1)
    else if attr == 3
    then (true, 3)
    else if attr == 4
    then (true, 6)
    else (false, its_state)

-- No method of the disconnect control is run.
unfoldable pub format_disconnect_control_method : ℕ → Bool × ℕ
format_disconnect_control_method its_state = (false, its_state)

-- An event profile, where a division by 0 ends the process.
event_found : Option (List ProfileUnit) → Found
event_found none = unset
event_found (some us) = rows_or_missing us

profile_found : Config → Text → ℕ → Found → List ProfileUnit → Found
profile_found c obis attr data_found objects =
    if attr == 2
    then data_found
    else if attr == 3
    then rows_or_missing objects
    else if attr == 4
    then value (format_profile_attr_4 c obis)
    else missing

unfoldable pub format_get_normal_response : Ambience → Config → Attribute → ℕ → Found
unfolding event_found profile_found
format_get_normal_response a c d its_state =
    let objects = format_profile_attr_3 a c d.obis in
    elim (get_obis_type c d.class_id d.obis) [
      | ot_null ↦ missing
      | ot_profile ↦
          profile_found c d.obis d.attr_id
            (rows_or_missing (format_profile_data_attr_2 a c d.obis d.start_time d.end_time))
            objects
      | ot_event ↦
          profile_found c d.obis d.attr_id
            (event_found (format_profile_event_attr_2 a c d.obis d.start_time d.end_time)) objects
      | ot_event_code ↦ format_event_code_attr_2 a d.obis
      | ot_register ↦ format_register_attr_2 a c d.obis d.class_id d.attr_id
      | ot_firmware ↦ format_image_transfer_attr d.attr_id its_state
      | ot_disconnect_control ↦ format_disconnect_control_attr d.attr_id
    ]

unfoldable pub format_action_normal_response : Config → Attribute → ℕ → Bool × ℕ
format_action_normal_response c d its_state = elim (get_obis_type c d.class_id d.obis) [
  | ot_firmware ↦ format_image_transfer_method d.attr_id its_state
  | ot_disconnect_control ↦ format_disconnect_control_method its_state
  | _ ↦ (false, its_state)
]

-- What `process_data` uses; the numbers drawn may differ from one attribute to another.
unfoldable pub objects : (Attribute → Ambience) → Config → Objects
objects ambience c = record {
  find = λ d its. format_get_normal_response (ambience d) c d its;
  action = λ d its. format_action_normal_response c d its;
}
