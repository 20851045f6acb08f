-- ===== src/Meter/Transfer/Tests.antt =====
-- Objects of a small configuration.
use test.Prelude.{ℕ, ◌≡◌, ◌≢◌, ◌↔◌, refl, arith, List, [], ◌∷◌, none, false, inl, inr, length}
use test.Packet.Dlms47
use test.Security.{same_text}
use test.AsnParser.{text}
use test.AsnParser.Items.{Calendar}
use test.Meter.Apdu.Profile.{Tm}
use test.Meter.Handler.Data.{Attribute, value, missing, get_answer}
use test.Meter.Transfer.{Ambience}
use test.Meter.Transfer.Config.{
  Config, get_capture_object_list_by_obis, get_capture_period_by_obis, get_data_type,
}
use test.Meter.Transfer.Types.{get_ci_type}
use test.Meter.Transfer.Rows.{value_of, format_profile_data_attr_2}
use test.Meter.Transfer.Response.{
  format_get_normal_response, format_action_normal_response, objects,
}
use test.Meter.Transfer.Laws.{InSpan, rows-InSpan}
use test.Meter.Transfer.Served.{IsImageState, string_never_answered, status_shown}

abbrev clock : ℕ → Tm
clock t = record { year = 2017; mon = 1; mday = 1; wday = 0; hour = 0; min = 0; sec = 0 }

abbrev ambience : Ambience
ambience = record {
  rand = λ k. 0;
  now = 0;
  midnight = 0;
  next_day = λ t. t;
  localtime = clock;
  hex_decode = λ bs. [];
}

-- A profile of a quarter of an hour, and a register that is a string.
abbrev config : Config
config = record {
  profiles =
      record {
        obis = text "0100630100FF";
        period = 900;
        profile_type = text "load profile";
        v_objects = record { class_id = 8; obis = text "0000010000FF"; attr_id = 2 } ∷ [];
      }
      ∷ [];
  data_types =
      record {
        class_id = 3;
        obis = text "0000600100FF";
        attr_id = 2;
        data_type = text "OctetString";
      }
      ∷ [];
}

abbrev asked_for : ℕ → List ℕ → ℕ → Attribute
asked_for class obis attr = record {
  class_id = class;
  obis = obis;
  attr_id = attr;
  start_time = 0;
  end_time = 0;
}

period : get_capture_period_by_obis config (text "0100630100FF") ≡ 900
unfolding get_capture_period_by_obis same_text
period = refl

-- From 1000 to 4500 there are the rows of 1800, 2700, 3600 and 4500.
four_rows : length (format_profile_data_attr_2 ambience config (text "0100630100FF") 1000 4500) ≡ 4
unfolding format_profile_data_attr_2 get_capture_object_list_by_obis get_capture_period_by_obis
    same_text
four_rows = refl

rows-InSpan_example :
    InSpan 1000 4500 (format_profile_data_attr_2 ambience config (text "0100630100FF") 1000 4500)
rows-InSpan_example =
    rows-InSpan ambience config (text "0100630100FF") 1000 4500 (omega (arith, period))
      (omega arith) (omega arith) (omega arith)

abbrev the_clock : Attribute
the_clock = asked_for 8 (text "0000010000FF") 2

-- The clock is of a class that no object is served of.
clock_missing : format_get_normal_response ambience config the_clock 1 ≡ missing
unfolding format_get_normal_response test.Meter.Transfer.Types.get_obis_type
clock_missing = refl

abbrev midnight : Calendar → ℕ
midnight t = 0

abbrev the_string : Attribute
the_string = asked_for 3 (text "0000600100FF") 2

a_string : get_ci_type (get_data_type config 3 (text "0000600100FF") 2) ≡ 9
unfolding get_ci_type get_data_type same_text
a_string = refl

not_event : same_text (text "0000600100FF") (text "0000600B00FF") ≡ false
unfolding same_text
not_event = refl

string_never_answered_example :
    get_answer
      (objects (λ d. ambience) config)
      5
      midnight
      clock
      1
      (test.Packet.Dlms47.new 0)
      1
      the_string
    ≡ none
string_never_answered_example =
    string_never_answered (λ d. ambience) config the_string 5 midnight clock 1 1
      (test.Packet.Dlms47.new 0) (inr refl) not_event a_string

abbrev image : ℕ → Attribute
image attr = asked_for 18 (text "00002C0000FF") attr

-- The method 4, and the status.
status_shown_example :
    IsImageState (format_action_normal_response config (image 4) 1).1
    × (format_get_normal_response ambience config
          (image 6)
          (format_action_normal_response config (image 4) 1).1
        ≡ value (value_of 22 ((format_action_normal_response config (image 4) 1).1 ∷ [])))
    × ((format_action_normal_response config (image 4) 1).0 ≡ false
        → (format_action_normal_response config (image 4) 1).1 ≡ 1)
    × ((format_action_normal_response config (image 4) 1).0 ≡ false
        ↔ ((image 4).attr_id ≢ 1) × ((image 4).attr_id ≢ 3) × ((image 4).attr_id ≢ 4))
status_shown_example = status_shown ambience config (image 4) (image 6) 1 refl refl refl (inl refl)
