-- ===== src/Meter/Transfer/Types.antt =====
-- simulator_meter/fee/meter_simulator/object_transfer.cpp: the kinds of objects, the types of their
-- values by name, and the codes of events.
use test.Prelude.{ℕ, ◌+◌, ◌%◌, List, [], ◌∷◌, ◌||◌, ◌&&◌, Bool, leb, ◌==◌, if◌then◌else◌}
use test.Security.{same_text}
use test.AsnParser.{Text, text}
use test.Meter.Transfer.Config.{Config, get_profile_type_by_obis}

pub data ObisType : Type 0 where
  ot_null : ObisType
  ot_event : ObisType
  ot_event_code : ObisType
  ot_profile : ObisType
  ot_register : ObisType
  ot_firmware : ObisType
  ot_disconnect_control : ObisType

unfoldable pub get_obis_type : Config → ℕ → Text → ObisType
get_obis_type c class obis =
    let kind = get_profile_type_by_obis c obis in
    if class == 7
    then if same_text kind (text "load profile")
      then ot_profile
      else if same_text kind (text "event profile")
      then ot_event
      else ot_null
    else if (class == 1) || (class == 3)
    then if same_text obis (text "0000600B00FF") then ot_event_code else ot_register
    else if class == 18
    then ot_firmware
    else if class == 70
    then ot_disconnect_control
    else ot_null

-- `isspace`
abbrev is_space : ℕ → Bool
is_space c = (c == 32) || (leb 9 c && leb c 13)

trim_left : Text → Text
trim_left [] = []
trim_left (c ∷ s) = let rest = trim_left s in if is_space c then rest else c ∷ s

-- A space goes where only spaces are behind it.
trim_right : Text → Text
trim_right [] = []
trim_right (c ∷ s) = elim (trim_right s) [
  | [] ↦ if is_space c then [] else c ∷ []
  | d ∷ rest ↦ c ∷ d ∷ rest
]

pub record Named : Type 0 where
  pub name : Text
  pub number : ℕ

abbrev named : Text → ℕ → Named
named s n = record { name = s; number = n }

-- The first one of the names that is the text.
first_named : Text → List Named → ℕ → ℕ
first_named s [] last = last
first_named s (n ∷ ns) last =
    let rest = first_named s ns last in if same_text s n.name then n.number else rest

abbrev type_names : List Named
type_names =
    named (text "NullData") 0
    ∷ named (text "Array") 1
    ∷ named (text "Structure") 2
    ∷ named (text "Boolean") 3
    ∷ named (text "BitString") 4
    ∷ named (text "DoubleLong") 5
    ∷ named (text "DoubleLongUnsigned") 6
    ∷ named (text "FloatingPoint") 7
    ∷ named (text "OctetString") 9
    ∷ named (text "VisibleString") 10
    ∷ named (text "Bcd") 13
    ∷ named (text "Integer") 15
    ∷ named (text "Long") 16
    ∷ named (text "Unsigned") 17
    ∷ named (text "LongUnsigned") 18
    ∷ named (text "Long64") 20
    ∷ named (text "Long64Unsigned") 21
    ∷ named (text "Enum") 22
    ∷ named (text "Float32") 23
    ∷ named (text "Float64") 24
    ∷ named (text "DateTime") 25
    ∷ named (text "Date") 26
    ∷ named (text "Time") 27
    ∷ named (text "DontCare") 255
    ∷ []

unfoldable pub get_ci_type : Text → ℕ
unfolding trim_left trim_right first_named
get_ci_type data_type = first_named (trim_right (trim_left data_type)) type_names 0

abbrev event_names : List Named
event_names =
    named (text "0000636201FF") 40
    ∷ named (text "0000636202FF") 59
    ∷ named (text "0000636204FF") 76
    ∷ named (text "0000636205FF") 119
    ∷ named (text "0000636207FF") 1
    ∷ named (text "0000636206FF") 26
    ∷ named (text "0000636203FF") 38
    ∷ named (text "0001180500FF") 30
    ∷ named (text "0002180500FF") 32
    ∷ named (text "0003180500FF") 34
    ∷ named (text "0004180500FF") 36
    ∷ named (text "0100636300FF") 951
    ∷ named (text "0100636208FF") 18
    ∷ []

abbrev pub is_standard_log : Text → Bool
is_standard_log obis = same_text obis (text "0000636200FF")

-- `rand` is the number that `rand()` gives, which is called for the standard log only.
unfoldable pub get_event_code : Text → ℕ → ℕ
unfolding first_named
get_event_code obis rand =
    if is_standard_log obis then 1 + rand % 25 else first_named obis event_names 255
