-- ===== src/Meter/Transfer/Config.antt =====
-- simulator_meter/fee/meter_simulator/simulator_config.cpp: the tables that the configuration file
-- fills, each with its entries in the order of their insertion: of two with one key the first one stays.
-- A period is below 2 ^ 31.
use test.Prelude.{ℕ, List, [], ◌∷◌, Option, none, some, ◌&&◌, ◌==◌, if◌then◌else◌}
use test.Security.{same_text}
use test.AsnParser.{Text}

pub record CaptureObject : Type 0 where
  pub class_id : ℕ
  pub obis : Text
  pub attr_id : ℕ

-- `profile`
pub record ProfileEntry : Type 0 where
  pub obis : Text
  pub period : ℕ
  pub profile_type : Text
  pub v_objects : List CaptureObject

-- An entry of `map_object_data_type_`, the key with the value.
pub record TypeEntry : Type 0 where
  pub class_id : ℕ
  pub obis : Text
  pub attr_id : ℕ
  pub data_type : Text

pub record Config : Type 0 where
  pub profiles : List ProfileEntry
  pub data_types : List TypeEntry

find_profile : Text → List ProfileEntry → Option ProfileEntry
find_profile obis [] = none
find_profile obis (p ∷ ps) =
    let rest = find_profile obis ps in if same_text p.obis obis then some p else rest

unfoldable pub get_capture_object_list_by_obis : Config → Text → Option (List CaptureObject)
unfolding find_profile
get_capture_object_list_by_obis c obis = elim (find_profile obis c.profiles) [
  | none ↦ none
  | some p ↦ some p.v_objects
]

unfoldable pub get_capture_period_by_obis : Config → Text → ℕ
unfolding find_profile
get_capture_period_by_obis c obis = elim (find_profile obis c.profiles) [
  | none ↦ 0
  | some p ↦ p.period
]

unfoldable pub get_profile_type_by_obis : Config → Text → Text
unfolding find_profile
get_profile_type_by_obis c obis = elim (find_profile obis c.profiles) [
  | none ↦ []
  | some p ↦ p.profile_type
]

find_type : ℕ → Text → ℕ → List TypeEntry → Text
find_type class obis attr [] = []
find_type class obis attr (t ∷ ts) =
    let rest = find_type class obis attr ts in
    if (t.class_id == class) && (same_text t.obis obis && (t.attr_id == attr))
    then t.data_type
    else rest

unfoldable pub get_data_type : Config → ℕ → Text → ℕ → Text
unfolding find_type
get_data_type c class obis attr = find_type class obis attr c.data_types
