-- ===== src/Meter/Transfer/Rows.antt =====
-- simulator_meter/fee/meter_simulator/object_transfer.cpp: the rows of a profile.
use test.Prelude.{
  ℕ, zero, suc, ◌+◌, ◌-◌, ◌*◌, ◌/◌, ◌%◌, ◌^◌, List, [], ◌∷◌, ◌++◌, Option, none, some, Bool, ◌||◌,
  ◌&&◌, leb, ltb, ◌==◌, if◌then◌else◌, length, take, drop, replicate,
}
use test.Security.{same_text, word_bytes}
use test.AsnParser.{Text, text}
use test.Meter.Apdu.{DataResult}
use test.Meter.Apdu.Profile.{ProfileUnit}
use test.Meter.Transfer.{hex_to_bytes, Ambience}
use test.Meter.Transfer.Config.{
  Config, CaptureObject, get_capture_object_list_by_obis, get_capture_period_by_obis, get_data_type,
}
use test.Meter.Transfer.Types.{get_ci_type, get_event_code, is_standard_log}

abbrev pub value_of : ℕ → List ℕ → DataResult
value_of t bs = record { result_type = t; content = bs }

-- `int e_s = end_time - start_time`, where it is not negative.
abbrev pub span : ℕ → ℕ → Option ℕ
span start end = let d = (end + 2 ^ 32 - start) % 2 ^ 32 in if ltb d (2 ^ 31) then some d else none

-- The month, for a period of 43200, is behind the test for less than a day.
unfoldable pub get_next_period_time : Ambience → ℕ → ℕ → ℕ
get_next_period_time a start period =
    if start % period == 0
    then start
    else if ltb period 86400
    then (start / period * period + period) % 2 ^ 32
    else if period == 86400
    then a.next_day start % 2 ^ 32
    else start

-- The points of a span of time.
unfoldable pub points_of : Ambience → ℕ → ℕ → ℕ → ℕ → ℕ
points_of a period start end e_s =
    let whole = e_s / period in
    let day = if (whole == 0) && ((period == 86400) && ltb start a.midnight) then 1 else whole in
    let edge =
      if ((start % period == 0) || (end % period == 0)) && ltb period e_s then day + 1 else day in
    if leb 32 edge then 32 else edge

-- `out_start_time` and `points`, which the caller sets to 0.
unfoldable pub calc_points : Ambience → Config → Text → ℕ → ℕ → ℕ × ℕ
unfolding points_of get_next_period_time
calc_points a c obis start end =
    let period = get_capture_period_by_obis c obis in
    if period == 0 then (0, 0) else elim (span start end) [
      | none ↦ (0, 0)
      | some e_s ↦ (get_next_period_time a start period, points_of a period start end e_s)
    ]

-- The first object of a profile is the clock.
abbrev pub is_clock : CaptureObject → Bool
is_clock o = same_text o.obis (text "0000010000FF") && (o.class_id == 8)

-- Zeroes, for the objects behind the first one whose type has a length here.
unfoldable pub zero_values : Config → List CaptureObject → List DataResult
zero_values c [] = []
zero_values c (o ∷ os) =
    let t = get_ci_type (get_data_type c o.class_id o.obis o.attr_id) in
    let rest = zero_values c os in
    if t == 6
    then value_of 6 (replicate 4 0) ∷ rest
    else if t == 17
    then value_of 17 (0 ∷ []) ∷ rest
    else rest

-- The rows from number `i` on, `n` of them.
unfoldable pub data_rows : ℕ → ℕ → List DataResult → ℕ → ℕ → List ProfileUnit
data_rows start period vs i zero = []
data_rows start period vs i (suc n) =
    record { dt = (start + period * i) % 2 ^ 32; values = vs } ∷ data_rows start period vs (i + 1) n

-- In what follows no rows are the result `false`.
unfoldable pub format_profile_data_attr_2 : Ambience → Config → Text → ℕ → ℕ → List ProfileUnit
unfolding calc_points data_rows zero_values
format_profile_data_attr_2 a c obis start end = elim (get_capture_object_list_by_obis c obis) [
  | none ↦ []
  | some [] ↦ []
  | some (o ∷ os) ↦
      if is_clock o
      then data_rows (calc_points a c obis start end).0 (get_capture_period_by_obis c obis)
          (zero_values c os) 0 (calc_points a c obis start end).1
      else []
]

-- The name is written over the bytes of the class. A name of the configuration has at most 256 bytes.
object_bytes : Ambience → CaptureObject → List ℕ
unfolding hex_to_bytes
object_bytes a o =
    let front : List ℕ = o.class_id / 2 ^ 8 % 2 ^ 8 ∷ o.class_id % 2 ^ 8 ∷ 0 ∷ 0 ∷ 0 ∷ 0 ∷ [] in
    let bs = hex_to_bytes a o.obis in take 6 (bs ++ drop (length bs) front)

unfoldable pub object_rows : Ambience → List CaptureObject → List ProfileUnit
unfolding object_bytes
object_rows a [] = []
object_rows a (o ∷ os) =
    record {
      dt = 0;
      values =
          value_of 18 (o.class_id / 2 ^ 8 % 2 ^ 8 ∷ o.class_id % 2 ^ 8 ∷ [])
          ∷ value_of 9 (object_bytes a o)
          ∷ value_of 15 (o.attr_id % 2 ^ 8 ∷ [])
          ∷ value_of 18 (0 ∷ 0 ∷ [])
          ∷ [];
    }
    ∷ object_rows a os

unfoldable pub format_profile_attr_3 : Ambience → Config → Text → List ProfileUnit
unfolding object_rows
format_profile_attr_3 a c obis = elim (get_capture_object_list_by_obis c obis) [
  | none ↦ []
  | some os ↦ object_rows a os
]

unfoldable pub format_profile_attr_4 : Config → Text → DataResult
format_profile_attr_4 c obis = value_of 6 (word_bytes (get_capture_period_by_obis c obis))

-- The remainder of a number that is not negative by an `int` given by its bits; `none` is a division by 0.
abbrev pub rem_int : ℕ → ℕ → Option ℕ
rem_int n d =
    if d == 0 then none else if ltb d (2 ^ 31) then some (n % d) else some (n % (2 ^ 32 - d))

event_row : Text → ℕ → ℕ → ProfileUnit
event_row obis dt rand = record {
  dt = dt;
  values = value_of 22 (get_event_code obis rand % 2 ^ 8 ∷ []) ∷ [];
}

-- The rows for `n` points, with the draws from number `k` on.
event_rows : Ambience → Text → ℕ → ℕ → ℕ → ℕ → Option (List ProfileUnit)
unfolding event_row
event_rows a obis start range k zero = some []
event_rows a obis start range k (suc n) =
    let used = if is_standard_log obis then 2 else 1 in
    let rest = event_rows a obis start range (k + used) n in
    elim (rem_int (a.rand k) range) [
      | none ↦ none
      | some r ↦ elim rest [
        | none ↦ none
        | some us ↦ some (event_row obis ((r + start) % 2 ^ 32) (a.rand (k + 1)) ∷ us)
      ]
    ]

-- `none` is a division by 0.
unfoldable pub format_profile_event_attr_2 :
    Ambience → Config → Text → ℕ → ℕ → Option (List ProfileUnit)
unfolding event_rows
format_profile_event_attr_2 a c obis start end = elim (get_capture_object_list_by_obis c obis) [
  | none ↦ some []
  | some [] ↦ some []
  | some (o ∷ os) ↦
      if is_clock o
      then event_rows a obis start ((end + 2 ^ 32 - start + 1) % 2 ^ 32) 1 (1 + a.rand 0 % 2)
      else some []
]
