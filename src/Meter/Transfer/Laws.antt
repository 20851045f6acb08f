-- ===== src/Meter/Transfer/Laws.antt =====
-- simulator_meter/fee/meter_simulator/object_transfer.cpp: the times of the rows of a load profile, and
-- what the meter answers for its objects.
use test.Prelude.{
  ℕ, zero, suc, ◌+◌, ◌-◌, ◌*◌, ◌%◌, ◌^◌, ◌≤◌, ◌<◌, ◌≡◌, refl, ap, arith, List, [], ◌∷◌, All, some,
  true, ltb, ◌==◌, length, inl, inr, Option-cases, Bool-cases,
}
use native.Mathlib.Nat.{mod-eq_of_lt}
use test.Meter.Transfer.Span.{first_inside, last_inside, points_at_most}
use test.Meter.Transfer.{Ambience}
use test.AsnParser.{Text}
use test.Meter.Apdu.{DataResult}
use test.Meter.Apdu.Profile.{ProfileUnit}
use test.Meter.Transfer.Config.{
  Config, CaptureObject, get_capture_period_by_obis, get_capture_object_list_by_obis,
}
use test.Meter.Transfer.Rows.{
  points_of, get_next_period_time, data_rows, span, calc_points, is_clock, zero_values,
  format_profile_data_attr_2,
}

data_rows-All :
    (P : ℕ → Type 0) (s p : ℕ) (vs : List DataResult) (i n : ℕ)
    → ((j : ℕ) → j < i + n → P ((s + p * j) % 2 ^ 32))
    → All (λ u. P u.dt) (data_rows s p vs i n)
unfolding data_rows
data_rows-All P s p vs i zero h = tt
data_rows-All P s p vs i (suc n) h =
    (h i (omega arith), data_rows-All P s p vs (i + 1) n (λ j l. h j (omega arith)))

length-data_rows : (s p : ℕ) (vs : List DataResult) (i n : ℕ) → length (data_rows s p vs i n) ≡ n
unfolding data_rows
length-data_rows s p vs i zero = refl
length-data_rows s p vs i (suc n) = ap suc (length-data_rows s p vs (i + 1) n)

-- Rows in a span of time, and no more than 32.
abbrev pub InSpan : ℕ → ℕ → List ProfileUnit → Type 0
InSpan start end us = All (λ u. (start ≤ u.dt) × (u.dt ≤ end)) us × (length us ≤ 32)

span-some :
    (start end : ℕ)
    → start ≤ end
    → end < 2 ^ 32
    → end - start < 2 ^ 31
    → span start end ≡ some (end - start)
span-some start end h k l =
    let e : (end + 2 ^ 32 - start) % 2 ^ 32 ≡ end - start = omega arith in
    let t : ltb (end - start) (2 ^ 31) ≡ true = ground arith in rw (e, t) refl

points-InSpan :
    (a : Ambience) (c : Config) (obis : Text) (vs : List DataResult) (start end : ℕ)
    → get_capture_period_by_obis c obis < 86400
    → start ≤ end
    → end + 86400 < 2 ^ 32
    → end - start < 2 ^ 31
    → InSpan start end (
        data_rows
          (calc_points a c obis start end).0
          (get_capture_period_by_obis c obis)
          vs
          0
          (calc_points a c obis start end).1)
unfolding calc_points data_rows
points-InSpan a c obis vs start end short ordered room near =
    let p = get_capture_period_by_obis c obis in
    let sp = span-some start end ordered (omega arith) near in
    elim (Bool-cases (p == 0)) [
      | inl e ↦ rw (e) (tt, omega arith)
      | inr e ↦
          rw (e, sp)
            (
              data_rows-All (λ t. (start ≤ t) × (t ≤ end)) (get_next_period_time a start p) p vs 0
                  (points_of a p start end (end - start))
                  (λ j l.
                    let lo =
                      first_inside a p start end j (ground arith) short ordered (omega arith)
                        (omega (arith, l)) in
                    let hi =
                      last_inside a p start end j (ground arith) short ordered (omega arith)
                        (omega (arith, l)) in
                    let w : (get_next_period_time a start p + p * j) % 2 ^ 32
                        ≡ get_next_period_time a start p + p * j =
                      mod-eq_of_lt (omega arith) in
                    rw (w) (lo, hi)),
              omega (
                arith,
                length-data_rows (get_next_period_time a start p) p vs 0
                    (points_of a p start end (end - start)),
                points_at_most a p start end (end - start),
              ),
            )
    ]

objects-InSpan :
    (a : Ambience) (c : Config) (obis : Text) (os : List CaptureObject) (start end : ℕ)
    → get_capture_object_list_by_obis c obis ≡ some os
    → get_capture_period_by_obis c obis < 86400
    → start ≤ end
    → end + 86400 < 2 ^ 32
    → end - start < 2 ^ 31
    → InSpan start end (format_profile_data_attr_2 a c obis start end)
unfolding format_profile_data_attr_2
objects-InSpan a c obis [] start end e short ordered room near =
    rw (e, format_profile_data_attr_2) (tt, omega arith)
objects-InSpan a c obis (o ∷ os) start end e short ordered room near =
    elim (Bool-cases (is_clock o)) [
      | inl b ↦
          rw (e, b, format_profile_data_attr_2)
            (points-InSpan a c obis (zero_values c os) start end short ordered room near)
      | inr b ↦ rw (e, b, format_profile_data_attr_2) (tt, omega arith)
    ]

-- The rows of a load profile with a period of less than a day, for a span of less than 2 ^ 31 seconds that
-- ends a day before the last second of 32 bits: their times lie in the span, and they are 32 at most.
pub rows-InSpan :
    (a : Ambience) (c : Config) (obis : Text) (start end : ℕ)
    → get_capture_period_by_obis c obis < 86400
    → start ≤ end
    → end + 86400 < 2 ^ 32
    → end - start < 2 ^ 31
    → InSpan start end (format_profile_data_attr_2 a c obis start end)
unfolding format_profile_data_attr_2
rows-InSpan a c obis start end short ordered room near =
    elim (Option-cases (get_capture_object_list_by_obis c obis)) [
      | inl e ↦ rw (e, format_profile_data_attr_2) (tt, omega arith)
      | inr (os, e) ↦ objects-InSpan a c obis os start end e short ordered room near
    ]
