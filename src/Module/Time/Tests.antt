-- ===== src/Module/Time/Tests.antt =====
-- Time stamps with concrete bytes.
use test.Prelude.{◌≡◌, refl, [], ◌∷◌, some, arith}
use test.Prelude.Int.{pos}
use test.Memory.{Memory, zeroes, bytes}
use test.Module.{bin_to_bcd}
use test.Module.Time.{
  Tm, ddmmyy, ssmmhhddwwmmyy, mmddhhmmss, time_to_bcd, bcd_to_time, len_parse, read_fields,
  clamp_fields, clamp, write_fields,
}
use test.Module.Time.RoundTrip.{Date, IsDate, tm_of, carried, bcd_to_time-time_to_bcd}
use test.Module.Time.Range.{InRange, bcd_to_time-InRange}

-- 2024-11-30 23:59:58, a Saturday.
abbrev evening : Date
evening = record { sec = 58; min = 59; hour = 23; mday = 30; mon = 10; year = 124; wday = 6 }

abbrev before : Tm
before = record {
  sec = pos 1;
  min = pos 1;
  hour = pos 1;
  mday = pos 1;
  mon = pos 1;
  year = pos 100;
  wday = pos 3;
}

written_evening :
    (bytes (write_fields ssmmhhddwwmmyy (tm_of evening) zeroes).1 0 6)
    ≡ 0x58 ∷ 0x59 ∷ 0x23 ∷ 0x30 ∷ 0xd1 ∷ 0x24 ∷ []
unfolding write_fields bytes bin_to_bcd
written_evening = refl

-- A Sunday is written as day 0, not as day 7.
written_sunday :
    (bytes (write_fields ssmmhhddwwmmyy (tm_of (record evening { wday = 0 })) zeroes).1 4 1)
    ≡ 0x11 ∷ []
unfolding write_fields bytes bin_to_bcd
written_sunday = refl

-- A stamp that can be written and not read.
one_way : bcd_to_time (some zeroes) (pos 5) mmddhhmmss (some before) ≡ (pos 0, some before)
unfolding bcd_to_time len_parse clamp_fields clamp
one_way = refl

evening-IsDate : IsDate evening
evening-IsDate = omega arith

bcd_to_time-time_to_bcd_example :
    let (n, written) = time_to_bcd ddmmyy (some (tm_of evening)) (some zeroes) in
    bcd_to_time written n ddmmyy (some before) ≡ (n, some (carried ddmmyy evening before))
bcd_to_time-time_to_bcd_example =
    bcd_to_time-time_to_bcd evening before zeroes ddmmyy evening-IsDate tt

-- Bytes that are no decimals.
abbrev nonsense : Memory
nonsense = λ i. 0xff

nonsense_time : Tm
nonsense_time = clamp_fields (read_fields ddmmyy nonsense before)

nonsense_read :
    bcd_to_time (some nonsense) (pos 3) ddmmyy (some before) ≡ (pos 3, some nonsense_time)
unfolding bcd_to_time len_parse nonsense_time
nonsense_read = refl

bcd_to_time-InRange_example : InRange nonsense_time
bcd_to_time-InRange_example =
    bcd_to_time-InRange nonsense (pos 3) ddmmyy before nonsense_time 2 nonsense_read
