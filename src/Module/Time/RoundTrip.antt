-- ===== src/Module/Time/RoundTrip.antt =====
-- A time stamp that `time_to_bcd` writes and `bcd_to_time` reads.
use test.Prelude.{ℕ, ◌+◌, ◌-◌, ◌*◌, ◌/◌, ◌%◌, ◌^◌, ◌≤◌, ◌<◌, ◌≡◌, refl, ap, some, arith}
use test.Prelude.Int.{pos, sub_ℕ}
use test.Memory.{Memory}
use test.Module.{bin_to_bcd, bcd_to_bin}
use test.Module.Bcd.{bcd_to_bin-bin_to_bcd}
use test.Module.Time.{
  Tm, TimeType, ssmmhhddmmyy, mmhhddmmyy, ddmmyy, mmhhddmm, hhddmmyy, mmyy, hhddmm, ssmmhhddwwmmyy,
  mmhhdd, yymmddhhmmss, yymmddhhmm, yymmdd, mmddhhmm, mmddhhmmss, unknown, len_parse, read_fields,
  clamp, clamp_fields, bcd_to_time, write_fields, time_to_bcd, format_td_c, parse_td_c,
}

-- A date of this century, given by natural numbers.
pub record Date : Type 0 where
  pub sec : ℕ
  pub min : ℕ
  pub hour : ℕ
  pub mday : ℕ
  pub mon : ℕ
  pub year : ℕ
  pub wday : ℕ

pub record IsDate (d : Date) : Type 0 where
  pub sec_in : d.sec ≤ 59
  pub min_in : d.min ≤ 59
  pub hour_in : d.hour ≤ 23
  pub mday_from : 1 ≤ d.mday
  pub mday_to : d.mday ≤ 31
  pub mon_in : d.mon ≤ 11
  pub year_from : 100 ≤ d.year
  pub year_to : d.year ≤ 199
  pub wday_in : d.wday ≤ 6

abbrev pub tm_of : Date → Tm
tm_of d = record {
  sec = pos d.sec;
  min = pos d.min;
  hour = pos d.hour;
  mday = pos d.mday;
  mon = pos d.mon;
  year = pos d.year;
  wday = pos d.wday;
}

-- What a stamp of a type carries over: the other fields are filled in, and the day of the week is
-- left as it was.
pub carried : TimeType → Date → Tm → Tm
carried ssmmhhddmmyy d t = record (tm_of d) { wday = t.wday }
carried ssmmhhddwwmmyy d t = record (tm_of d) { wday = t.wday }
carried yymmddhhmmss d t = record (tm_of d) { wday = t.wday }
carried mmhhddmmyy d t = record (tm_of d) { sec = pos 0; wday = t.wday }
carried yymmddhhmm d t = record (tm_of d) { sec = pos 0; wday = t.wday }
carried hhddmmyy d t = record (tm_of d) { sec = pos 0; min = pos 0; wday = t.wday }
carried ddmmyy d t = record (tm_of d) { sec = pos 0; min = pos 0; hour = pos 0; wday = t.wday }
carried yymmdd d t = record (tm_of d) { sec = pos 0; min = pos 0; hour = pos 0; wday = t.wday }
carried mmyy d t = record (tm_of d) {
  sec = pos 0;
  min = pos 0;
  hour = pos 0;
  mday = pos 1;
  wday = t.wday;
}
carried mmhhddmm d t = record (tm_of d) { sec = pos 0; year = pos 114; wday = t.wday }
carried mmddhhmm d t = record (tm_of d) { sec = pos 0; year = pos 114; wday = t.wday }
carried _ d t = clamp_fields t

-- One field, coded, decoded and clamped.
field_read_back :
    (lo hi fallback n : ℕ)
    → lo ≤ n
    → n ≤ hi
    → hi ≤ 99
    → clamp lo hi fallback (pos (bcd_to_bin (bin_to_bcd (n % 2 ^ 8)))) ≡ pos n
unfolding clamp
field_read_back lo hi fallback n a b c =
    let e : n % 2 ^ 8 ≡ n = omega arith in
    rw (e, (bcd_to_bin-bin_to_bcd n (omega arith)).0) (ground arith)

month_read_back :
    (n : ℕ) → n ≤ 11 → clamp 0 11 0 (sub_ℕ (bcd_to_bin (bin_to_bcd ((n + 1) % 2 ^ 8))) 1) ≡ pos n
unfolding clamp
month_read_back n h =
    let e : (n + 1) % 2 ^ 8 ≡ n + 1 = omega arith in
    rw (e, (bcd_to_bin-bin_to_bcd (n + 1) (omega arith)).0) (ground arith)

year_read_back :
    (y : ℕ) → 100 ≤ y → y ≤ 199 → pos (100 + bcd_to_bin (bin_to_bcd (y % 100 % 2 ^ 8))) ≡ pos y
year_read_back y a b =
    let e : y % 100 % 2 ^ 8 ≡ y - 100 = omega arith in
    rw (e, (bcd_to_bin-bin_to_bcd (y - 100) (omega arith)).0) (ap pos (omega arith))

-- The month shares its byte with the day of the week.
month_of_week :
    (n w : ℕ)
    → n ≤ 11
    → w ≤ 6
    → clamp 0 11 0 (
        sub_ℕ
          (bcd_to_bin (
            ((n + 1) % 10 + (n + 1) / 10 * 2 ^ 4 + bin_to_bcd (w % 2 ^ 8) * 2 ^ 5) % 2 ^ 8 % 2 ^ 5))
          1)
      ≡ pos n
month_of_week n w a b =
    let e : ((n + 1) % 10 + (n + 1) / 10 * 2 ^ 4 + bin_to_bcd (w % 2 ^ 8) * 2 ^ 5) % 2 ^ 8 % 2 ^ 5
        ≡ bin_to_bcd ((n + 1) % 2 ^ 8) =
      unfold bin_to_bcd in ground arith in
    rw e (month_read_back n a)

-- What a type does not carry is in range.
zero_60 : clamp 0 59 0 (pos 0) ≡ pos 0
unfolding clamp
zero_60 = refl

zero_24 : clamp 0 23 0 (pos 0) ≡ pos 0
unfolding clamp
zero_24 = refl

one_31 : clamp 1 31 1 (pos 1) ≡ pos 1
unfolding clamp
one_31 = refl

module _ (d : Date) (v : IsDate d) where
  sec_back : clamp 0 59 0 (pos (bcd_to_bin (bin_to_bcd (d.sec % 2 ^ 8)))) ≡ pos d.sec
  sec_back = field_read_back 0 59 0 d.sec (omega arith) v.sec_in (omega arith)

  min_back : clamp 0 59 0 (pos (bcd_to_bin (bin_to_bcd (d.min % 2 ^ 8)))) ≡ pos d.min
  min_back = field_read_back 0 59 0 d.min (omega arith) v.min_in (omega arith)

  hour_back : clamp 0 23 0 (pos (bcd_to_bin (bin_to_bcd (d.hour % 2 ^ 8)))) ≡ pos d.hour
  hour_back = field_read_back 0 23 0 d.hour (omega arith) v.hour_in (omega arith)

  mday_back : clamp 1 31 1 (pos (bcd_to_bin (bin_to_bcd (d.mday % 2 ^ 8)))) ≡ pos d.mday
  mday_back = field_read_back 1 31 1 d.mday v.mday_from v.mday_to (omega arith)

-- The types that both functions have a branch for.
abbrev pub IsTwoWay : TimeType → Type 0
IsTwoWay hhddmm = ⊥
IsTwoWay mmhhdd = ⊥
IsTwoWay mmddhhmmss = ⊥
IsTwoWay unknown = ⊥
IsTwoWay _ = Unit

module _ (d : Date) (v : IsDate d) (t : Tm) (m : Memory) where
  fields_read_back :
      (type : TimeType)
      → IsTwoWay type
      → clamp_fields (read_fields type (write_fields type (tm_of d) m).1 t) ≡ carried type d t
  unfolding clamp_fields read_fields write_fields carried
  fields_read_back hhddmm h = absurd h
  fields_read_back mmhhdd h = absurd h
  fields_read_back mmddhhmmss h = absurd h
  fields_read_back unknown h = absurd h
  fields_read_back ssmmhhddwwmmyy h = simp (
    sec_back d v,
    min_back d v,
    hour_back d v,
    mday_back d v,
    month_of_week d.mon d.wday v.mon_in v.wday_in,
    year_read_back d.year v.year_from v.year_to,
  )
  fields_read_back _ h = simp (
    zero_60,
    zero_24,
    one_31,
    sec_back d v,
    min_back d v,
    hour_back d v,
    mday_back d v,
    month_read_back d.mon v.mon_in,
    year_read_back d.year v.year_from v.year_to,
  )

-- For each of the eleven types that both functions know, the bytes that `time_to_bcd` writes for a
-- date of the years 2000 to 2099 are read by `bcd_to_time` as that date, less the fields that the
-- type does not carry. It reads as many bytes as were written, and leaves `tm_wday` alone.
pub bcd_to_time-time_to_bcd :
    (d : Date) (t : Tm) (m : Memory) (type : TimeType)
    → IsDate d
    → IsTwoWay type
    → let (n, written) = time_to_bcd type (some (tm_of d)) (some m) in
      bcd_to_time written n type (some t) ≡ (n, some (carried type d t))
unfolding bcd_to_time time_to_bcd len_parse write_fields
bcd_to_time-time_to_bcd d t m hhddmm v h = absurd h
bcd_to_time-time_to_bcd d t m mmhhdd v h = absurd h
bcd_to_time-time_to_bcd d t m mmddhhmmss v h = absurd h
bcd_to_time-time_to_bcd d t m unknown v h = absurd h
bcd_to_time-time_to_bcd d t m type v h =
    ap (λ r. ((write_fields type (tm_of d) m).0, some r)) (fields_read_back d v t m type h)

-- A stamp with two more bytes: what `format_td_c` writes for a date and two bytes, `parse_td_c`
-- reads as the date without its seconds and the two bytes, seven bytes in all.
pub parse_td_c-format_td_c :
    (d : Date) (t : Tm) (buf : Memory) (m n : ℕ)
    → IsDate d
    → m < 2 ^ 8
    → n < 2 ^ 8
    → let (len, written) = format_td_c (some (tm_of d)) (pos m) (pos n) (some buf) in
      (len ≡ pos 7)
      × (parse_td_c written len (some t) ≡ some (pos 7, some (carried mmhhddmmyy d t), m, n))
unfolding format_td_c parse_td_c len_parse read_fields
parse_td_c-format_td_c d t buf m n v hm hn =
    let e = fields_read_back d v t buf mmhhddmmyy tt in
    let f : m % 2 ^ 8 ≡ m = omega arith in
    let g : n % 2 ^ 8 ≡ n = omega arith in
    (refl, rw (f, g) (ap (λ r. some (pos 7, some r, m, n)) e))
