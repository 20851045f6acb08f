-- ===== src/Module/Time.antt =====
-- Time stamps of simulator_meter/common/ptcl_codec/ptcl_module.cpp: `bcd_to_time` and
-- `time_to_bcd` between the C library's `struct tm` and BCD bytes.
pub mod RoundTrip
pub mod Range
mod Tests
use test.Prelude.{
  ℕ, zero, suc, ◌+◌, ◌-◌, ◌*◌, ◌/◌, ◌%◌, ◌^◌, Option, none, some, Bool, true, false, ◌||◌, leb, ltb,
  ◌==◌, if◌then◌else◌,
}
use test.Prelude.Int.{ℤ, pos, negsuc, minus_one, ◌+ℤ◌, sub_ℕ, lt_int, to_u8}
use test.Memory.{Memory, store}
use test.Module.{bin_to_bcd, bcd_to_bin}

-- The fields of `struct tm` that the program uses.
pub record Tm : Type 0 where
  pub sec : ℤ
  pub min : ℤ
  pub hour : ℤ
  pub mday : ℤ
  pub mon : ℤ
  pub year : ℤ
  pub wday : ℤ

-- `time_type`; `unknown` is any other value of the `int` that the functions take.
pub data TimeType : Type 0 where
  ssmmhhddmmyy mmhhddmmyy ddmmyy mmhhddmm hhddmmyy mmyy hhddmm ssmmhhddwwmmyy mmhhdd : TimeType
  yymmddhhmmss yymmddhhmm yymmdd mmddhhmm mmddhhmmss unknown : TimeType

-- `len_parse` of the branch for the type, where `bcd_to_time` has one.
unfoldable pub len_parse : TimeType → Option ℕ
len_parse ssmmhhddmmyy = some 6
len_parse ssmmhhddwwmmyy = some 6
len_parse mmhhddmmyy = some 5
len_parse ddmmyy = some 3
len_parse mmhhddmm = some 4
len_parse hhddmmyy = some 4
len_parse mmyy = some 2
len_parse yymmddhhmmss = some 6
len_parse yymmddhhmm = some 5
len_parse yymmdd = some 3
len_parse mmddhhmm = some 4
len_parse hhddmm = some 3
len_parse mmhhdd = some 3
len_parse mmddhhmmss = none
len_parse unknown = none

-- One byte as a field; as `tm_mon`; as `tm_year`.
abbrev field : ℕ → ℤ
field b = pos (bcd_to_bin b)

abbrev month : ℕ → ℤ
month b = sub_ℕ (bcd_to_bin b) 1

abbrev year : ℕ → ℤ
year b = pos (100 + bcd_to_bin b)

-- The assignments of the branch for the type.
unfoldable pub read_fields : TimeType → Memory → Tm → Tm
read_fields ssmmhhddmmyy b t = record t {
  sec = field (b 0);
  min = field (b 1);
  hour = field (b 2);
  mday = field (b 3);
  mon = month (b 4);
  year = year (b 5);
}
read_fields ssmmhhddwwmmyy b t = record t {
  sec = field (b 0);
  min = field (b 1);
  hour = field (b 2);
  mday = field (b 3);
  mon = month (b 4 % 2 ^ 5);
  year = year (b 5);
}
read_fields mmhhddmmyy b t = record t {
  sec = pos 0;
  min = field (b 0);
  hour = field (b 1);
  mday = field (b 2);
  mon = month (b 3);
  year = year (b 4);
}
read_fields ddmmyy b t = record t {
  sec = pos 0;
  min = pos 0;
  hour = pos 0;
  mday = field (b 0);
  mon = month (b 1);
  year = year (b 2);
}
read_fields mmhhddmm b t = record t {
  sec = pos 0;
  min = field (b 0);
  hour = field (b 1);
  mday = field (b 2);
  mon = month (b 3);
  year = pos 114;
}
read_fields hhddmmyy b t = record t {
  sec = pos 0;
  min = pos 0;
  hour = field (b 0);
  mday = field (b 1);
  mon = month (b 2);
  year = year (b 3);
}
read_fields mmyy b t = record t {
  sec = pos 0;
  min = pos 0;
  hour = pos 0;
  mday = pos 1;
  mon = month (b 0);
  year = year (b 1);
}
read_fields yymmddhhmmss b t = record t {
  year = year (b 0);
  mon = month (b 1);
  mday = field (b 2);
  hour = field (b 3);
  min = field (b 4);
  sec = field (b 5);
}
read_fields yymmddhhmm b t = record t {
  year = year (b 0);
  mon = month (b 1);
  mday = field (b 2);
  hour = field (b 3);
  min = field (b 4);
  sec = pos 0;
}
read_fields yymmdd b t = record t {
  year = year (b 0);
  mon = month (b 1);
  mday = field (b 2);
  hour = pos 0;
  min = pos 0;
  sec = pos 0;
}
read_fields mmddhhmm b t = record t {
  year = pos 114;
  mon = month (b 0);
  mday = field (b 1);
  hour = field (b 2);
  min = field (b 3);
  sec = pos 0;
}
read_fields hhddmm b t = record t {
  year = pos 114;
  hour = field (b 0);
  mday = field (b 1);
  mon = month (b 2);
  min = pos 0;
  sec = pos 0;
}
read_fields mmhhdd b t = record t {
  year = pos 114;
  mon = pos 1;
  min = field (b 0);
  hour = field (b 1);
  mday = field (b 2);
  sec = pos 0;
}
read_fields mmddhhmmss b t = t
read_fields unknown b t = t

-- `if (v < lo || v > hi) v = fallback`
unfoldable pub clamp : ℕ → ℕ → ℕ → ℤ → ℤ
clamp lo hi fallback v = if lt_int v (pos lo) || lt_int (pos hi) v then pos fallback else v

unfoldable pub clamp_fields : Tm → Tm
clamp_fields t = record t {
  mon = clamp 0 11 0 t.mon;
  mday = clamp 1 31 1 t.mday;
  hour = clamp 0 23 0 t.hour;
  min = clamp 0 59 0 t.min;
  sec = clamp 0 59 0 t.sec;
}

-- The result is `len_parse`, 0 for a type without a branch. The pointers are `none` where NULL.
unfoldable pub bcd_to_time : Option Memory → ℤ → TimeType → Option Tm → ℤ × Option Tm
bcd_to_time none len type t = (pos 0, t)
bcd_to_time (some buf) len type none = (pos 0, none)
bcd_to_time (some buf) len type (some t) = elim (len_parse type) [
  | none ↦ (pos 0, some (clamp_fields t))
  | some n ↦
      if lt_int len (pos n)
      then (pos 0, some t)
      else (pos n, some (clamp_fields (read_fields type buf t)))
]

-- `z % 100` in C, whose sign is that of `z`.
abbrev rem_100 : ℤ → ℤ
rem_100 (pos n) = pos (n % 100)
rem_100 (negsuc n) = sub_ℕ 0 ((n + 1) % 100)

-- `bin_to_bcd` takes an `unsigned char`.
abbrev code : ℤ → ℕ
code v = bin_to_bcd (to_u8 v)

abbrev code_mon : Tm → ℕ
code_mon t = code (t.mon +ℤ pos 1)

abbrev code_year : Tm → ℕ
code_year t = code (rem_100 t.year)

-- The month and the day of the week in one byte; the day is the field itself, the variable `week` of
-- the source being unused.
abbrev code_week_mon : Tm → ℕ
code_week_mon t =
    let day = code t.wday * 2 ^ 5 in
    elim (t.mon +ℤ pos 1) [
      | pos m ↦ (m % 10 + m / 10 * 2 ^ 4 + day) % 2 ^ 8
      | negsuc m ↦ (day + 2 ^ 8 - ((m + 1) % 10 + (m + 1) / 10 * 2 ^ 4) % 2 ^ 8) % 2 ^ 8
    ]

store2 : ℕ → ℕ → Memory → Memory
store2 b0 b1 m = store (store m 0 b0) 1 b1

store3 : ℕ → ℕ → ℕ → Memory → Memory
unfolding store2
store3 b0 b1 b2 m = store (store2 b0 b1 m) 2 b2

store4 : ℕ → ℕ → ℕ → ℕ → Memory → Memory
unfolding store3
store4 b0 b1 b2 b3 m = store (store3 b0 b1 b2 m) 3 b3

store5 : ℕ → ℕ → ℕ → ℕ → ℕ → Memory → Memory
unfolding store4
store5 b0 b1 b2 b3 b4 m = store (store4 b0 b1 b2 b3 m) 4 b4

store6 : ℕ → ℕ → ℕ → ℕ → ℕ → ℕ → Memory → Memory
unfolding store5 store
store6 b0 b1 b2 b3 b4 b5 m = store (store5 b0 b1 b2 b3 b4 m) 5 b5

-- The branch for the type: `len_format` and what is written.
unfoldable pub write_fields : TimeType → Tm → Memory → ℤ × Memory
unfolding store6
write_fields ssmmhhddmmyy t b = (
  pos 6,
  store6 (code t.sec) (code t.min) (code t.hour) (code t.mday) (code_mon t) (code_year t) b,
)
write_fields mmhhddmmyy t b =
    (pos 5, store5 (code t.min) (code t.hour) (code t.mday) (code_mon t) (code_year t) b)
write_fields ddmmyy t b = (pos 3, store3 (code t.mday) (code_mon t) (code_year t) b)
write_fields mmhhddmm t b = (pos 4, store4 (code t.min) (code t.hour) (code t.mday) (code_mon t) b)
write_fields hhddmmyy t b = (pos 4, store4 (code t.hour) (code t.mday) (code_mon t) (code_year t) b)
write_fields mmyy t b = (pos 2, store2 (code_mon t) (code_year t) b)
write_fields ssmmhhddwwmmyy t b = (
  pos 6,
  store6 (code t.sec) (code t.min) (code t.hour) (code t.mday) (code_week_mon t) (code_year t) b,
)
write_fields yymmddhhmmss t b = (
  pos 6,
  store6 (code_year t) (code_mon t) (code t.mday) (code t.hour) (code t.min) (code t.sec) b,
)
write_fields yymmddhhmm t b =
    (pos 5, store5 (code_year t) (code_mon t) (code t.mday) (code t.hour) (code t.min) b)
write_fields yymmdd t b = (pos 3, store3 (code_year t) (code_mon t) (code t.mday) b)
write_fields mmddhhmm t b = (pos 4, store4 (code_mon t) (code t.mday) (code t.hour) (code t.min) b)
write_fields mmddhhmmss t b =
    (pos 5, store5 (code_mon t) (code t.mday) (code t.hour) (code t.min) (code t.sec) b)
write_fields hhddmm t b = (pos 0, b)
write_fields mmhhdd t b = (pos 0, b)
write_fields unknown t b = (pos 0, b)

unfoldable pub time_to_bcd : TimeType → Option Tm → Option Memory → ℤ × Option Memory
time_to_bcd type t none = (pos 0, none)
time_to_bcd type none (some buf) = (pos 0, some buf)
time_to_bcd type (some t) (some buf) =
    let (n, written) = write_fields type t buf in (n, some written)

-- The formats of the national protocol that are such time stamps.
unfoldable pub format_sg_15 : Option Tm → Option Memory → ℤ × Option Memory
unfolding time_to_bcd write_fields
format_sg_15 t buf = time_to_bcd mmhhddmmyy t buf

unfoldable pub format_sg_20 : Option Tm → Option Memory → ℤ × Option Memory
unfolding time_to_bcd write_fields
format_sg_20 t buf = time_to_bcd ddmmyy t buf

unfoldable pub format_sg_21 : Option Tm → Option Memory → ℤ × Option Memory
unfolding time_to_bcd write_fields
format_sg_21 t buf = time_to_bcd mmyy t buf

unfoldable pub parse_sg_15 : Option Memory → ℤ → Option Tm → ℤ × Option Tm
unfolding bcd_to_time
parse_sg_15 buf len t = bcd_to_time buf len mmhhddmmyy t

-- `buffer[len++] = m; buffer[len++] = n;` behind a stamp of `len` bytes, if there is one.
add_two : ℤ → ℤ → ℤ → Memory → ℤ × Memory
add_two (pos zero) m n b = (pos 0, b)
add_two (pos (suc k)) m n b =
    (pos (suc k + 2), store (store b (suc k) (to_u8 m)) (suc k + 1) (to_u8 n))
add_two (negsuc k) m n b = (pos 0, b)

unfoldable pub format_td_c : Option Tm → ℤ → ℤ → Option Memory → ℤ × Option Memory
unfolding format_sg_15 add_two
format_td_c t m n buf =
    let (len, written) = format_sg_15 t buf in
    elim written [
      | none ↦ (pos 0, none)
      | some b ↦ let (end, b') = add_two len m n b in (end, some b')
    ]

-- Two more bytes behind a stamp of `used` bytes, of the `len` bytes that the caller has.
read_two : Memory → ℤ → ℤ → Option Tm → Option (ℤ × Option Tm × ℕ × ℕ)
read_two b len (negsuc k) t = some (pos 0, t, 0, 0)
read_two b len (pos zero) t = some (pos 0, t, 0, 0)
read_two b len (pos (suc k)) t =
    if lt_int len (pos (suc k + 2))
    then none
    else some (pos (suc k + 2), t, b (suc k), b (suc k + 1))

-- The result, the time, and the values given to `m` and `n` (0 where the source leaves them alone).
-- `none`: a read behind the `len` bytes.
unfoldable pub parse_td_c : Option Memory → ℤ → Option Tm → Option (ℤ × Option Tm × ℕ × ℕ)
unfolding parse_sg_15 read_two
parse_td_c none len t = some (pos 0, t, 0, 0)
parse_td_c (some b) len t = let (used, t') = parse_sg_15 (some b) len t in read_two b len used t'
