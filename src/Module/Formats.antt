-- ===== src/Module/Formats.antt =====
-- The formats of the national protocol in simulator_meter/common/ptcl_codec/ptcl_module.cpp that are
-- time stamps, the tags that begin with a meter's number, and the test for BCD bytes.
pub mod Digits
mod Tests
use test.Prelude.{
  ℕ, zero, suc, ◌+◌, ◌-◌, ◌*◌, ◌/◌, ◌%◌, ◌^◌, ◌≤◌, ◌<◌, ◌≡◌, refl, List, [], ◌∷◌, Option, none,
  some, Bool, true, false, ◌||◌, ◌&&◌, leb, ltb, ◌==◌, if◌then◌else◌, arith, Bool-cases, inl, inr,
  All, ◌⊎◌,
}
use test.Prelude.Int.{ℤ, pos, negsuc}
use test.Memory.{Memory, store, bytes}
use test.Module.{bin_to_bcd, bcd_to_bin}
use test.Module.Time.{
  Tm, TimeType, bcd_to_time, time_to_bcd, ssmmhhddwwmmyy, mmhhddmm, mmhhdd, ddmmyy, mmyy,
  format_sg_20, format_sg_21,
}

unfoldable pub parse_sg_1 : Option Memory → ℤ → Option Tm → ℤ × Option Tm
parse_sg_1 buf len t = bcd_to_time buf len ssmmhhddwwmmyy t

unfoldable pub parse_sg_17 : Option Memory → ℤ → Option Tm → ℤ × Option Tm
parse_sg_17 buf len t = bcd_to_time buf len mmhhddmm t

unfoldable pub parse_sg_18 : Option Memory → ℤ → Option Tm → ℤ × Option Tm
parse_sg_18 buf len t = bcd_to_time buf len mmhhdd t

unfoldable pub parse_sg_20 : Option Memory → ℤ → Option Tm → ℤ × Option Tm
parse_sg_20 buf len t = bcd_to_time buf len ddmmyy t

unfoldable pub parse_sg_21 : Option Memory → ℤ → Option Tm → ℤ × Option Tm
parse_sg_21 buf len t = bcd_to_time buf len mmyy t

unfoldable pub format_sg_31 : Option Tm → Option Memory → ℤ × Option Memory
format_sg_31 t buf = time_to_bcd ssmmhhddwwmmyy t buf

unfoldable pub format_td_d : Option Tm → Option Memory → ℤ × Option Memory
format_td_d t buf = format_sg_20 t buf

unfoldable pub parse_td_d : Option Memory → ℤ → Option Tm → ℤ × Option Tm
parse_td_d buf len t = parse_sg_20 buf len t

unfoldable pub format_td_m : Option Tm → Option Memory → ℤ × Option Memory
format_td_m t buf = format_sg_21 t buf

unfoldable pub parse_td_m : Option Memory → ℤ → Option Tm → ℤ × Option Tm
parse_td_m buf len t = parse_sg_21 buf len t

unfoldable pub format_td_time : Option Tm → Option Memory → ℤ × Option Memory
format_td_time t buf = format_sg_31 t buf

-- The loop over the copied bytes: 0xee, or two digits.
check_loop : List ℕ → Bool
check_loop [] = true
check_loop (b ∷ bs) =
    let b1 = b / 16 in
    let b0 = b % 16 in
    let rest = check_loop bs in
    if (b0 == 0x0e) && (b1 == 0x0e) then rest else if (ltb 9 b0) || (ltb 9 b1) then false else rest

-- `tmp` with its last byte moved up by `point` bits.
shift_last : ℕ → List ℕ → List ℕ
shift_last point [] = []
shift_last point (b ∷ []) = (b * 2 ^ point % 2 ^ 8) ∷ []
shift_last point (b ∷ c ∷ bs) = b ∷ shift_last point (c ∷ bs)

check_sized : List ℕ → ℕ → Option Bool
unfolding check_loop shift_last
check_sized tmp point =
    if ltb 8 point
    then some false
    else elim tmp [ [] ↦ none | b ∷ bs ↦ some (check_loop (shift_last point (b ∷ bs))) ]

-- `none`: more than 256 bytes, or a negative number of them, which `tmp` cannot take, or no byte,
-- where `tmp[-1]` is written.
unfoldable pub check_bcd : Memory → ℤ → ℕ → Option Bool
unfolding check_sized
check_bcd buffer (negsuc n) point = none
check_bcd buffer (pos n) point = if leb n 256 then check_sized (bytes buffer 0 n) point else none
