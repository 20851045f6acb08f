-- ===== src/Module/Formats/Tests.antt =====
-- BCD tests with concrete bytes.
use test.Prelude.{◌^◌, ◌<◌, ◌≡◌, refl, [], ◌∷◌, none, some, true, false, arith, All}
use test.Prelude.Int.{pos}
use test.Memory.{Memory, zeroes, copy_to, bytes}
use test.Module.Formats.{check_bcd}
use test.Module.Formats.Digits.{IsBcd, check_bcd_lem}

abbrev stamp : Memory
stamp = copy_to zeroes 0 (0x59 ∷ 0xee ∷ 0x23 ∷ [])

check_stamp : check_bcd stamp (pos 3) 0 ≡ some true
unfolding check_bcd bytes copy_to
check_stamp = refl

check_shifted : check_bcd stamp (pos 3) 2 ≡ some false
unfolding check_bcd bytes copy_to
check_shifted = refl

check_empty : check_bcd stamp (pos 0) 0 ≡ none
unfolding check_bcd bytes
check_empty = refl

stamp_in_range : All (λ b. b < 2 ^ 8) (bytes stamp 0 3)
unfolding bytes copy_to
stamp_in_range = (omega arith, (omega arith, (omega arith, tt)))

check_bcd_lem_example :
    (check_bcd stamp (pos 3) 0 ≡ some true → All IsBcd (bytes stamp 0 3))
    × (All IsBcd (bytes stamp 0 3) → check_bcd stamp (pos 3) 0 ≡ some true)
check_bcd_lem_example = check_bcd_lem stamp 3 (omega arith) (omega arith) stamp_in_range
