-- ===== src/Module/Tests.antt =====
-- Counters and decimals with concrete values.
use test.Prelude.{◌^◌, ◌<◌, ◌≡◌, refl, [], ◌∷◌, none, some, false, arith}
use test.Prelude.Int.{pos}
use test.Memory.{Memory, copy_to, zeroes}
use test.Module.{Module, lookup, bin_to_bcd, bcd_to_bin, bcd_to_int, is_invalid_data}
use test.Module.Bcd.{bcd_to_bin-bin_to_bcd}

abbrev counters : Module
counters = record { host_id = 1; map_seq = (5, 126) ∷ (9, 3) ∷ [] }

lookup_seven : lookup 7 counters.map_seq ≡ none
unfolding lookup
lookup_seven = refl

-- The example of the header: 0x12 0x34 0x56 0x78 is 78563412.
abbrev four : Memory
four = copy_to zeroes 0 (0x12 ∷ 0x34 ∷ 0x56 ∷ 0x78 ∷ [])

four_value : bcd_to_int (some four) (pos 4) 0xff ≡ pos 78563412
unfolding bcd_to_int is_invalid_data bcd_to_bin copy_to
four_value = refl

four_valid : is_invalid_data four (pos 4) 0xff ≡ false
unfolding is_invalid_data copy_to
four_valid = refl

bcd_to_bin-bin_to_bcd_example : (bcd_to_bin (bin_to_bcd 45) ≡ 45) × (bin_to_bcd 45 < 2 ^ 8)
bcd_to_bin-bin_to_bcd_example = bcd_to_bin-bin_to_bcd 45 (omega arith)
