-- ===== src/AsnParser/Block.antt =====
-- simulator_meter/common/ptcl_codec/ptcl_cosem_dlms.cpp: `parse_block` and `parse_block_loop` of
-- ptcl_cosem_block.
use test.Prelude.{ℕ, zero, suc, ◌+◌, [], Option, none, some, ltb, if◌then◌else◌}
use test.Prelude.Int.{ℤ, pos, negsuc, sub_ℕ, minus_one}
use test.Memory.{Memory}
use test.AsnParser.{AsnType}
use test.AsnParser.Parse.{ResultSet, Parsed, parsed, failed, faulted, out_of_fuel, parse}

-- The number that `parse_buf` returns, with the results; `none` where the process does not go on.
unfoldable pub returned : ℕ → Parsed → Option (ℤ × ResultSet)
returned at (parsed end rs) = some (sub_ℕ end at, rs)
returned at (failed rs) = some (minus_one, rs)
returned at faulted = none
returned at out_of_fuel = none

module _ (fuel : ℕ) (m : Memory) (fin : ℕ) where
  unfoldable pub parse_block : AsnType → ℕ → ResultSet → Option (ℤ × ResultSet)
  unfolding returned
  parse_block t at rs = returned at (parse fuel m fin t [] at rs)

  -- The place where the loop stops. A round takes at least one byte: `fin` less `at` rounds are enough.
  unfoldable pub parse_block_loop : ℕ → AsnType → ℕ → ResultSet → Option (ℕ × ResultSet)
  unfolding parse_block
  parse_block_loop zero t at rs = some (at, rs)
  parse_block_loop (suc k) t at rs =
      if ltb at fin
      then elim (parse_block t at rs) [
        | none ↦ none
        | some (negsuc n, found) ↦ some (at, found)
        | some (pos zero, found) ↦ some (at, found)
        | some (pos (suc n), found) ↦ parse_block_loop k t (at + suc n) found
      ]
      else some (at, rs)
