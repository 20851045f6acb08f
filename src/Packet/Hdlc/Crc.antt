-- ===== src/Packet/Hdlc/Crc.antt =====
-- The check sequence against the polynomial that it stands for.
use test.Prelude.{
  ℕ, zero, suc, ◌/◌, ◌%◌, ◌^◌, ◌<◌, ◌≡◌, refl, List, ◌==◌, if◌then◌else◌, bit_xor, get_or, arith,
}
use test.Prelude.Tables.{all_below, agree_below}
use test.Packet.Hdlc.{crc_tab, get_crc}

-- One bit of the division by the reflected polynomial 0x8408.
pub crc_bit : ℕ → ℕ
crc_bit v = if v % 2 == 1 then bit_xor (v / 2) 0x8408 else v / 2

pub crc_bits : ℕ → ℕ → ℕ
unfolding crc_bit
crc_bits zero v = v
crc_bits (suc n) v = crc_bits n (crc_bit v)

-- Entry `i` of the table is what eight such bits make of `i`.
pub crc_tab-eq-crc_bits : (i : ℕ) → i < 256 → get_or crc_tab i 0 ≡ crc_bits 8 i
unfolding all_below crc_bits
crc_tab-eq-crc_bits = agree_below 256 (λ i. get_or crc_tab i 0) (crc_bits 8) refl

pub get_crc-lt : (bs : List ℕ) → get_crc bs < 2 ^ 16
unfolding get_crc
get_crc-lt bs = omega arith
