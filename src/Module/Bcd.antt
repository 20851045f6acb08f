-- ===== src/Module/Bcd.antt =====
-- Binary-coded decimals: one byte, and a number of up to four bytes.
use test.Prelude.{ℕ, zero, suc, ◌+◌, ◌*◌, ◌^◌, ◌≤◌, ◌<◌, ◌≡◌, some, false, arith}
use test.Prelude.Int.{pos}
use test.Memory.{Memory}
use test.Module.{bin_to_bcd, bcd_to_bin, bcd_to_int, is_invalid_data}

-- A number of two digits, coded and decoded, is itself; its code is a byte.
pub bcd_to_bin-bin_to_bcd :
    (n : ℕ) → n ≤ 99 → (bcd_to_bin (bin_to_bcd n) ≡ n) × (bin_to_bcd n < 2 ^ 8)
unfolding bcd_to_bin bin_to_bcd
bcd_to_bin-bin_to_bcd n h = ground arith

pub bcd_to_bin-le : (b : ℕ) → bcd_to_bin b ≤ 99
unfolding bcd_to_bin
bcd_to_bin-le b = ground arith

-- The number that the bytes stand for, lowest two digits first.
pub decimal : Memory → ℕ → ℕ
decimal buf zero = 0
decimal buf (suc n) = decimal buf n + bcd_to_bin (buf n) * 100 ^ n

-- For at most four bytes of which none is marked invalid, the code's 32-bit arithmetic gives that
-- number, which is below 100 to the number of the bytes.
pub bcd_to_int_lem :
    (buf : Memory) (n invalid : ℕ)
    → n ≤ 4
    → is_invalid_data buf (pos n) invalid ≡ false
    → (bcd_to_int (some buf) (pos n) invalid ≡ pos (decimal buf n)) × (decimal buf n < 100 ^ n)
unfolding bcd_to_int decimal
bcd_to_int_lem buf zero invalid h e = (ground arith, omega arith)
bcd_to_int_lem buf (suc zero) invalid h e =
    let b0 = bcd_to_bin-le (buf 0) in (ground arith, omega arith)
bcd_to_int_lem buf (suc (suc zero)) invalid h e =
    let b0 = bcd_to_bin-le (buf 0) in let b1 = bcd_to_bin-le (buf 1) in (ground arith, omega arith)
bcd_to_int_lem buf (suc (suc (suc zero))) invalid h e =
    let b0 = bcd_to_bin-le (buf 0) in
    let b1 = bcd_to_bin-le (buf 1) in let b2 = bcd_to_bin-le (buf 2) in (ground arith, omega arith)
bcd_to_int_lem buf (suc (suc (suc (suc zero)))) invalid h e =
    let b0 = bcd_to_bin-le (buf 0) in
    let b1 = bcd_to_bin-le (buf 1) in
    let b2 = bcd_to_bin-le (buf 2) in let b3 = bcd_to_bin-le (buf 3) in (ground arith, omega arith)
bcd_to_int_lem buf (suc (suc (suc (suc (suc n))))) invalid h e = absurd (omega arith)
