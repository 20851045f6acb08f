-- ===== src/Module.antt =====
-- simulator_meter/common/ptcl_codec/ptcl_module.cpp and include/ptcl_codec/ptcl_module.h: what the
-- protocol modules share. Here: the frame counters of each address, and binary-coded decimals; the
-- child Time has the time stamps. The conversions to `double` are not modelled.
pub mod Counter
pub mod Bcd
pub mod Time
pub mod Formats
pub mod Hdlc
mod Tests
use test.Prelude.{
  ℕ, zero, suc, ◌+◌, ◌-◌, ◌*◌, ◌/◌, ◌%◌, ◌^◌, List, [], ◌∷◌, Option, none, some, Bool, true, false,
  ◌||◌, leb, ltb, ◌==◌, if◌then◌else◌,
}
use test.Prelude.Int.{ℤ, pos, negsuc, lt_int}
use test.Memory.{Memory}

-- `map_seq_`, a hash map from addresses to counters, as an association list.
pub record Module : Type 0 where
  pub host_id : ℕ
  pub map_seq : List (ℕ × ℕ)

unfoldable pub new : Module
new = record { host_id = 0; map_seq = [] }

abbrev pub set_host_id : ℕ → Module → Module
set_host_id id m = record m { host_id = id }

abbrev pub get_host_id : Module → ℕ
get_host_id m = m.host_id

unfoldable pub lookup : ℕ → List (ℕ × ℕ) → Option ℕ
lookup addr [] = none
lookup addr ((a, s) ∷ rest) = if a == addr then some s else lookup addr rest

-- `map_seq_[addr] = seq`
unfoldable pub insert : ℕ → ℕ → List (ℕ × ℕ) → List (ℕ × ℕ)
insert addr seq [] = (addr, seq) ∷ []
insert addr seq ((a, s) ∷ rest) =
    if a == addr then (addr, seq) ∷ rest else (a, s) ∷ insert addr seq rest

-- `seq ++` on an `unsigned char`, with its own wrap at 127.
unfoldable pub next_seq : ℕ → ℕ
next_seq seq = if seq == 127 then 0 else (seq + 1) % 2 ^ 8

unfoldable pub get_frame_seq : ℕ → Module → ℕ × Module
unfolding next_seq
get_frame_seq addr m = if addr == 0 then (0, m) else elim (lookup addr m.map_seq) [
  | none ↦ (0, record m { map_seq = insert addr 0 m.map_seq })
  | some s ↦ (next_seq s, record m { map_seq = insert addr (next_seq s) m.map_seq })
]

unfoldable pub reset_frame_seq : ℕ → Module → Module
reset_frame_seq addr m = if addr == 0 then m else record m { map_seq = insert addr 0 m.map_seq }

-- 45 becomes 0x45.
unfoldable pub bin_to_bcd : ℕ → ℕ
bin_to_bcd bin = if ltb 99 bin then 0 else bin / 10 * 16 + bin % 10

-- 0x45 becomes 45.
unfoldable pub bcd_to_bin : ℕ → ℕ
bcd_to_bin bcd =
    if ltb 9 (bcd / 16) then 0 else if ltb 9 (bcd % 16) then 0 else bcd / 16 * 10 + bcd % 16

-- The loop over `n < len`, at offset `off`, with `k` rounds left.
unfoldable pub is_invalid_loop : Memory → ℕ → ℕ → ℕ → Bool
is_invalid_loop buf invalid off zero = false
is_invalid_loop buf invalid off (suc k) =
    (buf off == invalid || buf off == 0xee) || is_invalid_loop buf invalid (off + 1) k

is_invalid_sized : Memory → ℤ → ℕ → Bool
is_invalid_sized buf (pos n) invalid = is_invalid_loop buf invalid 0 n
is_invalid_sized buf (negsuc n) invalid = false

unfoldable pub is_invalid_data : Memory → ℤ → ℕ → Bool
unfolding is_invalid_sized is_invalid_loop
is_invalid_data buf len invalid = is_invalid_sized buf len invalid

-- `pow = pow * 100`, `n` times, on an `unsigned int`.
unfoldable pub pow_loop : ℕ → ℕ → ℕ
pow_loop zero pow = pow
pow_loop (suc n) pow = pow_loop n (pow * 100 % 2 ^ 32)

-- The loop `for (n=len-1;n>=0;n--)`, with `n + 1` rounds left, on an `unsigned int`.
unfoldable pub bcd_loop : Memory → ℕ → ℕ → ℕ
unfolding pow_loop
bcd_loop buf zero int_value = int_value
bcd_loop buf (suc n) int_value =
    bcd_loop buf n ((int_value + bcd_to_bin (buf n) * pow_loop n 1) % 2 ^ 32)

bcd_sized : Memory → ℤ → ℕ → ℤ
unfolding bcd_loop
bcd_sized buf len invalid =
    if is_invalid_data buf len invalid
    then negsuc 9
    else elim len [ pos n ↦ pos (bcd_loop buf n 0) | negsuc n ↦ pos 0 ]

-- `bcd_to_bin(buf, len, invalid)` into an `int`; the buffer is `none` where the pointer is NULL.
unfoldable pub bcd_to_int : Option Memory → ℤ → ℕ → ℤ
unfolding bcd_sized
bcd_to_int none len invalid = pos 0
bcd_to_int (some buf) len invalid = if lt_int (pos 4) len then pos 0 else bcd_sized buf len invalid

unfoldable pub bcd_to_byte : Option Memory → ℤ → ℕ → ℕ
bcd_to_byte none len bit = 0
bcd_to_byte (some buf) len bit = buf 0 / 2 ^ bit % 2
