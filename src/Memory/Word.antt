-- ===== src/Memory/Word.antt =====
-- Words in memory, and the byte order of the network.
use test.Prelude.{ℕ, ◌+◌, ◌*◌, ◌/◌, ◌%◌, ◌^◌, ◌<◌, ◌≡◌, arith}
use test.Memory.{Memory, load16, store16}

-- An `unsigned short` with its two bytes exchanged (`reverse_value`, `ntohs`).
unfoldable pub swap16 : ℕ → ℕ
swap16 v = v % 256 * 256 + v / 256 % 256

-- An `unsigned int` with its four bytes reversed (`ntohl`).
unfoldable pub swap32 : ℕ → ℕ
unfolding swap16
swap32 v = swap16 (v % 65536) * 65536 + swap16 (v / 65536)

pub swap16-swap16 : (v : ℕ) → v < 2 ^ 16 → swap16 (swap16 v) ≡ v
unfolding swap16
swap16-swap16 v h = omega arith

pub swap16-lt : (v : ℕ) → swap16 v < 2 ^ 16
unfolding swap16
swap16-lt v = omega arith

pub swap32-swap32 : (v : ℕ) → v < 2 ^ 32 → swap32 (swap32 v) ≡ v
unfolding swap32
swap32-swap32 v h = omega arith

pub swap32-lt : (v : ℕ) → swap32 v < 2 ^ 32
unfolding swap32
swap32-lt v = omega arith

pub load16-store16 : (m : Memory) (off v : ℕ) → v < 2 ^ 16 → load16 (store16 m off v) off ≡ v
unfolding load16 store16
load16-store16 m off v h = ground arith
