-- ===== src/Memory.antt =====
-- Byte arrays of the C++ sources: `buf_packet_`, `base_`, and the caller's output areas. An array
-- is the function from an offset to its byte; its size is checked where code computes an offset.
-- A word lies in memory with its low byte first, as on the x86 machines that the program is for.
pub mod Block
pub mod Word
use test.Prelude.{ℕ, zero, suc, ◌+◌, ◌*◌, ◌/◌, ◌%◌, ◌^◌, List, [], ◌∷◌, ◌==◌, if◌then◌else◌}

abbrev pub Memory : Type 0
Memory = ℕ → ℕ

-- `memset(buf, 0, n)`
abbrev pub zeroes : Memory
zeroes i = 0

-- `m[i] = v`
unfoldable pub store : Memory → ℕ → ℕ → Memory
store m i v j = if i == j then v else m j

-- `memcpy(m + off, bytes, n)`
unfoldable pub copy_to : Memory → ℕ → List ℕ → Memory
unfolding store
copy_to m off [] = m
copy_to m off (b ∷ bs) = copy_to (store m off b) (off + 1) bs

-- The `n` bytes from `off` on.
unfoldable pub bytes : Memory → ℕ → ℕ → List ℕ
bytes m off zero = []
bytes m off (suc n) = m off ∷ bytes m (off + 1) n

-- An `unsigned short` at an offset.
unfoldable pub load16 : Memory → ℕ → ℕ
load16 m off = m off + 256 * m (off + 1)

unfoldable pub store16 : Memory → ℕ → ℕ → Memory
unfolding store
store16 m off v = store (store m off (v % 256)) (off + 1) (v / 256 % 256)

-- An `unsigned int` at an offset.
unfoldable pub load32 : Memory → ℕ → ℕ
unfolding load16
load32 m off = load16 m off + 65536 * load16 m (off + 2)

unfoldable pub store32 : Memory → ℕ → ℕ → Memory
unfolding store16
store32 m off v = store16 (store16 m off (v % 65536)) (off + 2) (v / 65536)
