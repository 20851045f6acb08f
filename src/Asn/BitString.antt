-- ===== src/Asn/BitString.antt =====
-- Bit strings: what the loop of `format_context_area_bit_string` leaves in a byte.
use test.Prelude.{
  ℕ, suc, ◌+◌, ◌-◌, ◌*◌, ◌/◌, ◌%◌, ◌^◌, ◌<◌, ◌≡◌, ◌∙◌, List, [], ◌∷◌, ◌++◌, arith, length,
}
use test.Memory.{Memory, store}
use test.Memory.Block.{store_self}
use test.Asn.{bit_loop, format_context_area_bit_string}

-- The loop over two parts.
bit_loop-append :
    (xs ys : List ℕ) (n : ℕ) (m : Memory)
    → bit_loop n (xs ++ ys) m ≡ bit_loop (n + length xs) ys (bit_loop n xs m)
unfolding bit_loop
bit_loop-append [] ys n m = let e : n + 0 ≡ n = omega arith in rw e
bit_loop-append (x ∷ xs) ys n m =
    let e : n + suc (length xs) ≡ n + 1 + length xs = omega arith in
    rw (
      e,
      bit_loop-append xs ys (n + 1)
          (store m (1 + n / 8) ((x + 2 ^ 8 - 0x30) * 2 ^ (8 - n % 8 - 1) % 2 ^ 8)),
    )

byte_shift : (b p : ℕ) → (b + 2 ^ 8) * p % 2 ^ 8 ≡ b * p % 2 ^ 8
byte_shift b p = omega arith

-- Each character assigns its whole byte: of the characters of one byte only the last one counts. The
-- byte where a string of characters ends holds that last bit in its place and nothing of the bits
-- before it, whatever they were; a 1 after seven other bits, say, is the byte 1.
pub bit_string_last_byte :
    (xs : List ℕ) (bit : ℕ) (m : Memory)
    → bit < 2
    → (format_context_area_bit_string (xs ++ ((0x30 + bit) ∷ [])) m).1 (1 + length xs / 8)
      ≡ bit * 2 ^ (7 - length xs % 8) % 2 ^ 8
unfolding format_context_area_bit_string
bit_string_last_byte xs bit m h =
    let e : 0 + length xs ≡ length xs = omega arith in
    let f : 8 - length xs % 8 - 1 ≡ 7 - length xs % 8 = omega arith in
    let g : 0x30 + bit + 2 ^ 8 - 0x30 ≡ bit + 2 ^ 8 = omega arith in
    rw (bit_loop-append, e, f, g)
      (store_self _ (1 + length xs / 8) _ ∙ byte_shift bit (2 ^ (7 - length xs % 8)))
