-- ===== src/Module/Formats/Digits.antt =====
-- Which bytes `check_bcd` accepts.
use test.Prelude.{
  ℕ, zero, suc, ◌*◌, ◌/◌, ◌%◌, ◌^◌, ◌≤◌, ◌<◌, ◌≡◌, refl, List, [], ◌∷◌, some, true, ◌==◌, arith,
  Bool-cases, inl, inr, All, ◌⊎◌,
}
use test.Prelude.Int.{pos}
use test.Memory.{Memory, bytes}
use test.Module.{bin_to_bcd, bcd_to_bin}
use test.Module.Formats.{check_bcd, check_loop, shift_last}

-- The byte 0xee, which stands for no value, or a byte that is the code of a number.
pub IsBcd : ℕ → Type 0
IsBcd b = (b ≡ 0xee) ⊎ (bin_to_bcd (bcd_to_bin b) ≡ b)

digits_code : (b : ℕ) → b < 2 ^ 8 → b % 16 ≤ 9 → b / 16 ≤ 9 → bin_to_bcd (bcd_to_bin b) ≡ b
unfolding bin_to_bcd bcd_to_bin
digits_code b h lo hi = ground arith

code_digits : (b : ℕ) → b < 2 ^ 8 → bin_to_bcd (bcd_to_bin b) ≡ b → (b % 16 ≤ 9) × (b / 16 ≤ 9)
unfolding bin_to_bcd bcd_to_bin
code_digits b h e = (ground arith, ground arith)

shift_none : (bs : List ℕ) → All (λ b. b < 2 ^ 8) bs → shift_last 0 bs ≡ bs
unfolding shift_last
shift_none [] h = refl
shift_none (b ∷ []) (h, t) = let e : b * 2 ^ 0 % 2 ^ 8 ≡ b = omega arith in rw e
shift_none (b ∷ c ∷ bs) (h, t) = rw (shift_none (c ∷ bs) t)

loop_sound : (bs : List ℕ) → All (λ b. b < 2 ^ 8) bs → check_loop bs ≡ true → All IsBcd bs
unfolding check_loop IsBcd
loop_sound [] h e = tt
loop_sound (b ∷ bs) (h, t) e = elim (Bool-cases (b == 0xee)) [
  | inl special ↦ (inl (ground arith), loop_sound bs t (ground arith))
  | inr other ↦
      (inr (digits_code b h (ground arith) (ground arith)), loop_sound bs t (ground arith))
]

loop_complete : (bs : List ℕ) → All (λ b. b < 2 ^ 8) bs → All IsBcd bs → check_loop bs ≡ true
unfolding check_loop IsBcd
loop_complete [] h e = refl
loop_complete (b ∷ bs) (h, t) (inl e, d) = let rest = loop_complete bs t d in ground arith
loop_complete (b ∷ bs) (h, t) (inr e, d) =
    let rest = loop_complete bs t d in let (lo, hi) = code_digits b h e in ground arith

-- Of 1 to 256 bytes, without a shift of the last one, `check_bcd` accepts exactly those of which each
-- is 0xee or the code of a number.
pub check_bcd_lem :
    (buffer : Memory) (n : ℕ)
    → 1 ≤ n
    → n ≤ 256
    → All (λ b. b < 2 ^ 8) (bytes buffer 0 n)
    → (check_bcd buffer (pos n) 0 ≡ some true → All IsBcd (bytes buffer 0 n))
      × (All IsBcd (bytes buffer 0 n) → check_bcd buffer (pos n) 0 ≡ some true)
unfolding check_bcd bytes
check_bcd_lem buffer zero lo hi h = absurd (omega arith)
check_bcd_lem buffer (suc n) lo hi h =
    let bs = bytes buffer 0 (suc n) in
    let e : check_bcd buffer (pos (suc n)) 0 ≡ some (check_loop bs) =
      ground (arith, shift_none bs h) in
    (λ s. loop_sound bs h (ground (arith, s, e)), λ all. ground (arith, e, loop_complete bs h all))
