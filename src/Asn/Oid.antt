-- ===== src/Asn/Oid.antt =====
-- Object identifiers, and the integers of COSEM data.
use test.Prelude.{
  ℕ, suc, ◌+◌, ◌-◌, ◌*◌, ◌/◌, ◌%◌, ◌^◌, ◌≤◌, ◌<◌, ◌≡◌, refl, List, [], ◌∷◌, map, some, arith, ltb,
  length, take-all, false, All,
}
use test.Asn.{
  format_context_area_object_indentifier, parse_context_area_object_indentifier,
  format_context_area_int, format_context_area_int64, format_context_area_short,
}

map_bytes : (vs : List ℕ) → All (λ v. v < 2 ^ 8) vs → map (λ v. v % 2 ^ 8) vs ≡ vs
map_bytes [] h = refl
map_bytes (v ∷ vs) (h, t) = let e : v % 2 ^ 8 ≡ v = omega arith in rw (e, map_bytes vs t)

-- An identifier of at least five numbers is read back from its bytes, if the first is at most 5, the
-- second below 40, the third below 2^14, and the others are bytes.
pub parse_oid-format_oid :
    (a b c : ℕ) (rest : List ℕ)
    → a ≤ 5
    → b < 40
    → c < 2 ^ 14
    → 2 ≤ length rest
    → All (λ v. v < 2 ^ 8) rest
    → let area = format_context_area_object_indentifier (some (a ∷ b ∷ c ∷ rest)) in
      (length area ≡ 3 + length rest)
      × (parse_context_area_object_indentifier area (length area) ≡ some (a ∷ b ∷ c ∷ rest))
unfolding format_context_area_object_indentifier parse_context_area_object_indentifier
parse_oid-format_oid a b c rest ha hb hc hl hr =
    let e = map_bytes rest hr in
    let t = take-all (length rest) rest (omega arith) in
    let s : suc (suc (suc (length rest))) - 3 ≡ length rest = omega arith in
    let f : ltb (suc (suc (suc (length rest)))) 5 ≡ false = ground arith in
    let g : (a * 40 + b) % 256 / 40 ≡ a = omega arith in
    let i : (a * 40 + b) % 256 % 40 ≡ b = omega arith in
    let j : (c / 128 % 128 + 128) % 128 * 128 + c % 128 % 128 ≡ c = omega arith in
    rw (f, e) (omega arith, ground (arith, t, s))

-- The value of bytes, highest first.
pub big_endian : ℕ → List ℕ → ℕ
big_endian acc [] = acc
big_endian acc (b ∷ bs) = big_endian (acc * 2 ^ 8 + b) bs

-- The integers of 16, 32 and 64 bits are written as 2, 4 and 8 bytes, highest first.
pub integers_big_endian :
    (v : ℕ)
    → (v < 2 ^ 16 → big_endian 0 (format_context_area_short v) ≡ v)
      × (v < 2 ^ 32 → big_endian 0 (format_context_area_int v) ≡ v)
      × (v < 2 ^ 64 → big_endian 0 (format_context_area_int64 v) ≡ v)
unfolding big_endian format_context_area_short format_context_area_int format_context_area_int64
integers_big_endian v = (λ h. omega arith, λ h. omega arith, λ h. omega arith)
