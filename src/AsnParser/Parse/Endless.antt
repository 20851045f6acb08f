-- ===== src/AsnParser/Parse/Endless.antt =====
-- simulator_meter/common/ptcl_codec/asn_parser.h: three bytes on which the parsers call each other
-- without end.
use test.Prelude.{
  ℕ, zero, suc, ◌+◌, ◌/◌, ◌%◌, ◌≤◌, ◌<◌, ◌≡◌, refl, ap, ◌∙◌, arith, [], true, false, leb, ltb,
}
use test.Memory.{Memory}
use test.Security.{word_bytes}
use test.AsnParser.{AsnType, Text, text, ci_data, ci_sequence_of_array, ci_integer32}
use test.AsnParser.Grammar.{create_parser, data_items}
use test.AsnParser.Parse.{
  ResultSet, Parsed, parsed, failed, out_of_fuel, push, after, regardless, run_choice, run_elements,
  run_parser, parse_length_info, parse,
}

-- Data begin with their tag.
parse-data :
    (f : ℕ) (m : Memory) (fin at tag : ℕ) (rs : ResultSet)
    → at < 1536
    → m at ≡ tag
    → tag < 256
    → parse (suc f) m fin ci_data [] at rs
      ≡ after (at + 1) (parse f m fin (data_items tag) [] (at + 1) rs) parsed
unfolding parse create_parser run_parser run_choice
parse-data f m fin at tag rs h e k =
    let inside : ltb at 1536 ≡ true = ground arith in
    let known : leb 256 tag ≡ false = ground arith in rw (e, inside, known) refl

parse-array :
    (f : ℕ) (m : Memory) (fin at n : ℕ) (rs : ResultSet)
    → at < 1536
    → m at ≡ n
    → n < 128
    → parse (suc f) m fin ci_sequence_of_array [] at rs
      ≡ run_elements m fin
          (parse f m fin)
          n
          (at + 1)
          (push rs ci_sequence_of_array (text "sequence_of_array") 4 (word_bytes n))
unfolding parse create_parser run_parser parse_length_info
parse-array f m fin at n rs h e k =
    let inside : ltb at 1536 ≡ true = ground arith in
    let short : n / 128 ≡ 0 = omega arith in
    let count : n % 128 ≡ n = omega arith in rw (e, inside, short, count) refl

parse-integer_short :
    (f : ℕ) (m : Memory) (fin at : ℕ) (rs : ResultSet)
    → fin < at + 4
    → parse (suc f) m fin ci_integer32 [] at rs ≡ failed rs
unfolding parse create_parser run_parser
parse-integer_short f m fin at rs h =
    let short : ltb fin (at + 4) ≡ true = ground arith in rw short refl

-- A number of four bytes of which fewer are there.
parse-data_short :
    (f : ℕ) (m : Memory) (fin at : ℕ) (rs : ResultSet)
    → at < 1536
    → m at ≡ 5
    → fin < at + 5
    → parse (suc (suc f)) m fin ci_data [] at rs ≡ failed rs
unfolding after
parse-data_short f m fin at rs h e k =
    parse-data (suc f) m fin at 5 rs h e (omega arith)
    ∙ ap (λ r. after (at + 1) r parsed) (parse-integer_short f m fin (at + 1) rs (omega arith))

-- The rounds of the array, by what the call for an element gives.
module _ (m : Memory) (fin : ℕ) (run : AsnType → Text → ℕ → ResultSet → Parsed) where
  element_failed :
      (n at before : ℕ) (rs : ResultSet)
      → at ≡ suc before
      → at < fin
      → run ci_data [] at rs ≡ failed rs
      → run_elements m fin run (suc n) at rs ≡ run_elements m fin run n before rs
  unfolding run_elements regardless
  element_failed n at before rs p h e =
      let more : ltb at fin ≡ true = ground arith in rw (more, e, p) refl

  element_endless :
      (n at : ℕ) (rs : ResultSet)
      → at < fin
      → run ci_data [] at rs ≡ out_of_fuel
      → run_elements m fin run (suc n) at rs ≡ out_of_fuel
  unfolding run_elements regardless
  element_endless n at rs h e = let more : ltb at fin ≡ true = ground arith in rw (more, e) refl

module _ (m : Memory) (at : ℕ) (inside : at + 3 ≤ 1536) (array : m at ≡ 1) (count : m (at + 1) ≡ 5)
    (number : m (at + 2) ≡ 5) where
  elements_endless :
      (g : ℕ) (rs : ResultSet)
      → ((rs : ResultSet) → parse g m (at + 3) ci_data [] at rs ≡ out_of_fuel)
      → run_elements m (at + 3) (parse g m (at + 3)) 5 (at + 2) rs ≡ out_of_fuel
  unfolding parse after
  elements_endless zero rs back = element_endless m (at + 3) _ 4 (at + 2) rs (omega arith) refl
  elements_endless (suc zero) rs back =
      element_endless m (at + 3) _ 4 (at + 2) rs (omega arith)
        (parse-data zero m (at + 3) (at + 2) 5 rs (omega arith) number (omega arith))
  elements_endless (suc (suc g)) rs back =
      let run = parse (suc (suc g)) m (at + 3) in
      let first = parse-data_short g m (at + 3) (at + 2) rs (omega arith) number (omega arith) in
      let second = parse-data_short g m (at + 3) (at + 1) rs (omega arith) count (omega arith) in
      element_failed m (at + 3) run 4 (at + 2) (at + 1) rs (omega arith) (omega arith) first
      ∙ element_failed m (at + 3) run 3 (at + 1) at rs (omega arith) (omega arith) second
      ∙ element_endless m (at + 3) run 2 at rs (omega arith) (back rs)

  -- Data of the three bytes 1, 5, 5, an array of five elements with a number of four bytes of which none
  -- is there, are parsed without end: no fuel is enough. A failed element moves the loop one byte back,
  -- and two of them take it to the tag of the array itself.
  pub array_endless :
      (fuel : ℕ) (rs : ResultSet) → parse fuel m (at + 3) ci_data [] at rs ≡ out_of_fuel
  unfolding parse after
  array_endless zero rs = refl
  array_endless (suc zero) rs = parse-data zero m (at + 3) at 1 rs (omega arith) array (omega arith)
  array_endless (suc (suc g)) rs =
      let found = push rs ci_sequence_of_array (text "sequence_of_array") 4 (word_bytes 5) in
      let two : at + 1 + 1 ≡ at + 2 = omega arith in
      let rounds : run_elements m (at + 3) (parse g m (at + 3)) 5 (at + 1 + 1) found ≡ out_of_fuel =
        rw two (elements_endless g found (λ rs. array_endless g rs)) in
      parse-data (suc g) m (at + 3) at 1 rs (omega arith) array (omega arith)
      ∙ ap (λ r. after (at + 1) r parsed)
          (parse-array g m (at + 3) (at + 1) 5 rs (omega arith) count (omega arith) ∙ rounds)
