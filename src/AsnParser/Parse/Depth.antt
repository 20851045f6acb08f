-- ===== src/AsnParser/Parse/Depth.antt =====
-- simulator_meter/common/ptcl_codec/asn_parser.h: the depth of the calls of the parsers. A parse that
-- is out of fuel is so with less.
use test.Prelude.{
  ℕ, zero, suc, ◌+◌, ◌/◌, ◌%◌, ◌≤◌, arith, ◌≡◌, refl, List, [], ◌∷◌, Option, none, some, Bool, true,
  false, leb, ltb, ◌==◌, if◌then◌else◌, length,
}
use test.Memory.{Memory}
use test.AsnParser.{AsnType, Text, ci_data, ci_cosem_attribute_descriptor}
use test.AsnParser.Grammar.{
  Parser, sequence_parser, choice_parser, sequence_of_data, sequence_of_with_list,
  ber_sequence_parser, fixed_length_type, unfixed_length_type, create_parser, items_of,
}
use test.AsnParser.Parse.{
  ResultSet, Parsed, parsed, failed, faulted, out_of_fuel, after, regardless, parse_length_info,
  length_from, Run, run_sequence, run_choice, run_elements, run_attributes, selector, run_ber,
  run_parser, parse, within,
}

-- What a parse with more fuel gives.
Deeper : Parsed → Parsed → Type 0
Deeper out_of_fuel s = Unit {0}
Deeper (parsed at rs) s = s ≡ parsed at rs
Deeper (failed rs) s = s ≡ failed rs
Deeper faulted s = s ≡ faulted

Deeper-same : (r : Parsed) → Deeper r r
unfolding Deeper
Deeper-same (parsed at rs) = refl
Deeper-same (failed rs) = refl
Deeper-same faulted = refl
Deeper-same out_of_fuel = tt

Deeper-if :
    (b : Bool) (r r2 s s2 : Parsed)
    → Deeper r r2
    → Deeper s s2
    → Deeper (if b then r else s) (if b then r2 else s2)
Deeper-if true r r2 s s2 h k = h
Deeper-if false r r2 s s2 h k = k

Deeper-within : (at : ℕ) (r s : Parsed) → Deeper r s → Deeper (within at r) (within at s)
Deeper-within at r s h = Deeper-if (ltb at 1536) r s faulted faulted h (Deeper-same faulted)

-- What is done with the result of a parser.
Onward : (ℕ → ResultSet → Parsed) → (ℕ → ResultSet → Parsed) → Type 0
Onward next next2 = (at : ℕ) (rs : ResultSet) → Deeper (next at rs) (next2 at rs)

after-Deeper :
    (start : ℕ) (r s : Parsed) (next next2 : ℕ → ResultSet → Parsed)
    → Deeper r s
    → Onward next next2
    → Deeper (after start r next) (after start s next2)
unfolding after Deeper Onward
after-Deeper start (parsed at rs) s next next2 h k =
    rw (h)
      (Deeper-if (ltb at start) (failed rs) (failed rs) (next at rs) (next2 at rs) refl (k at rs))
after-Deeper start (failed rs) s next next2 h k = rw (h) refl
after-Deeper start faulted s next next2 h k = rw (h) refl
after-Deeper start out_of_fuel s next next2 h k = tt

regardless-Deeper :
    (start : ℕ) (r s : Parsed) (next next2 : ℕ → ResultSet → Parsed)
    → Deeper r s
    → Onward next next2
    → Deeper (regardless start r next) (regardless start s next2)
unfolding regardless Deeper Onward
regardless-Deeper start (parsed at rs) s next next2 h k = rw (h) (k at rs)
regardless-Deeper zero (failed rs) s next next2 h k = rw (h) refl
regardless-Deeper (suc start) (failed rs) s next next2 h k = rw (h) (k start rs)
regardless-Deeper start faulted s next next2 h k = rw (h) refl
regardless-Deeper start out_of_fuel s next next2 h k = tt

parse_length_info-Deeper :
    (m : Memory) (at : ℕ) (rs : ResultSet) (next next2 : ℕ → ℕ → Parsed)
    → ((from n : ℕ) → Deeper (next from n) (next2 from n))
    → Deeper (parse_length_info m at rs next) (parse_length_info m at rs next2)
unfolding parse_length_info
parse_length_info-Deeper m at rs next next2 h =
    let count = m at % 128 in
    let long = length_from m count (at + 1) 0 in
    Deeper-within at _ _ (
      Deeper-if (m at / 128 == 0) _ _ _ _ (h (at + 1) count) (
        Deeper-if (ltb 4 count) _ _ _ _ (Deeper-same (failed rs))
          (Deeper-within (at + count) _ _ (h (at + 1 + count) long))))

module _ (m : Memory) (fin : ℕ) (run run2 : Run)
    (deeper : (t : AsnType) (prefix : Text) → Onward (run t prefix) (run2 t prefix)) where
  run_sequence-Deeper :
      (ts : List AsnType) (mask : ℕ) (prefix : Text)
      → Onward (run_sequence m fin run ts mask prefix) (run_sequence m fin run2 ts mask prefix)
  unfolding run_sequence Onward
  run_sequence-Deeper [] mask prefix at rs = Deeper-same (parsed at rs)
  run_sequence-Deeper (t ∷ ts) mask prefix at rs =
      let rest = run_sequence-Deeper ts (mask / 2) prefix in
      let item = λ (from : ℕ). after-Deeper from _ _ _ _ (deeper t prefix from rs) rest in
      Deeper-if (mask % 2 == 1) _ _ _ _
        (Deeper-within at _ _ (Deeper-if (m at == 0) _ _ _ _ (rest (at + 1) rs) (item (at + 1))))
        (item at)

  run_choice-Deeper :
      (size : ℕ) (items : ℕ → AsnType) (t : AsnType) (des : Text)
      → Onward (run_choice m fin run size items t des) (run_choice m fin run2 size items t des)
  unfolding run_choice Onward
  run_choice-Deeper size items t des at rs = Deeper-within at _ _ (
      Deeper-if (leb size (m at)) _ _ _ _ (Deeper-same (failed rs)) (
        after-Deeper (at + 1) _ _ _ _ (deeper (items (m at)) [] (at + 1) _)
          (λ from found. Deeper-same (parsed from found))))

  run_elements-Deeper : (n : ℕ) → Onward (run_elements m fin run n) (run_elements m fin run2 n)
  unfolding run_elements Onward
  run_elements-Deeper zero at rs = Deeper-same (parsed at rs)
  run_elements-Deeper (suc n) at rs =
      Deeper-if (ltb at fin) _ _ _ _
        (regardless-Deeper at _ _ _ _ (deeper ci_data [] at rs) (run_elements-Deeper n))
        (Deeper-same (parsed at rs))

  selector-Deeper :
      (next next2 : ℕ → ResultSet → Parsed) (at : ℕ) (rs : ResultSet)
      → Onward next next2
      → Deeper (selector m fin run at rs next) (selector m fin run2 at rs next2)
  unfolding selector Onward
  selector-Deeper next next2 at rs h = Deeper-within at _ _ (
      Deeper-if (m at == 0) _ _ _ _ (h (at + 1) _) (
        Deeper-if (m at == 1) _ _ _ _ (regardless-Deeper at _ _ _ _ (deeper ci_data [] at _) h)
          (h at _)))

  run_attributes-Deeper :
      (n : ℕ) → Onward (run_attributes m fin run n) (run_attributes m fin run2 n)
  unfolding run_attributes Onward
  run_attributes-Deeper zero at rs = Deeper-same (parsed at rs)
  run_attributes-Deeper (suc n) at rs =
      Deeper-if (ltb at fin) _ _ _ _
        (regardless-Deeper at _ _ _ _ (deeper ci_cosem_attribute_descriptor [] at rs)
          (λ from found. selector-Deeper _ _ from found (run_attributes-Deeper n)))
        (Deeper-same (parsed at rs))

  run_ber-Deeper :
      (ts : List AsnType) (n : ℕ) → Onward (run_ber m fin run ts n) (run_ber m fin run2 ts n)
  unfolding run_ber Onward
  run_ber-Deeper ts zero at rs = Deeper-same (parsed at rs)
  run_ber-Deeper ts (suc n) at rs = Deeper-within at _ _ (
      Deeper-if (leb (length ts) (m at)) _ _ _ _ (Deeper-same (failed rs)) (
        after-Deeper (at + 1) _ _ _ _ (deeper (items_of ts (m at)) [] (at + 1) rs)
          (run_ber-Deeper ts n)))

  run_parser-Deeper : (p : Parser) → Onward (run_parser m fin run p) (run_parser m fin run2 p)
  unfolding run_parser Onward
  run_parser-Deeper (sequence_parser ts mask prefix) at rs =
      run_sequence-Deeper ts mask prefix at rs
  run_parser-Deeper (choice_parser size items t des) at rs =
      run_choice-Deeper size items t des at rs
  run_parser-Deeper (sequence_of_data t des) at rs =
      parse_length_info-Deeper m at rs _ _ (λ from n. run_elements-Deeper n from _)
  run_parser-Deeper (sequence_of_with_list t des) at rs =
      parse_length_info-Deeper m at rs _ _ (λ from n. run_attributes-Deeper n from _)
  run_parser-Deeper (ber_sequence_parser ts) at rs = Deeper-within at _ _ (
      Deeper-if (ltb fin (at + m at + 1)) _ _ _ _ (Deeper-same (failed rs))
        (run_ber-Deeper ts (length ts) (at + 1) rs))
  run_parser-Deeper (fixed_length_type n t des) at rs = Deeper-same _
  run_parser-Deeper (unfixed_length_type t des) at rs = Deeper-same _

either-Deeper :
    (o : Option Parser) (r : ResultSet) (run run2 : Parser → Parsed)
    → ((p : Parser) → Deeper (run p) (run2 p))
    → Deeper
        (elim o [ none ↦ failed r | some p ↦ run p ])
        (elim o [ none ↦ failed r | some p ↦ run2 p ])
either-Deeper none r run run2 h = Deeper-same (failed r)
either-Deeper (some p) r run run2 h = h p

parse-Deeper :
    (m : Memory) (fin f g : ℕ)
    → f ≤ g
    → (t : AsnType) (prefix : Text) → Onward (parse f m fin t prefix) (parse g m fin t prefix)
unfolding parse Onward Deeper
parse-Deeper m fin zero g h t prefix at rs = tt
parse-Deeper m fin (suc f) zero h t prefix at rs = absurd (omega (arith, h))
parse-Deeper m fin (suc f) (suc g) h t prefix at rs =
    either-Deeper (create_parser t prefix) rs _ _ (λ p.
      run_parser-Deeper m fin (parse f m fin) (parse g m fin)
        (parse-Deeper m fin f g (omega (arith, h))) p at rs)

Deeper-endless : (r s : Parsed) → Deeper r s → s ≡ out_of_fuel → r ≡ out_of_fuel
unfolding Deeper
Deeper-endless (parsed at rs) s h k = absurd (cc)
Deeper-endless (failed rs) s h k = absurd (cc)
Deeper-endless faulted s h k = absurd (cc)
Deeper-endless out_of_fuel s h k = refl

-- Less fuel is no more of an end.
pub less_fuel :
    (m : Memory) (fin f g : ℕ) (t : AsnType) (prefix : Text) (at : ℕ) (rs : ResultSet)
    → f ≤ g
    → parse g m fin t prefix at rs ≡ out_of_fuel
    → parse f m fin t prefix at rs ≡ out_of_fuel
unfolding Onward
less_fuel m fin f g t prefix at rs h k =
    Deeper-endless (parse f m fin t prefix at rs) (parse g m fin t prefix at rs)
      (parse-Deeper m fin f g h t prefix at rs) k
