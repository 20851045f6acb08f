-- ===== src/AsnParser/Parse/Results.antt =====
-- simulator_meter/common/ptcl_codec/asn_parser.h: what a parse leaves in the results.
use test.Prelude.{
  ℕ, zero, suc, ◌+◌, ◌-◌, ◌/◌, ◌%◌, ◌^◌, ◌≤◌, ◌≡◌, ◌≢◌, refl, arith, List, [], ◌∷◌, ◌++◌, All,
  Option, none, some, Bool, true, false, ◌&&◌, leb, ltb, ◌==◌, if◌then◌else◌, length,
}
use test.Memory.{Memory, bytes}
use test.Memory.Block.{length-bytes}
use test.Security.{word_bytes}
use test.AsnParser.{
  AsnType, code, Text, text, ci_data, ci_cosem_attribute_descriptor, ci_selective_access_descriptor,
}
use test.AsnParser.Grammar.{
  Parser, sequence_parser, choice_parser, sequence_of_data, sequence_of_with_list,
  ber_sequence_parser, fixed_length_type, unfixed_length_type, create_parser, items_of,
}
use test.AsnParser.Parse.{
  ResultItem, ResultSet, Parsed, parsed, failed, faulted, out_of_fuel, push, after, regardless,
  parse_length_info, length_from, decimal, Run, run_sequence, run_choice, run_elements,
  run_attributes, selector, run_ber, run_parser, too_long, parse, within,
}

-- The bytes of a result fill what `length` says, and fit `buf`; none is the choice of a get-request.
pub record IsFit (r : ResultItem) : Type 0 where
  pub exact : length r.buf ≡ r.size
  pub fits : r.size ≤ 1024
  pub other : code r.tid ≢ 42

-- What a parse leaves.
unfoldable pub Leaves : Parsed → Type 0
Leaves (parsed at rs) = All IsFit rs
Leaves (failed rs) = All IsFit rs
Leaves faulted = Unit {0}
Leaves out_of_fuel = Unit {0}

All-push : (rs : ResultSet) (r : ResultItem) → All IsFit rs → IsFit r → All IsFit (rs ++ (r ∷ []))
All-push [] r h k = (k, tt)
All-push (x ∷ rs) r (h, hs) k = (h, All-push rs r hs k)

push-All :
    (rs : ResultSet) (t : AsnType) (des : Text) (n : ℕ) (bs : List ℕ)
    → All IsFit rs
    → code t ≢ 42
    → length bs ≡ n
    → n ≤ 1024
    → All IsFit (push rs t des n bs)
push-All rs t des n bs h u e k =
    All-push rs _ h (record { exact = omega arith; fits = omega arith; other = u })

Leaves-if : (b : Bool) (r s : Parsed) → Leaves r → Leaves s → Leaves (if b then r else s)
Leaves-if true r s h k = h
Leaves-if false r s h k = k

Leaves-test : (b : Bool) (r : Parsed) → (b ≡ true → Leaves r) → Leaves (if b then r else faulted)
unfolding Leaves
Leaves-test true r h = h refl
Leaves-test false r h = tt

All-if :
    (b : Bool) (rs qs : ResultSet) → All IsFit rs → All IsFit qs → All IsFit (if b then rs else qs)
All-if true rs qs h k = h
All-if false rs qs h k = k

Leaves-within : (at : ℕ) (r : Parsed) → Leaves r → Leaves (within at r)
unfolding Leaves
Leaves-within at r h = Leaves-if (ltb at 1536) r faulted h tt

Keeps : (ℕ → ResultSet → Parsed) → Type 0
Keeps next = (at : ℕ) (rs : ResultSet) → All IsFit rs → Leaves (next at rs)

after-Leaves :
    (start : ℕ) (r : Parsed) (next : ℕ → ResultSet → Parsed)
    → Leaves r
    → Keeps next
    → Leaves (after start r next)
unfolding after Leaves Keeps
after-Leaves start (parsed at rs) next h k =
    Leaves-if (ltb at start) (failed rs) (next at rs) h (k at rs h)
after-Leaves start (failed rs) next h k = h
after-Leaves start faulted next h k = tt
after-Leaves start out_of_fuel next h k = tt

regardless-Leaves :
    (start : ℕ) (r : Parsed) (next : ℕ → ResultSet → Parsed)
    → Leaves r
    → Keeps next
    → Leaves (regardless start r next)
unfolding regardless Leaves Keeps
regardless-Leaves start (parsed at rs) next h k = k at rs h
regardless-Leaves zero (failed rs) next h k = tt
regardless-Leaves (suc start) (failed rs) next h k = k start rs h
regardless-Leaves start faulted next h k = tt
regardless-Leaves start out_of_fuel next h k = tt

parse_length_info-Leaves :
    (m : Memory) (at : ℕ) (rs : ResultSet) (next : ℕ → ℕ → Parsed)
    → All IsFit rs
    → ((from n : ℕ) → Leaves (next from n))
    → Leaves (parse_length_info m at rs next)
unfolding parse_length_info Leaves
parse_length_info-Leaves m at rs next k h =
    let count = m at % 128 in
    let long = length_from m count (at + 1) 0 in
    Leaves-within at _ (
      Leaves-if (m at / 128 == 0) _ _ (h (at + 1) count) (
        Leaves-if (ltb 4 count) (failed rs) _ k
          (Leaves-within (at + count) _ (h (at + 1 + count) long))))

-- What the factory makes leaves such results.
fit_parser : Parser → Bool
fit_parser (sequence_parser ts mask prefix) = true
fit_parser (choice_parser size items t des) = if code t == 42 then false else true
fit_parser (sequence_of_data t des) = if code t == 42 then false else true
fit_parser (sequence_of_with_list t des) = if code t == 42 then false else true
fit_parser (ber_sequence_parser ts) = true
fit_parser (fixed_length_type n t des) = if code t == 42 then false else leb n 1024
fit_parser (unfixed_length_type t des) = if code t == 42 then false else true

fit_option : Option Parser → Bool
unfolding fit_parser
fit_option none = true
fit_option (some p) = fit_parser p

create_parser-fit : (t : AsnType) (prefix : Text) → fit_option (create_parser t prefix) ≡ true
unfolding create_parser fit_option
create_parser-fit t prefix = ground arith

module _ (m : Memory) (fin : ℕ) (run : Run)
    (keeps : (t : AsnType) (prefix : Text) → Keeps (run t prefix)) where
  run_sequence-Leaves :
      (ts : List AsnType) (mask : ℕ) (prefix : Text) → Keeps (run_sequence m fin run ts mask prefix)
  unfolding run_sequence Keeps Leaves
  run_sequence-Leaves [] mask prefix at rs h = h
  run_sequence-Leaves (t ∷ ts) mask prefix at rs h =
      let rest = run_sequence-Leaves ts (mask / 2) prefix in
      let item = λ (from : ℕ). after-Leaves from _ _ (keeps t prefix from rs h) rest in
      Leaves-if (mask % 2 == 1) _ _
        (Leaves-within at _ (Leaves-if (m at == 0) _ _ (rest (at + 1) rs h) (item (at + 1))))
        (item at)

  found_choice :
      (t : AsnType) (des : Text) (b : ℕ) (rs : ResultSet)
      → (if code t == 42 then false else true) ≡ true
      → All IsFit rs
      → All IsFit (if code t == 0 then rs else push rs t des 1 (b ∷ []))
  found_choice t des b rs u h =
      All-if (code t == 0) _ _ h (push-All rs t des 1 (b ∷ []) h (ground arith) refl (omega arith))

  run_choice-Leaves :
      (size : ℕ) (items : ℕ → AsnType) (t : AsnType) (des : Text)
      → (if code t == 42 then false else true) ≡ true
      → Keeps (run_choice m fin run size items t des)
  unfolding run_choice Keeps Leaves
  run_choice-Leaves size items t des u at rs h = Leaves-within at _ (
      Leaves-if (leb size (m at)) (failed rs) _ h (
        after-Leaves (at + 1) _ _
          (keeps (items (m at)) [] (at + 1) _ (found_choice t des (m at) rs u h))
          (λ from found k. k)))

  run_elements-Leaves : (n : ℕ) → Keeps (run_elements m fin run n)
  unfolding run_elements Keeps Leaves
  run_elements-Leaves zero at rs h = h
  run_elements-Leaves (suc n) at rs h =
      Leaves-if (ltb at fin) _ (parsed at rs)
        (regardless-Leaves at _ _ (keeps ci_data [] at rs h) (run_elements-Leaves n)) h

  selector-Leaves :
      (next : ℕ → ResultSet → Parsed) (at : ℕ) (rs : ResultSet)
      → Keeps next
      → All IsFit rs
      → Leaves (selector m fin run at rs next)
  unfolding selector Keeps
  selector-Leaves next at rs k h =
      let des = text "selective_access_descriptor" in
      let found =
        push-All rs ci_selective_access_descriptor des 1 (m at ∷ []) h (ground arith) refl
          (omega arith) in
      Leaves-within at _ (
        Leaves-if (m at == 0) _ _ (k (at + 1) _ found) (
          Leaves-if (m at == 1) _ _ (regardless-Leaves at _ _ (keeps ci_data [] at _ found) k)
            (k at _ found)))

  run_attributes-Leaves : (n : ℕ) → Keeps (run_attributes m fin run n)
  unfolding run_attributes Keeps Leaves
  run_attributes-Leaves zero at rs h = h
  run_attributes-Leaves (suc n) at rs h =
      Leaves-if (ltb at fin) _ (parsed at rs)
        (regardless-Leaves at _ _ (keeps ci_cosem_attribute_descriptor [] at rs h)
          (λ from found k. selector-Leaves _ from found (run_attributes-Leaves n) k))
        h

  run_ber-Leaves : (ts : List AsnType) (n : ℕ) → Keeps (run_ber m fin run ts n)
  unfolding run_ber Keeps Leaves
  run_ber-Leaves ts zero at rs h = h
  run_ber-Leaves ts (suc n) at rs h = Leaves-within at _ (
      Leaves-if (leb (length ts) (m at)) (failed rs) _ h (
        after-Leaves (at + 1) _ _ (keeps (items_of ts (m at)) [] (at + 1) rs h)
          (run_ber-Leaves ts n)))

  run_parser-Leaves : (p : Parser) → fit_parser p ≡ true → Keeps (run_parser m fin run p)
  unfolding run_parser Keeps Leaves fit_parser word_bytes
  run_parser-Leaves (sequence_parser ts mask prefix) u at rs h =
      run_sequence-Leaves ts mask prefix at rs h
  run_parser-Leaves (choice_parser size items t des) u at rs h =
      run_choice-Leaves size items t des u at rs h
  run_parser-Leaves (sequence_of_data t des) u at rs h =
      parse_length_info-Leaves m at rs _ h (λ from n.
        run_elements-Leaves n from _
          (push-All rs t des 4 (word_bytes n) h (ground arith) refl (omega arith)))
  run_parser-Leaves (sequence_of_with_list t des) u at rs h =
      parse_length_info-Leaves m at rs _ h (λ from n.
        run_attributes-Leaves n from _
          (push-All rs t des 1 (n % 2 ^ 8 ∷ []) h (ground arith) refl (omega arith)))
  run_parser-Leaves (ber_sequence_parser ts) u at rs h = Leaves-within at _ (
      Leaves-if (ltb fin (at + m at + 1)) (failed rs) _ h
        (run_ber-Leaves ts (length ts) (at + 1) rs h))
  run_parser-Leaves (fixed_length_type n t des) u at rs h =
      Leaves-if (ltb fin (at + n)) (failed rs) _ h (
        Leaves-if (leb (at + n) 1536) (parsed (at + n) (push rs t des n (bytes m at n))) faulted
          (push-All rs t des n (bytes m at n) h (ground arith) (length-bytes n m at) (ground arith))
          tt)
  run_parser-Leaves (unfixed_length_type t des) u at rs h =
      parse_length_info-Leaves m at rs _ h (λ from n.
        Leaves-if (too_long m fin run at (n + (from - at))) (failed rs) _ h (
          Leaves-test (leb n 1024 && leb (from + n) 1536)
            (parsed (from + n) (push rs t (des ++ (b'_' ∷ decimal n)) n (bytes m from n)))
            (λ c.
              push-All rs t _ n (bytes m from n) h (ground arith) (length-bytes n m from)
                (ground arith))))

either-Leaves :
    (o : Option Parser) (rs : ResultSet) (run : Parser → Parsed)
    → All IsFit rs
    → fit_option o ≡ true
    → ((p : Parser) → fit_parser p ≡ true → Leaves (run p))
    → Leaves (elim o [ none ↦ failed rs | some p ↦ run p ])
unfolding Leaves fit_option
either-Leaves none rs run h u k = h
either-Leaves (some p) rs run h u k = k p u

-- Every result that a parse leaves, also one that fails, holds at most the 1024 bytes of its array, as
-- many as its length says, and is none of the type of a get-request; so where those before were.
pub parse-Leaves :
    (fuel : ℕ) (m : Memory) (fin : ℕ) (t : AsnType) (prefix : Text) (at : ℕ) (rs : ResultSet)
    → All IsFit rs
    → Leaves (parse fuel m fin t prefix at rs)
unfolding parse Leaves Keeps
parse-Leaves zero m fin t prefix at rs h = tt
parse-Leaves (suc f) m fin t prefix at rs h =
    either-Leaves (create_parser t prefix) rs _ h (create_parser-fit t prefix)
      (λ p u. run_parser-Leaves m fin (parse f m fin) (parse-Leaves f m fin) p u at rs h)
