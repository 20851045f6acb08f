-- ===== src/AsnParser/Parse/Normal.antt =====
-- simulator_meter/common/ptcl_codec/asn_parser.h: what the parsers make of a get-request-normal with no
-- selector.
use test.Prelude.{
  ℕ, suc, ◌+◌, ◌/◌, ◌%◌, ◌≤◌, ◌<◌, ◌≡◌, refl, ap, sym, ◌∙◌, arith, List, [], ◌∷◌, Option, none,
  some, true, false, leb, ltb, ◌==◌, if◌then◌else◌,
}
use test.Memory.{Memory, bytes}
use test.AsnParser.{
  AsnType, code, Text, text, ci_cosem_pdu, ci_get_request, ci_get_request_normal,
  ci_invoke_id_and_priority, ci_cosem_attribute_descriptor, ci_cosem_class_id,
  ci_cosem_object_instance_id, ci_cosem_object_attribute_id, ci_selective_access_descriptor,
}
use test.AsnParser.Grammar.{Parser, fixed_length_type, choice_parser, create_parser}
use test.AsnParser.Parse.{
  ResultSet, Parsed, parsed, failed, push, after, run_choice, run_sequence, run_parser, parse,
}

pub after_parsed :
    (at to : ℕ) (rs : ResultSet) (next : ℕ → ResultSet → Parsed)
    → at ≤ to
    → after at (parsed to rs) next ≡ next to rs
unfolding after
after_parsed at to rs next h = let back : ltb to at ≡ false = ground arith in rw (back) refl

-- The results of an attribute descriptor.
abbrev pub descriptor : Memory → ℕ → ResultSet → ResultSet
descriptor m at rs =
    push
      (push (push rs ci_cosem_class_id (text "cosem_class_id") 2 (bytes m at 2))
        ci_cosem_object_instance_id (text "cosem_object_instance_id") 6 (bytes m (at + 2) 6))
      ci_cosem_object_attribute_id (text "cosem_object_attribute_id") 1 (bytes m (at + 8) 1)

module _ (m : Memory) (fin : ℕ) where
  pub parse_as :
      (f : ℕ) (t : AsnType) (prefix : Text) (p : Parser) (at : ℕ) (rs : ResultSet)
      → create_parser t prefix ≡ some p
      → parse (suc f) m fin t prefix at rs ≡ run_parser m fin (parse f m fin) p at rs
  unfolding parse
  parse_as f t prefix p at rs e =
      ap
        (λ (o : Option Parser). (elim o [
          | none ↦ failed rs
          | some p ↦ run_parser m fin (parse f m fin) p at rs
        ]))
        e

  pub parse-fixed :
      (f : ℕ) (t u : AsnType) (prefix des : Text) (n at : ℕ) (rs : ResultSet)
      → create_parser t prefix ≡ some (fixed_length_type n u des)
      → at + n ≤ fin
      → at + n ≤ 1536
      → parse (suc f) m fin t prefix at rs ≡ parsed (at + n) (push rs u des n (bytes m at n))
  unfolding run_parser
  parse-fixed f t u prefix des n at rs e h k =
      let inside : ltb fin (at + n) ≡ false = ground arith in
      let room : leb (at + n) 1536 ≡ true = ground arith in
      parse_as f t prefix (fixed_length_type n u des) at rs e ∙ rw (inside, room) refl

  module _ (run : AsnType → Text → ℕ → ResultSet → Parsed) where
    pub run_sequence-item :
        (t : AsnType) (ts : List AsnType) (mask : ℕ) (at to : ℕ) (rs found : ResultSet)
        → mask % 2 ≡ 0
        → run t [] at rs ≡ parsed to found
        → at ≤ to
        → run_sequence m fin run (t ∷ ts) mask [] at rs
          ≡ run_sequence m fin run ts (mask / 2) [] to found
    unfolding run_sequence
    run_sequence-item t ts mask at to rs found e p h =
        rw (e, p) (after_parsed at to found (run_sequence m fin run ts (mask / 2) []) h)

    pub run_sequence-absent :
        (t : AsnType) (ts : List AsnType) (mask : ℕ) (at : ℕ) (rs : ResultSet)
        → mask % 2 ≡ 1
        → at < 1536
        → m at ≡ 0
        → run_sequence m fin run (t ∷ ts) mask [] at rs
          ≡ run_sequence m fin run ts (mask / 2) [] (at + 1) rs
    unfolding run_sequence
    run_sequence-absent t ts mask at rs e h z =
        let inside : ltb at 1536 ≡ true = ground arith in rw (e, inside, z) refl

    pub run_sequence-end :
        (mask at : ℕ) (rs : ResultSet) → run_sequence m fin run [] mask [] at rs ≡ parsed at rs
    unfolding run_sequence
    run_sequence-end mask at rs = refl

  pub parse-descriptor :
      (f at : ℕ) (rs : ResultSet)
      → at + 9 ≤ fin
      → at + 9 ≤ 1536
      → parse (suc (suc f)) m fin ci_cosem_attribute_descriptor [] at rs
        ≡ parsed (at + 9) (descriptor m at rs)
  unfolding run_parser create_parser
  parse-descriptor f at rs h k =
      let run = parse (suc f) m fin in
      let r1 = push rs ci_cosem_class_id (text "cosem_class_id") 2 (bytes m at 2) in
      let r2 =
        push r1 ci_cosem_object_instance_id (text "cosem_object_instance_id") 6
          (bytes m (at + 2) 6) in
      let e1 =
        parse-fixed f ci_cosem_class_id ci_cosem_class_id [] (text "cosem_class_id") 2 at rs refl
          (omega arith) (omega arith) in
      let e2 =
        parse-fixed f ci_cosem_object_instance_id ci_cosem_object_instance_id []
          (text "cosem_object_instance_id") 6 (at + 2) r1 refl (omega arith) (omega arith) in
      let e3 =
        parse-fixed f ci_cosem_object_attribute_id ci_cosem_object_attribute_id []
          (text "cosem_object_attribute_id") 1 (at + 8) r2 refl (omega arith) (omega arith) in
      let place : at + 2 + 6 ≡ at + 8 = omega arith in
      let last : at + 8 + 1 ≡ at + 9 = omega arith in
      parse_as (suc f) ci_cosem_attribute_descriptor [] _ at rs refl
      ∙ (run_sequence-item run ci_cosem_class_id
            (ci_cosem_object_instance_id ∷ ci_cosem_object_attribute_id ∷ []) 0 at (at + 2) rs r1
            refl e1 (omega arith)
          ∙ (run_sequence-item run ci_cosem_object_instance_id (ci_cosem_object_attribute_id ∷ []) 0
                (at + 2) (at + 8) r1 r2 refl (rw (sym place) e2) (omega arith)
              ∙ (run_sequence-item run ci_cosem_object_attribute_id [] 0 (at + 8) (at + 9) r2
                    (descriptor m at rs) refl (rw (sym last) e3) (omega arith)
                  ∙ run_sequence-end run 0 (at + 9) (descriptor m at rs))))

  -- A choice by a byte that is one of the tags.
  pub parse-choice :
      (f : ℕ) (t u : AsnType) (size : ℕ) (items : ℕ → AsnType) (des : Text) (at tag : ℕ)
      (rs : ResultSet)
      → create_parser t [] ≡ some (choice_parser size items u des)
      → at < 1536
      → m at ≡ tag
      → tag < size
      → parse (suc f) m fin t [] at rs
        ≡ after
            (at + 1)
            (parse f m fin
              (items tag)
              []
              (at + 1)
              (if code u == 0 then rs else push rs u des 1 (tag ∷ [])))
            parsed
  unfolding run_parser run_choice
  parse-choice f t u size items des at tag rs p h e k =
      let inside : ltb at 1536 ≡ true = ground arith in
      let known : leb size tag ≡ false = ground arith in
      parse_as f t [] (choice_parser size items u des) at rs p ∙ rw (e, inside, known) refl

-- The results of a get-request-normal.
abbrev pub normal_results : Memory → ℕ → ResultSet
normal_results m at = descriptor m (at + 3) (
    push (push [] ci_cosem_pdu (text "cosem_pdu") 1 (192 ∷ [])) ci_invoke_id_and_priority
      (text "invoke_id_and_priority") 1 (bytes m (at + 2) 1))

module _ (m : Memory) (fin at : ℕ) (whole : at + 13 ≤ fin) (room : at + 13 ≤ 1536)
    (tag : m at ≡ 192) (kind : m (at + 1) ≡ 1) (plain : m (at + 12) ≡ 0) where
  parse-normal :
      (f : ℕ) (rs : ResultSet)
      → parse (suc (suc (suc f))) m fin ci_get_request_normal [] (at + 2) rs
        ≡ parsed (at + 13) (
            descriptor m (at + 3) (
              push rs ci_invoke_id_and_priority
                (text "invoke_id_and_priority")
                1
                (bytes m (at + 2) 1)))
  unfolding run_parser create_parser
  parse-normal f rs =
      let run = parse (suc (suc f)) m fin in
      let r1 =
        push rs ci_invoke_id_and_priority (text "invoke_id_and_priority") 1 (bytes m (at + 2) 1) in
      let r2 = descriptor m (at + 3) r1 in
      let e1 =
        parse-fixed m fin (suc f) ci_invoke_id_and_priority ci_invoke_id_and_priority []
          (text "invoke_id_and_priority") 1 (at + 2) rs refl (omega arith) (omega arith) in
      let e2 = parse-descriptor m fin f (at + 3) r1 (omega arith) (omega arith) in
      let first : at + 2 + 1 ≡ at + 3 = omega arith in
      let second : at + 3 + 9 ≡ at + 12 = omega arith in
      let last : at + 12 + 1 ≡ at + 13 = omega arith in
      parse_as m fin (suc (suc f)) ci_get_request_normal [] _ (at + 2) rs refl
      ∙ (run_sequence-item m fin run ci_invoke_id_and_priority
            (ci_cosem_attribute_descriptor ∷ ci_selective_access_descriptor ∷ []) 4 (at + 2)
            (at + 3) rs r1 refl (rw (sym first) e1) (omega arith)
          ∙ (run_sequence-item m fin run ci_cosem_attribute_descriptor
                (ci_selective_access_descriptor ∷ []) 2 (at + 3) (at + 12) r1 r2 refl
                (rw (sym second) e2) (omega arith)
              ∙ (run_sequence-absent m fin run ci_selective_access_descriptor [] 1 (at + 12) r2 refl
                    (omega arith) plain
                  ∙ (run_sequence-end m fin run 0 (at + 12 + 1) r2 ∙ ap (λ n. parsed n r2) last))))

  -- Five calls deep.
  pub parse-request :
      (f : ℕ)
      → parse (suc (suc (suc (suc (suc f))))) m fin ci_cosem_pdu [] at []
        ≡ parsed (at + 13) (normal_results m at)
  unfolding create_parser
  parse-request f =
      let r0 = push [] ci_cosem_pdu (text "cosem_pdu") 1 (192 ∷ []) in
      let two : at + 1 + 1 ≡ at + 2 = omega arith in
      let normal = parse-normal f r0 in
      let body : parse (suc (suc (suc f))) m fin ci_get_request_normal [] (at + 1 + 1) r0
          ≡ parsed (at + 13) (normal_results m at) =
        rw two normal in
      let get =
        parse-choice m fin (suc (suc (suc f))) ci_get_request _ _ _ _ (at + 1) 1 r0 refl
          (omega arith) kind (omega arith) in
      let pdu =
        parse-choice m fin (suc (suc (suc (suc f)))) ci_cosem_pdu _ _ _ _ at 192 [] refl
          (omega arith) tag (omega arith) in
      pdu
      ∙ (ap (λ r. after (at + 1) r parsed)
            (get
              ∙ (ap (λ r. after (at + 1 + 1) r parsed) body
                  ∙ after_parsed (at + 1 + 1) (at + 13) (normal_results m at) parsed (omega arith)))
          ∙ after_parsed (at + 1) (at + 13) (normal_results m at) parsed (omega arith))
