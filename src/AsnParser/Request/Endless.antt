-- ===== src/AsnParser/Request/Endless.antt =====
-- simulator_meter/common/ptcl_codec/asn_parser.h: a get-request-normal whose selector has data that the
-- parsers never finish.
use test.Prelude.{
  ℕ, suc, ◌+◌, ◌-◌, ◌%◌, ◌≤◌, ◌<◌, ◌≡◌, refl, ap, sym, ◌∙◌, arith, List, [], ◌∷◌, none, true, false,
  ltb, ◌==◌,
}
use test.Memory.{Memory, bytes}
use test.AsnParser.{
  AsnType, Text, text, ci_data, ci_cosem_pdu, ci_unsigned8, ci_get_request, ci_get_request_normal,
  ci_invoke_id_and_priority, ci_cosem_attribute_descriptor, ci_selective_access_descriptor,
}
use test.AsnParser.Grammar.{create_parser}
use test.AsnParser.Parse.{
  ResultSet, Parsed, parsed, out_of_fuel, push, after, run_sequence, run_parser, parse,
}
use test.AsnParser.Parse.Depth.{less_fuel}
use test.AsnParser.Parse.Endless.{array_endless}
use test.AsnParser.Parse.Normal.{
  parse_as, parse-fixed, parse-choice, parse-descriptor, run_sequence-item, descriptor,
}
use test.AsnParser.Block
use test.AsnParser.Request.{is_whole, parse_block}

module _ (m : Memory) (fin : ℕ) (run : AsnType → Text → ℕ → ResultSet → Parsed) where
  item_endless :
      (t : AsnType) (ts : List AsnType) (mask at : ℕ) (rs : ResultSet)
      → mask % 2 ≡ 0
      → run t [] at rs ≡ out_of_fuel
      → run_sequence m fin run (t ∷ ts) mask [] at rs ≡ out_of_fuel
  unfolding run_sequence after
  item_endless t ts mask at rs e p = rw (e, p) refl

  -- An item with a byte in front that says that it is there.
  chosen_endless :
      (t : AsnType) (ts : List AsnType) (mask at tag : ℕ) (rs : ResultSet)
      → mask % 2 ≡ 1
      → at < 1536
      → m at ≡ suc tag
      → run t [] (at + 1) rs ≡ out_of_fuel
      → run_sequence m fin run (t ∷ ts) mask [] at rs ≡ out_of_fuel
  unfolding run_sequence after
  chosen_endless t ts mask at tag rs e h b p =
      let inside : ltb at 1536 ≡ true = ground arith in
      let there : (suc tag == 0) ≡ false = ground arith in rw (e, inside, b, there, p) refl

module _ (m : Memory) (at : ℕ) (room : at + 17 ≤ 1536) (tag : m at ≡ 192) (kind : m (at + 1) ≡ 1)
    (chosen : m (at + 12) ≡ 1) (array : m (at + 14) ≡ 1) (count : m (at + 15) ≡ 5)
    (number : m (at + 16) ≡ 5) where
  fin : ℕ
  fin = at + 17

  data_endless : (f : ℕ) (rs : ResultSet) → parse f m fin ci_data [] (at + 14) rs ≡ out_of_fuel
  unfolding fin
  data_endless f rs =
      let e1 : at + 14 + 1 ≡ at + 15 = omega arith in
      let e2 : at + 14 + 2 ≡ at + 16 = omega arith in
      let e3 : at + 17 ≡ at + 14 + 3 = omega arith in
      rw e3 (array_endless m (at + 14) (omega arith) array (rw e1 count) (rw e2 number) f rs)

  selector_endless :
      (f : ℕ) (rs : ResultSet)
      → parse (suc (suc f)) m fin ci_selective_access_descriptor [] (at + 13) rs ≡ out_of_fuel
  unfolding fin run_parser create_parser
  selector_endless f rs =
      let run = parse (suc f) m fin in
      let r1 = push rs ci_unsigned8 (text "unsigned8") 1 (bytes m (at + 13) 1) in
      let e1 =
        parse-fixed m fin f ci_unsigned8 ci_unsigned8 [] (text "unsigned8") 1 (at + 13) rs refl
          (omega arith) (omega arith) in
      let first : at + 13 + 1 ≡ at + 14 = omega arith in
      parse_as m fin (suc f) ci_selective_access_descriptor [] _ (at + 13) rs refl
      ∙ (run_sequence-item m fin run ci_unsigned8 (ci_data ∷ []) 4 (at + 13) (at + 14) rs r1 refl
            (rw (sym first) e1) (omega arith)
          ∙ item_endless m fin run ci_data [] 2 (at + 14) r1 refl (data_endless (suc f) r1))

  normal_endless :
      (f : ℕ) (rs : ResultSet)
      → parse (suc (suc (suc f))) m fin ci_get_request_normal [] (at + 2) rs ≡ out_of_fuel
  unfolding fin run_parser create_parser
  normal_endless f rs =
      let run = parse (suc (suc f)) m fin in
      let r1 =
        push rs ci_invoke_id_and_priority (text "invoke_id_and_priority") 1 (bytes m (at + 2) 1) in
      let r2 = descriptor m (at + 3) r1 in
      let e1 =
        parse-fixed m fin (suc f) ci_invoke_id_and_priority ci_invoke_id_and_priority []
          (text "invoke_id_and_priority") 1 (at + 2) rs refl (omega arith) (omega arith) in
      let e2 = parse-descriptor m fin f (at + 3) r1 (omega arith) (omega arith) in
      let first : at + 2 + 1 ≡ at + 3 = omega arith in
      let second : at + 3 + 9 ≡ at + 12 = omega arith in
      let third : at + 12 + 1 ≡ at + 13 = omega arith in
      parse_as m fin (suc (suc f)) ci_get_request_normal [] _ (at + 2) rs refl
      ∙ (run_sequence-item m fin run ci_invoke_id_and_priority
            (ci_cosem_attribute_descriptor ∷ ci_selective_access_descriptor ∷ []) 4 (at + 2)
            (at + 3) rs r1 refl (rw (sym first) e1) (omega arith)
          ∙ (run_sequence-item m fin run ci_cosem_attribute_descriptor
                (ci_selective_access_descriptor ∷ []) 2 (at + 3) (at + 12) r1 r2 refl
                (rw (sym second) e2) (omega arith)
              ∙ chosen_endless m fin run ci_selective_access_descriptor [] 1 (at + 12) 0 r2 refl
                  (omega arith) chosen (rw third (selector_endless f r2))))

  request_endless :
      (f : ℕ) → parse (suc (suc (suc (suc (suc f))))) m fin ci_cosem_pdu [] at [] ≡ out_of_fuel
  unfolding create_parser after
  request_endless f =
      let r0 = push [] ci_cosem_pdu (text "cosem_pdu") 1 (192 ∷ []) in
      let two : at + 1 + 1 ≡ at + 2 = omega arith in
      let normal = normal_endless f r0 in
      let body : parse (suc (suc (suc f))) m fin ci_get_request_normal [] (at + 1 + 1) r0
          ≡ out_of_fuel =
        rw two normal in
      let get =
        parse-choice m fin (suc (suc (suc f))) ci_get_request _ _ _ _ (at + 1) 1 r0 refl
          (omega arith) kind (omega arith) in
      let pdu =
        parse-choice m fin (suc (suc (suc (suc f)))) ci_cosem_pdu _ _ _ _ at 192 [] refl
          (omega arith) tag (omega arith) in
      pdu ∙ ap (λ r. after (at + 1) r parsed) (get ∙ ap (λ r. after (at + 1 + 1) r parsed) body)

  -- A get-request-normal of 17 bytes with a selector whose data are the bytes 1, 5, 5, whatever it names,
  -- is parsed without end.
  pub parse_block_endless : (fuel : ℕ) → parse_block fuel m (at + 17) at ≡ none
  unfolding is_whole parse_block Block.parse_block Block.returned fin
  parse_block_endless fuel =
      ap (λ r. is_whole (at + 17 - at) (Block.returned at r))
        (less_fuel m (at + 17) fuel (suc (suc (suc (suc (suc fuel))))) ci_cosem_pdu [] at []
          (omega arith) (request_endless fuel))
