-- ===== src/AsnParser/Request/Reading.antt =====
-- simulator_meter/common/ptcl_codec/ptcl_cosem_dlms.cpp: what ptcl_cosem_request reads back of a
-- get-request-normal.
use test.Prelude.{
  ℕ, suc, ◌+◌, ◌-◌, ◌*◌, ◌≤◌, ◌≡◌, refl, subst, ap, ◌∙◌, arith, List, [], ◌∷◌, ◌++◌, some, true,
  leb,
}
use test.Prelude.Int.{sub_ℕ, pos}
use test.Memory.{Memory, bytes}
use test.AsnParser.{Text}
use test.AsnParser.Parse.Normal.{normal_results, parse-request}
use test.AsnParser.Items.{
  hex2, to_formatted_obis, extract_results, contains, starts_with, find_item,
}
use test.AsnParser.Block
use test.AsnParser.Request.{
  is_whole, parse_block, get_class_id, get_obis, get_attr_id, is_access_selector,
}

-- "%02X" of each byte.
abbrev pub hex_text : List ℕ → Text
hex_text [] = []
hex_text (b ∷ bs) = hex2 b ++ hex_text bs

sub_ℕ-add : (a n : ℕ) → sub_ℕ (a + n) a ≡ pos n
sub_ℕ-add a n =
    let t : leb a (a + n) ≡ true = ground arith in
    let e : a + n - a ≡ n = omega arith in rw (t, e) refl

module _ (m : Memory) (at : ℕ) (room : at + 13 ≤ 1536) (tag : m at ≡ 192) (kind : m (at + 1) ≡ 1)
    (plain : m (at + 12) ≡ 0) where
  parse_block-request :
      (f : ℕ)
      → parse_block (suc (suc (suc (suc (suc f))))) m (at + 13) at
        ≡ some (true, normal_results m at)
  unfolding is_whole parse_block Block.parse_block Block.returned
  parse_block-request f =
      let e = parse-request m (at + 13) at (omega arith) room tag kind plain f in
      let n = sub_ℕ-add at 13 in
      let t : leb (at + 13 - at) 13 ≡ true = ground arith in
      ap (λ r. is_whole (at + 13 - at) (Block.returned at r)) e ∙ rw (n, t) refl

  pub parse_block_request :
      (fuel : ℕ) → 5 ≤ fuel → parse_block fuel m (at + 13) at ≡ some (true, normal_results m at)
  parse_block_request fuel h =
      let e : suc (suc (suc (suc (suc (fuel - 5))))) ≡ fuel = omega arith in
      subst (λ n. parse_block n m (at + 13) at ≡ some (true, normal_results m at)) e
        (parse_block-request (fuel - 5))

  -- What the request reads of its results.
  pub normal-get_class_id : get_class_id (normal_results m at) ≡ m (at + 3) * 256 + m (at + 4)
  unfolding get_class_id extract_results bytes
  normal-get_class_id = let e : at + 3 + 1 ≡ at + 4 = omega arith in rw (e) refl

  pub normal-get_obis : get_obis (normal_results m at) ≡ hex_text (bytes m (at + 5) 6)
  unfolding get_obis extract_results bytes to_formatted_obis
  normal-get_obis = let e : at + 3 + 2 ≡ at + 5 = omega arith in rw (e) refl

  pub normal-get_attr_id : get_attr_id (normal_results m at) ≡ m (at + 11)
  unfolding get_attr_id extract_results bytes
  normal-get_attr_id = let e : at + 3 + 8 ≡ at + 11 = omega arith in rw (e) refl

  pub normal-is_access_selector : is_access_selector (normal_results m at) ≡ 0
  unfolding is_access_selector find_item contains starts_with
  normal-is_access_selector = refl
