-- ===== src/AsnParser/Parse.antt =====
-- simulator_meter/common/ptcl_codec/asn_parser.h: `parse_buf` of the parsers. `m` is the memory of the
-- message, `fin` the offset behind it, which every call that a parser makes keeps: `len` is `fin` less
-- the offset of `buf`. A parse calls itself on what it finds in the message, to any depth: it has fuel.
pub mod Depth
pub mod Endless
pub mod Normal
pub mod Results
mod Tests
use test.Prelude.{
  ℕ, zero, suc, ◌+◌, ◌-◌, ◌*◌, ◌/◌, ◌%◌, ◌^◌, List, [], ◌∷◌, ◌++◌, Option, none, some, Bool, ◌&&◌,
  leb, ltb, ◌==◌, if◌then◌else◌, length,
}
use test.Memory.{Memory, bytes}
use test.Security.{word_bytes}
use test.AsnParser.{
  AsnType, code, Text, text, ci_data, ci_cosem_attribute_descriptor, ci_selective_access_descriptor,
  ci_cosem_pdu,
}
use test.AsnParser.Grammar.{
  Parser, sequence_parser, choice_parser, sequence_of_data, sequence_of_with_list,
  ber_sequence_parser, fixed_length_type, unfixed_length_type, create_parser, items_of,
}

-- `result_item`; `buf` are the bytes that were set, in front of zeroes.
pub record ResultItem : Type 0 where
  pub tid : AsnType
  pub des : Text
  pub size : ℕ
  pub buf : List ℕ

abbrev pub ResultSet : Type 0
ResultSet = List ResultItem

-- The offset behind what was read, or -1; in both cases with the results so far. A read outside the
-- buffer, or a write outside `buf`, is a fault.
pub data Parsed : Type 0 where
  parsed : ℕ → ResultSet → Parsed
  failed : ResultSet → Parsed
  faulted : Parsed
  out_of_fuel : Parsed

abbrev pub push : ResultSet → AsnType → Text → ℕ → List ℕ → ResultSet
push rs t des n bs = rs ++ (record { tid = t; des = des; size = n % 2 ^ 16; buf = bs } ∷ [])

-- Where the byte can be read.
abbrev within : ℕ → Parsed → Parsed
within last r = if ltb last 1536 then r else faulted

-- What a caller does with the result of a parser at `start`: a negative length is a failure.
unfoldable pub after : ℕ → Parsed → (ℕ → ResultSet → Parsed) → Parsed
after start (parsed at rs) next = if ltb at start then failed rs else next at rs
after start (failed rs) next = failed rs
after start faulted next = faulted
after start out_of_fuel next = out_of_fuel

-- Where a caller goes on in every case: a failure moves one byte back.
unfoldable pub regardless : ℕ → Parsed → (ℕ → ResultSet → Parsed) → Parsed
regardless start (parsed at rs) next = next at rs
regardless zero (failed rs) next = faulted
regardless (suc before) (failed rs) next = next before rs
regardless start faulted next = faulted
regardless start out_of_fuel next = out_of_fuel

-- "%d"
digits : ℕ → ℕ → List ℕ → List ℕ
digits zero n acc = acc
digits (suc k) n acc =
    let more = digits k (n / 10) ((48 + n % 10) ∷ acc) in
    if ltb n 10 then (48 + n % 10) ∷ acc else more

unfoldable pub decimal : ℕ → List ℕ
unfolding digits
decimal n = digits 10 n []

length_from : Memory → ℕ → ℕ → ℕ → ℕ
length_from m zero at acc = acc
length_from m (suc k) at acc = length_from m k (at + 1) ((acc * 256 + m at) % 2 ^ 32)

-- A length is read, or not, and the rest is done with the offset behind it and its value.
unfoldable pub parse_length_info : Memory → ℕ → ResultSet → (ℕ → ℕ → Parsed) → Parsed
unfolding length_from
parse_length_info m at rs next =
    let count = m at % 128 in
    within at (
      if m at / 128 == 0
      then next (at + 1) count
      else if ltb 4 count
      then failed rs
      else within (at + count) (next (at + 1 + count) (length_from m count (at + 1) 0)))

-- What parses a type, with a prefix, from an offset on.
abbrev pub Run : Type 0
Run = AsnType → Text → ℕ → ResultSet → Parsed

module _ (m : Memory) (fin : ℕ) (run : Run) where
  -- The bits of the mask stand for the items, the first one lowest: an item whose bit is set has a byte
  -- in front that tells whether it is there.
  unfoldable pub run_sequence : List AsnType → ℕ → Text → ℕ → ResultSet → Parsed
  run_sequence [] mask prefix at rs = parsed at rs
  run_sequence (t ∷ ts) mask prefix at rs =
      let skip = run_sequence ts (mask / 2) prefix (at + 1) rs in
      let item : ℕ → Parsed =
        λ from. after from (run t prefix from rs) (run_sequence ts (mask / 2) prefix) in
      if mask % 2 == 1 then within at (if m at == 0 then skip else item (at + 1)) else item at

  unfoldable pub run_choice : ℕ → (ℕ → AsnType) → AsnType → Text → ℕ → ResultSet → Parsed
  run_choice size items t des at rs =
      let found = if code t == 0 then rs else push rs t des 1 (m at ∷ []) in
      within at (
        if leb size (m at)
        then failed rs
        else after (at + 1) (run (items (m at)) [] (at + 1) found) parsed)

  unfoldable pub run_elements : ℕ → ℕ → ResultSet → Parsed
  run_elements zero at rs = parsed at rs
  run_elements (suc n) at rs =
      let onward = regardless at (run ci_data [] at rs) (run_elements n) in
      if ltb at fin then onward else parsed at rs

  -- What follows an attribute in a list: a byte that tells whether there is a selector, whose data are
  -- parsed from that byte on.
  selector : ℕ → ResultSet → (ℕ → ResultSet → Parsed) → Parsed
  selector at rs next =
      let found =
        push rs ci_selective_access_descriptor (text "selective_access_descriptor") 1 (m at ∷ []) in
      within at (
        if m at == 0
        then next (at + 1) found
        else if m at == 1
        then regardless at (run ci_data [] at found) next
        else next at found)

  unfoldable pub run_attributes : ℕ → ℕ → ResultSet → Parsed
  unfolding selector
  run_attributes zero at rs = parsed at rs
  run_attributes (suc n) at rs =
      let onward =
        regardless at (run ci_cosem_attribute_descriptor [] at rs)
          (λ from found. selector from found (run_attributes n)) in
      if ltb at fin then onward else parsed at rs

  -- One round for each item; the tag chooses which.
  unfoldable pub run_ber : List AsnType → ℕ → ℕ → ResultSet → Parsed
  run_ber ts zero at rs = parsed at rs
  run_ber ts (suc n) at rs = within at (
      if leb (length ts) (m at)
      then failed rs
      else after (at + 1) (run (items_of ts (m at)) [] (at + 1) rs) (run_ber ts n))

  -- `(unsigned int)len < data_len + pos`, where `len` is negative behind the end.
  too_long : ℕ → ℕ → Bool
  too_long at n = ltb (if leb at fin then fin - at else 2 ^ 32 - (at - fin)) (n % 2 ^ 32)

  -- `memcpy(ri.buf, buf+pos, data_len)`. The code tests neither bound: a copy of more than the 1024 bytes of
  -- `ri.buf`, or from behind the buffer of the message, is an access outside an array.
  abbrev copied : ℕ → ℕ → Parsed → Parsed
  copied from n done = if leb n 1024 && leb (from + n) 1536 then done else faulted

  -- `parse_buf` of each class.
  unfoldable pub run_parser : Parser → ℕ → ResultSet → Parsed
  unfolding too_long
  run_parser (sequence_parser ts mask prefix) at rs = run_sequence ts mask prefix at rs
  run_parser (choice_parser size items t des) at rs = run_choice size items t des at rs
  run_parser (sequence_of_data t des) at rs =
      parse_length_info m at rs (λ from n. run_elements n from (push rs t des 4 (word_bytes n)))
  run_parser (sequence_of_with_list t des) at rs =
      parse_length_info m at rs (λ from n. run_attributes n from (push rs t des 1 (n % 2 ^ 8 ∷ [])))
  run_parser (ber_sequence_parser ts) at rs =
      within at (if ltb fin (at + m at + 1) then failed rs else run_ber ts (length ts) (at + 1) rs)
  run_parser (fixed_length_type n t des) at rs =
      if ltb fin (at + n)
      then failed rs
      else if leb (at + n) 1536
      then parsed (at + n) (push rs t des n (bytes m at n))
      else faulted
  run_parser (unfixed_length_type t des) at rs = parse_length_info m at rs (λ from n.
      if too_long at (n + (from - at))
      then failed rs
      else copied from n
          (parsed (from + n) (push rs t (des ++ (b'_' ∷ decimal n)) n (bytes m from n))))

-- A call of `create_parser` and of `parse_buf` of what it gives.
unfoldable pub parse : ℕ → Memory → ℕ → Run
parse zero m fin t prefix at rs = out_of_fuel
parse (suc fuel) m fin t prefix at rs = elim (create_parser t prefix) [
  | none ↦ failed rs
  | some p ↦ run_parser m fin (parse fuel m fin) p at rs
]
