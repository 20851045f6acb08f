-- ===== src/AsnParser/Parse/Tests.antt =====
-- Parses of concrete bytes.
use test.Prelude.{◌≡◌, refl, arith, [], ◌∷◌}
use test.Prelude.Options.{Always}
use test.Prelude.Int.{minus_one}
use test.Memory.{Memory, zeroes, copy_to}
use test.AsnParser.{ci_cosem_pdu}
use test.AsnParser.Parse.{parsed, parse}
use test.AsnParser.Parse.Normal.{normal_results, parse-request}
use test.AsnParser.Request.{parse_block, get_request_type}
use test.AsnParser.Request.Types.{no_request_type}

-- A get-request-normal for the time of the clock.
abbrev request : Memory
request = copy_to zeroes 0 (192 ∷ 1 ∷ 193 ∷ 0 ∷ 8 ∷ 0 ∷ 0 ∷ 1 ∷ 0 ∷ 0 ∷ 255 ∷ 2 ∷ 0 ∷ [])

first : request 0 ≡ 192
unfolding copy_to
first = refl

second : request 1 ≡ 1
unfolding copy_to
second = refl

last : request 12 ≡ 0
unfolding copy_to
last = refl

request_parsed : parse 5 request 13 ci_cosem_pdu [] 0 [] ≡ parsed 13 (normal_results request 0)
request_parsed = parse-request request 13 0 (omega arith) (omega arith) first second last 0

no_request_type_example :
    Always (λ x. get_request_type x.1 ≡ minus_one) (parse_block 5 request 13 0)
no_request_type_example = no_request_type 5 request 13 0
