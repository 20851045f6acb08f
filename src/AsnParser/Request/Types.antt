-- ===== src/AsnParser/Request/Types.antt =====
-- simulator_meter/common/ptcl_codec/ptcl_cosem_dlms.cpp: what the results of a parsed message hold, and
-- `get_request_type`, which looks for a result that no parser leaves.
use test.Prelude.{ℕ, ◌-◌, ◌≡◌, refl, arith, [], ◌∷◌, All, some, false, ◌==◌}
use test.Prelude.Options.{Always, Always-map}
use test.Prelude.Int.{ℤ, sub_ℕ, pos, negsuc, minus_one}
use test.Memory.{Memory}
use test.AsnParser.{code, ci_cosem_pdu, ci_get_request}
use test.AsnParser.Parse.{ResultSet, Parsed, parsed, failed, faulted, out_of_fuel, parse}
use test.AsnParser.Parse.Results.{IsFit, Leaves, parse-Leaves}
use test.AsnParser.Items.{extract_results}
use test.AsnParser.Block
use test.AsnParser.Request.{is_whole, parse_block, get_request_type}

counted :
    (len : ℕ) (n : ℤ) (rs : ResultSet)
    → All IsFit rs
    → Always (λ x. All IsFit x.1) (is_whole len (some (n, rs)))
unfolding Always is_whole
counted len (pos n) rs h = h
counted len (negsuc n) rs h = h

returned-Leaves :
    (len at : ℕ) (r : Parsed)
    → Leaves r
    → Always (λ x. All IsFit x.1) (is_whole len (Block.returned at r))
unfolding Always is_whole Leaves Block.returned
returned-Leaves len at (parsed end rs) h = counted len (sub_ℕ end at) rs h
returned-Leaves len at (failed rs) h = h
returned-Leaves len at faulted h = tt
returned-Leaves len at out_of_fuel h = tt

-- Every result of a request fits its array, holds what its length says, and is not the choice of a
-- get-request, whether or not the message was parsed to its end.
parse_block-IsFit :
    (fuel : ℕ) (m : Memory) (fin at : ℕ) → Always (λ x. All IsFit x.1) (parse_block fuel m fin at)
unfolding parse_block Block.parse_block
parse_block-IsFit fuel m fin at =
    returned-Leaves (fin - at) at (parse fuel m fin ci_cosem_pdu [] at [])
      (parse-Leaves fuel m fin ci_cosem_pdu [] at [] tt)

none_found : (rs : ResultSet) → All IsFit rs → extract_results ci_get_request rs ≡ []
unfolding extract_results
none_found [] h = refl
none_found (r ∷ rs) (h, hs) =
    let other : (code r.tid == 42) ≡ false = let u = h.other in ground arith in
    rw (other) (none_found rs hs)

-- `get_request_type` of a request that was parsed, to its end or not, is -1: the parser of a get-request
-- leaves its choice with the type ci_null, which is not kept.
pub no_request_type :
    (fuel : ℕ) (m : Memory) (fin at : ℕ)
    → Always (λ x. get_request_type x.1 ≡ minus_one) (parse_block fuel m fin at)
unfolding get_request_type
no_request_type fuel m fin at =
    Always-map _ _ (parse_block fuel m fin at) (λ x h. rw (none_found x.1 h) refl)
      (parse_block-IsFit fuel m fin at)
