-- ===== src/MessageBlock/Tests.antt =====
-- Blocks with concrete bytes.
use test.Prelude.{ℕ, ◌≡◌, refl, List, [], ◌∷◌, ◌++◌, none, some, arith, take, ltb, if◌then◌else◌}
use test.Prelude.Int.{ℤ, pos, minus_one}
use test.Memory.{bytes}
use test.MessageBlock.{MessageBlock, max_data_length, new, new_from, copy, contents}
use test.MessageBlock.Laws.{
  IsValid, copy_appends, copy_refused, copy_overruns, copy_safe, new_from_lem,
}

abbrev three : List ℕ
three = 7 ∷ 8 ∷ 9 ∷ []

-- Two bytes at offsets 1 and 2.
abbrev part_read : MessageBlock
part_read = record { base = λ i. i; rd_ptr = 1; wr_ptr = 3 }

-- A full block of which 100 bytes are read.
abbrev full_read : MessageBlock
full_read = record { base = λ i. 5; rd_ptr = 1535; wr_ptr = 1536 }

contents-part_read : contents part_read ≡ 1 ∷ 2 ∷ []
unfolding bytes
contents-part_read = refl

copy_appends_example :
    (mb' : MessageBlock) × (copy three 3 part_read ≡ some (pos 0, mb'))
    × (contents mb' ≡ contents part_read ++ three)
    × IsValid mb'
copy_appends_example = copy_appends three 3 part_read (omega arith) (omega arith) (omega arith)

copy_refused_example : copy three 1600 part_read ≡ some (minus_one, part_read)
copy_refused_example = copy_refused three 1600 part_read (omega arith) (omega arith)

copy_overruns_example : copy three 3 full_read ≡ none
copy_overruns_example = copy_overruns three 3 full_read (omega arith) (omega arith) (omega arith)

copy_safe_example : (r : ℤ × MessageBlock) × (copy three 3 new ≡ some r) × IsValid r.1
unfolding new
copy_safe_example = copy_safe three 3 new (omega arith) refl (omega arith)

new_from_lem_example :
    (mb : MessageBlock) × (new_from three 2 ≡ some mb)
    × (contents mb ≡ (if ltb 2 max_data_length then take 2 three else []))
new_from_lem_example = new_from_lem three 2 (omega arith)
