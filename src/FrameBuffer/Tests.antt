-- ===== src/FrameBuffer/Tests.antt =====
-- A frame buffer with concrete bytes.
use test.Prelude.{◌≡◌, refl, [], ◌∷◌, some, true, false, arith, replicate}
use test.Prelude.Int.{pos, negsuc, minus_one}
use test.MessageBlock.{MessageBlock, contents}
use test.MessageBlock.Laws.{IsValid}
use test.FrameBuffer.{FrameBuffer, find, at, extract_block, get_block}
use test.FrameBuffer.Laws.{extract_block_lem, extract_block_short, get_block_lem}

abbrev five : FrameBuffer
five = record { buffer = 104 ∷ 7 ∷ 8 ∷ 22 ∷ 104 ∷ [] }

abbrev block : MessageBlock
block = record { base = λ i. 0; rd_ptr = 0; wr_ptr = 4 }

abbrev long : FrameBuffer
long = record { buffer = replicate 1600 9 }

find_second : find (pos 1) 104 five ≡ pos 4
unfolding find
find_second = refl

find_negative : find (negsuc 0) 104 five ≡ minus_one
unfolding find
find_negative = refl

at_negative : at (negsuc 3) five ≡ 0
unfolding at
at_negative = refl

extract_block_lem_example :
    (mb' : MessageBlock) × (fb' : FrameBuffer) × (extract_block (pos 1) (pos 3) block five
      ≡ some (true, mb', fb'))
    × (contents mb' ≡ 7 ∷ 8 ∷ 22 ∷ [])
    × (fb'.buffer ≡ 104 ∷ 104 ∷ [])
    × IsValid mb'
extract_block_lem_example = extract_block_lem 1 3 block five (omega arith) (omega arith)

get_block_lem_example :
    (mb' : MessageBlock) × (get_block (pos 1) (pos 3) block five ≡ some (true, mb'))
    × (contents mb' ≡ 7 ∷ 8 ∷ 22 ∷ [])
    × IsValid mb'
get_block_lem_example = get_block_lem 1 3 block five (omega arith) (omega arith)

extract_block_short_example : extract_block (pos 3) (pos 3) block five ≡ some (false, block, five)
extract_block_short_example = extract_block_short 3 3 block five (omega arith)
