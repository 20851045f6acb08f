-- ===== src/FrameBuffer.antt =====
-- simulator_meter/fee/meter_simulator/frame_buffer.cpp and frame_buffer.h: the bytes received and
-- not yet taken out as frames, a `std::basic_string<unsigned char>`. Each method holds the mutex
-- for its whole body, so a method is one step. An access out of range is `none`.
pub mod Laws
mod Tests
use test.Prelude.{
  ℕ, zero, suc, ◌+◌, List, [], ◌∷◌, ◌++◌, Option, none, some, Bool, true, false, ◌&&◌, ltb, leb,
  ◌==◌, if◌then◌else◌, length, take, drop, get_or,
}
use test.Prelude.Int.{ℤ, pos, negsuc, minus_one, ◌+ℤ◌, to_size}
use test.MessageBlock
use test.MessageBlock.{MessageBlock}

pub record FrameBuffer : Type 0 where
  pub buffer : List ℕ

unfoldable pub empty : FrameBuffer
empty = record { buffer = [] }

-- `buffer_.append(buf, buf+len)`, where `buf` points to the listed bytes.
unfoldable pub add : List ℕ → ℕ → FrameBuffer → Option FrameBuffer
add buf len fb =
    if leb len (length buf) then some (record { buffer = fb.buffer ++ take len buf }) else none

-- `std::basic_string::find(value, begin)` on the bytes from `begin` on, which stand at index `i`;
-- `npos` becomes -1 as an `int`.
find_from : ℕ → ℕ → List ℕ → ℤ
find_from value i [] = minus_one
find_from value i (b ∷ bs) =
    let rest = find_from value (i + 1) bs in if b == value then pos i else rest

unfoldable pub find : ℤ → ℕ → FrameBuffer → ℤ
unfolding find_from
find begin value fb = find_from value (to_size begin) (drop (to_size begin) fb.buffer)

abbrev pub size : FrameBuffer → ℕ
size fb = length fb.buffer

-- `operator[]`: a position at or behind the end reads 0, and so does a negative one.
unfoldable pub at : ℤ → FrameBuffer → ℕ
at i fb = if leb (size fb) (to_size i) then 0 else get_or fb.buffer (to_size i) 0

-- The value is assigned only where the answer is true.
unfoldable pub get_value : ℤ → FrameBuffer → Option ℕ
get_value i fb = if leb (size fb) (to_size i) then none else some (get_or fb.buffer (to_size i) 0)

-- `buffer_.erase(buffer_.begin()+begin, buffer_.begin()+begin+length)`
erase_range : ℤ → ℤ → FrameBuffer → Option FrameBuffer
erase_range (pos b) (pos n) fb =
    if leb (b + n) (size fb)
    then some (record { buffer = take b fb.buffer ++ drop (b + n) fb.buffer })
    else none
erase_range _ _ fb = none

unfoldable pub remove : ℤ → ℤ → FrameBuffer → Option FrameBuffer
unfolding erase_range
remove begin n fb = erase_range begin n fb

unfoldable pub clear : FrameBuffer → FrameBuffer
clear fb = record { buffer = [] }

-- `mb.copy(buffer_.data()+begin, len)`: the pointer must lie in the string.
copy_out : ℤ → ℤ → FrameBuffer → MessageBlock → Option MessageBlock
copy_out (pos b) len fb mb =
    if leb b (size fb)
    then elim (MessageBlock.copy (drop b fb.buffer) (to_size len) mb) [
      | none ↦ none
      | some (r, mb') ↦ some mb'
    ]
    else none
copy_out (negsuc b) len fb mb = none

unfoldable pub get_block : ℤ → ℤ → MessageBlock → FrameBuffer → Option (Bool × MessageBlock)
unfolding copy_out
get_block begin len mb fb =
    if ltb (size fb) (to_size (begin +ℤ len))
    then some (false, mb)
    else elim (copy_out begin len fb (MessageBlock.reset mb)) [
      | none ↦ none
      | some mb' ↦ some (true, mb')
    ]

unfoldable pub extract_block :
    ℤ → ℤ → MessageBlock → FrameBuffer → Option (Bool × MessageBlock × FrameBuffer)
unfolding copy_out remove
extract_block begin len mb fb =
    if ltb (size fb) (to_size (begin +ℤ len))
    then some (false, mb, fb)
    else elim (copy_out begin len fb (MessageBlock.reset mb)) [
      | none ↦ none
      | some mb' ↦ elim (remove begin len fb) [ none ↦ none | some fb' ↦ some (true, mb', fb') ]
    ]
