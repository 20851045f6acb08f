-- ===== src/MessageBlock.antt =====
-- simulator_meter/common/channel/message_block.cpp and include/channel/message_block.h: the block
-- of 1536 bytes that carries one message, with a read and a write position.
-- An access outside the array, or outside the caller's bytes, is undefined behaviour: `none`.
pub mod Laws
mod Tests
use test.Prelude.{
  ℕ, ◌+◌, ◌-◌, ◌%◌, ◌^◌, List, Option, none, some, Bool, ◌&&◌, leb, ltb, if◌then◌else◌, length,
  take,
}
use test.Prelude.Int.{ℤ, pos, minus_one}
use test.Memory.{Memory, zeroes, copy_to, bytes}

abbrev pub max_data_length : ℕ
max_data_length = 1536

-- `std::size_t`, of 64 bits.
abbrev pub add_size : ℕ → ℕ → ℕ
add_size a b = (a + b) % 2 ^ 64

abbrev pub sub_size : ℕ → ℕ → ℕ
sub_size a b = (a + 2 ^ 64 - b) % 2 ^ 64

-- The array is uninitialised in the source; here it starts with zeroes.
pub record MessageBlock : Type 0 where
  pub base : Memory
  pub rd_ptr : ℕ
  pub wr_ptr : ℕ

unfoldable pub new : MessageBlock
new = record { base = zeroes; rd_ptr = 0; wr_ptr = 0 }

-- `memcpy(base_ + off, buf, n)`, where `buf` points to the listed bytes.
unfoldable pub copy_in : Memory → ℕ → List ℕ → ℕ → Option Memory
copy_in m off buf n =
    if leb n (length buf) && leb (off + n) max_data_length
    then some (copy_to m off (take n buf))
    else none

unfoldable pub new_from : List ℕ → ℕ → Option MessageBlock
unfolding copy_in new
new_from base n =
    if ltb 0 n && ltb n max_data_length
    then elim (copy_in zeroes 0 base n) [
      | none ↦ none
      | some m ↦ some (record { base = m; rd_ptr = 0; wr_ptr = add_size 0 n })
    ]
    else some new

abbrev pub size : MessageBlock → ℕ
size mb = max_data_length

-- The method `length`.
abbrev pub data_length : MessageBlock → ℕ
data_length mb = sub_size mb.wr_ptr mb.rd_ptr

abbrev pub length_base : MessageBlock → ℕ
length_base mb = mb.wr_ptr

abbrev pub space : MessageBlock → ℕ
space mb = sub_size max_data_length (sub_size mb.wr_ptr mb.rd_ptr)

-- `wr_ptr(std::size_t)` and `rd_ptr(std::size_t)`.
unfoldable pub advance_wr : ℕ → MessageBlock → MessageBlock
advance_wr n mb = record mb { wr_ptr = add_size mb.wr_ptr n }

unfoldable pub advance_rd : ℕ → MessageBlock → MessageBlock
advance_rd n mb = record mb { rd_ptr = add_size mb.rd_ptr n }

-- `wr_ptr(unsigned char *)` and `rd_ptr(unsigned char *)`: the pointer is given by its offset.
unfoldable pub set_wr : ℕ → MessageBlock → MessageBlock
set_wr off mb = record mb { wr_ptr = off }

unfoldable pub set_rd : ℕ → MessageBlock → MessageBlock
set_rd off mb = record mb { rd_ptr = off }

unfoldable pub copy : List ℕ → ℕ → MessageBlock → Option (ℤ × MessageBlock)
unfolding copy_in advance_wr
copy buf n mb =
    if leb n (space mb)
    then elim (copy_in mb.base mb.wr_ptr buf n) [
      | none ↦ none
      | some m ↦ some (pos 0, advance_wr n (record mb { base = m }))
    ]
    else some (minus_one, mb)

unfoldable pub reset : MessageBlock → MessageBlock
reset mb = record mb { rd_ptr = 0; wr_ptr = 0 }

-- The bytes between the two positions: what a reader of `rd_ptr()` and `length()` gets.
abbrev pub contents : MessageBlock → List ℕ
contents mb = bytes mb.base mb.rd_ptr (data_length mb)
