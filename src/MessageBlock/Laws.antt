-- ===== src/MessageBlock/Laws.antt =====
-- What a message block holds after each operation.
use test.Prelude.{
  ℕ, zero, suc, ltb, if◌then◌else◌, Bool-cases, inl, inr, ◌+◌, ◌-◌, ◌≤◌, ◌<◌, ◌≡◌, refl, List, [],
  ◌++◌, none, some, arith, length, take, length-take,
}
use test.Prelude.Int.{ℤ, pos, minus_one}
use test.Memory.{copy_to, bytes}
use native.Mathlib.Decide.{dec_le}
use test.Memory.Block.{bytes-add, bytes-append}
use test.MessageBlock.{
  MessageBlock, max_data_length, new, new_from, copy_in, data_length, advance_rd, copy, reset,
  contents, sub_size, add_size,
}

-- The positions lie in the array, in order.
pub record IsValid (mb : MessageBlock) : Type 0 where
  pub in_order : mb.rd_ptr ≤ mb.wr_ptr
  pub in_array : mb.wr_ptr ≤ max_data_length

pub data_length-sub : {mb : MessageBlock} → IsValid mb → data_length mb ≡ mb.wr_ptr - mb.rd_ptr
data_length-sub v = omega arith

-- What `copy` leaves behind where it succeeds.
abbrev pub copied : List ℕ → ℕ → MessageBlock → MessageBlock
copied buf n mb = record mb {
  base = copy_to mb.base mb.wr_ptr (take n buf);
  wr_ptr = add_size mb.wr_ptr n;
}

contents-copied :
    (buf : List ℕ) (n : ℕ) (mb : MessageBlock)
    → IsValid mb
    → n ≤ length buf
    → mb.wr_ptr + n ≤ max_data_length
    → contents (copied buf n mb) ≡ contents mb ++ take n buf
contents-copied buf n mb v hb hn =
    let e : sub_size (add_size mb.wr_ptr n) mb.rd_ptr
        ≡ (mb.wr_ptr - mb.rd_ptr) + length (take n buf) =
      omega (arith, length-take n buf) in
    let f : mb.rd_ptr + (mb.wr_ptr - mb.rd_ptr) ≡ mb.wr_ptr = omega arith in
    let g : sub_size mb.wr_ptr mb.rd_ptr ≡ mb.wr_ptr - mb.rd_ptr = omega arith in
    rw (e, g) (rw f at (bytes-append (mb.wr_ptr - mb.rd_ptr) (take n buf) mb.base mb.rd_ptr))

-- On a valid block, a copy of bytes that fit behind the write position succeeds with 0, keeps the
-- block valid, and adds exactly those bytes to the end of its contents.
pub copy_appends :
    (buf : List ℕ) (n : ℕ) (mb : MessageBlock)
    → IsValid mb
    → n ≤ length buf
    → mb.wr_ptr + n ≤ max_data_length
    → (mb' : MessageBlock) × (copy buf n mb ≡ some (pos 0, mb'))
      × (contents mb' ≡ contents mb ++ take n buf)
      × IsValid mb'
unfolding copy
copy_appends buf n mb v hb hn =
    (copied buf n mb, ground arith, contents-copied buf n mb v hb hn, omega arith)

-- A copy of more bytes than `space()` answers -1 and leaves the block as it was.
pub copy_refused :
    (buf : List ℕ) (n : ℕ) (mb : MessageBlock)
    → IsValid mb
    → max_data_length - (mb.wr_ptr - mb.rd_ptr) < n
    → copy buf n mb ≡ some (minus_one, mb)
unfolding copy
copy_refused buf n mb v h = ground arith

-- `space()` counts the bytes before the read position as free, but `copy` writes behind the write
-- position: on a valid block, a length that `space()` allows and that does not fit behind the write
-- position makes `copy` write outside the array.
pub copy_overruns :
    (buf : List ℕ) (n : ℕ) (mb : MessageBlock)
    → IsValid mb
    → n ≤ max_data_length - (mb.wr_ptr - mb.rd_ptr)
    → max_data_length < mb.wr_ptr + n
    → copy buf n mb ≡ none
unfolding copy
copy_overruns buf n mb v h k = ground arith

-- With nothing read from the block, no length makes `copy` leave the array, if the caller's bytes
-- are there: it succeeds, or answers -1.
pub copy_safe :
    (buf : List ℕ) (n : ℕ) (mb : MessageBlock)
    → IsValid mb
    → mb.rd_ptr ≡ 0
    → n ≤ length buf
    → (r : ℤ × MessageBlock) × (copy buf n mb ≡ some r) × IsValid r.1
copy_safe buf n mb v e hb = elim (dec_le (mb.wr_ptr + n) max_data_length) [
  | yes h ↦ let (mb', p, c, w) = copy_appends buf n mb v hb h in ((pos 0, mb'), p, w)
  | no h ↦ ((minus_one, mb), copy_refused buf n mb v (omega arith), v)
]

pub new-IsValid : IsValid new
unfolding new
new-IsValid = omega arith

pub reset-IsValid : (mb : MessageBlock) → IsValid (reset mb) × (contents (reset mb) ≡ [])
unfolding reset bytes
reset-IsValid mb = (omega arith, refl)

-- A reader that takes `k` bytes off the front leaves the rest.
pub contents-advance_rd :
    (k : ℕ) (mb : MessageBlock)
    → IsValid mb
    → k ≤ mb.wr_ptr - mb.rd_ptr
    → (contents mb ≡ bytes mb.base mb.rd_ptr k ++ contents (advance_rd k mb))
      × IsValid (advance_rd k mb)
unfolding advance_rd
contents-advance_rd k mb v h =
    let e : sub_size mb.wr_ptr mb.rd_ptr ≡ k + (mb.wr_ptr - mb.rd_ptr - k) = omega arith in
    let f : sub_size mb.wr_ptr (add_size mb.rd_ptr k) ≡ mb.wr_ptr - mb.rd_ptr - k = omega arith in
    let g : add_size mb.rd_ptr k ≡ mb.rd_ptr + k = omega arith in
    (rw (f, g, e) (bytes-add k (mb.wr_ptr - mb.rd_ptr - k) mb.base mb.rd_ptr), omega arith)

-- A block made from fewer than 1536 bytes holds them; one made from none, or from more, is empty.
pub new_from_lem :
    (buf : List ℕ) (n : ℕ)
    → n ≤ length buf
    → (mb : MessageBlock) × (new_from buf n ≡ some mb)
      × (contents mb ≡ (if ltb n max_data_length then take n buf else []))
unfolding new_from copy_in new bytes
new_from_lem buf zero h = (new, refl, refl)
new_from_lem buf (suc n) h = elim (Bool-cases (ltb (suc n) max_data_length)) [
  | inl fits ↦ (
    copied buf (suc n) new,
    ground (arith, length-take (suc n) buf),
    rw fits (contents-copied buf (suc n) new new-IsValid h (ground arith)),
  )
  | inr big ↦ (new, ground arith, rw big)
]
