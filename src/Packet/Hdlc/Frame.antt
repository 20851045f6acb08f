-- ===== src/Packet/Hdlc/Frame.antt =====
-- The memory of a frame that `format_packet` builds.
use test.Prelude.{
  ℕ, zero, suc, ◌+◌, ◌-◌, ◌%◌, ◌^◌, ◌≤◌, ◌<◌, ◌≡◌, ◌≢◌, refl, sym, ap, ◌∙◌, none, some, bit_and,
  arith, ltb, true,
}
use test.Prelude.Int.{pos}
use test.Prelude.Tables.{all_below, all_below-holds, agree_below}
use test.Memory.{Memory, bytes, load16, store16, store}
use test.Memory.Block.{bytes_agree}
use test.Memory.Word.{swap16, swap16-swap16, swap16-lt, load16-store16}
use test.Packet.{Packet}
use test.Packet.Laws.{IsOwn}
use test.Packet.Hdlc.{format_packet, format_word, start_frame, get_crc, claimed_length}
use test.Packet.Hdlc.Crc.{get_crc-lt}

-- Where the length fits the ten bits that `parse_header` looks at, it is read back.
word_read_back : (n : ℕ) → n < 1024 → bit_and (format_word n) 0x03ff ≡ n
unfolding all_below
word_read_back = agree_below 1024 (λ n. bit_and (format_word n) 0x03ff) (λ n. n) refl

word_small : (n : ℕ) → n < 1024 → format_word n ≡ n + 0xa000
unfolding all_below
word_small = agree_below 1024 (λ n. format_word n) (λ n. n + 0xa000) refl

pub claimed_length-word : (n : ℕ) → n < 1012 → claimed_length (format_word (n + 12)) ≡ some (pos n)
unfolding claimed_length
claimed_length-word n h = ground (arith, word_read_back (n + 12) (omega arith))

pub claimed_length-bare : claimed_length (format_word 10) ≡ some (pos 0)
unfolding claimed_length
claimed_length-bare = refl

-- A word that is written behind a range leaves the bytes of the range alone.
bytes-store16 :
    (m : Memory) (at v off n : ℕ) → off + n ≤ at → bytes (store16 m at v) off n ≡ bytes m off n
unfolding store16
bytes-store16 m at v off n h = bytes_agree n (store16 m at v) m off (λ j lo hi. ground arith)

bytes-store :
    (m : Memory) (at v off n : ℕ) → off + n ≤ at → bytes (store m at v) off n ≡ bytes m off n
unfolding store
bytes-store m at v off n h = bytes_agree n (store m at v) m off (λ j lo hi. ground arith)

-- The header that both branches write.
module _ (w : ℕ) (m : Memory) where
  pub start_frame-check :
      let s = start_frame w m in (s 0 ≡ 0x7e) × (load16 s 9 ≡ get_crc (bytes s 1 8))
  unfolding start_frame
  start_frame-check =
      let m1 = store16 (store m 0 0x7e) 1 (swap16 (w % 2 ^ 16)) in
      let c = get_crc (bytes m1 1 8) in
      (
        unfold store16 store in refl,
        load16-store16 m1 9 c (get_crc-lt (bytes m1 1 8))
            ∙ ap get_crc (sym (bytes-store16 m1 9 c 1 8 (omega arith))),
      )

  pub start_frame-word : w < 2 ^ 16 → swap16 (load16 (start_frame w m) 1) ≡ w
  unfolding start_frame
  start_frame-word h =
      let m1 = store16 (store m 0 0x7e) 1 (swap16 (w % 2 ^ 16)) in
      let c = get_crc (bytes m1 1 8) in
      let e : w % 2 ^ 16 ≡ w = omega arith in
      let f : load16 m1 1 ≡ swap16 (w % 2 ^ 16) =
        load16-store16 (store m 0 0x7e) 1 (swap16 (w % 2 ^ 16)) (swap16-lt (w % 2 ^ 16)) in
      let g : load16 (store16 m1 9 c) 1 ≡ load16 m1 1 = unfold load16 store16 in refl in
      ap swap16 (g ∙ f) ∙ rw e (swap16-swap16 w h)

-- The frame that is built around a data area of `n` bytes.
abbrev pub data_frame : ℕ → Memory → Memory
data_frame n m =
    let s = start_frame (format_word (n + 12)) m in
    store (store16 s (n + 11) (get_crc (bytes s 1 (n + 10)))) (n + 13) 0x7e

abbrev pub bare_frame : Memory → Memory
bare_frame m = store (start_frame (format_word 10) m) 11 0x7e

-- `format_packet` on a data area of 1 to 1522 bytes.
pub format_packet-data :
    (n : ℕ) (p : Packet)
    → IsOwn 11 p
    → p.len_data_area ≡ pos n
    → 0 < n
    → n ≤ 1522
    → format_packet p ≡ some (record p { mem = data_frame n p.mem; len_packet = pos (n + 14) })
unfolding format_packet
format_packet-data zero p v e lo hi = absurd (omega arith)
format_packet-data (suc k) p v e lo hi = rw (e, v.head_len, v.at_own) (ground arith)

pub format_packet-bare :
    (p : Packet)
    → IsOwn 11 p
    → p.len_data_area ≡ pos 0
    → format_packet p ≡ some (record p { mem = bare_frame p.mem; len_packet = pos 12 })
unfolding format_packet
format_packet-bare p v e = rw (e, v.head_len, v.at_own) (ground arith)

-- A data area of 1523 bytes or more makes `format_packet` write outside the packet's array.
pub format_packet_overruns :
    (n : ℕ) (p : Packet) → IsOwn 11 p → p.len_data_area ≡ pos n → 1522 < n → format_packet p ≡ none
unfolding format_packet
format_packet_overruns zero p v e h = absurd (omega arith)
format_packet_overruns (suc k) p v e h = rw (e, v.head_len, v.at_own) (ground arith)

module _ (n : ℕ) (m : Memory) (small : n ≤ 1522) where
  frame-eq-start : (j : ℕ) → j < n + 11 → data_frame n m j ≡ start_frame (format_word (n + 12)) m j
  unfolding store store16
  frame-eq-start j h = ground arith

  frame-bytes :
      (off k : ℕ)
      → off + k ≤ n + 11
      → bytes (data_frame n m) off k ≡ bytes (start_frame (format_word (n + 12)) m) off k
  frame-bytes off k h = bytes_agree k _ _ off (λ j lo hi. frame-eq-start j (omega arith))

  frame-load16 :
      (off : ℕ)
      → off + 2 ≤ n + 11
      → load16 (data_frame n m) off ≡ load16 (start_frame (format_word (n + 12)) m) off
  unfolding load16
  frame-load16 off h = ground (arith, frame-eq-start off, frame-eq-start (off + 1))

  frame-crc : load16 (data_frame n m) (n + 11) ≡ get_crc (bytes (data_frame n m) 1 (n + 10))
  frame-crc =
      let s = start_frame (format_word (n + 12)) m in
      let c = get_crc (bytes s 1 (n + 10)) in
      let e : load16 (data_frame n m) (n + 11) ≡ load16 (store16 s (n + 11) c) (n + 11) =
        unfold load16 store in ground arith in
      e
      ∙ load16-store16 s (n + 11) c (get_crc-lt (bytes s 1 (n + 10)))
      ∙ ap get_crc (sym (frame-bytes 1 (n + 10) (omega arith)))

  frame-end : data_frame n m (n + 13) ≡ 0x7e
  unfolding store
  frame-end = ground arith

  start-data : (w : ℕ) → bytes (start_frame w m) 11 n ≡ bytes m 11 n
  unfolding start_frame store store16
  start-data w = bytes_agree n _ m 11 (λ j lo hi. ground arith)

  -- The payload stands where it stood.
  pub frame-data : bytes (data_frame n m) 11 n ≡ bytes m 11 n
  frame-data = frame-bytes 11 n (omega arith) ∙ start-data (format_word (n + 12))

  -- The check sequences and the two flags of the built frame are those that a receiver wants.
  pub frame-intact :
      (data_frame n m 0 ≡ 0x7e)
      × (load16 (data_frame n m) 9 ≡ get_crc (bytes (data_frame n m) 1 8))
      × (load16 (data_frame n m) (n + 11) ≡ get_crc (bytes (data_frame n m) 1 (n + 10)))
      × (data_frame n m (n + 13) ≡ 0x7e)
  frame-intact =
      let (flag, hcs) = start_frame-check (format_word (n + 12)) m in
      (
        frame-eq-start 0 (omega arith) ∙ flag,
        frame-load16 9 (omega arith) ∙ hcs ∙ ap get_crc (sym (frame-bytes 1 8 (omega arith))),
        frame-crc,
        frame-end,
      )

  pub frame-word : n < 1012 → claimed_length (swap16 (load16 (data_frame n m) 1)) ≡ some (pos n)
  frame-word h =
      let w = format_word (n + 12) in
      let e = frame-load16 1 (omega arith) in
      let f = start_frame-word w m (omega (arith, word_small (n + 12) (omega arith))) in
      rw (e, f) (claimed_length-word n h)

longer_misread : (k : ℕ) → k < 511 → ltb (bit_and (format_word (k + 1024)) 0x03ff) 1024 ≡ true
unfolding all_below
longer_misread k h =
    all_below-holds 511 (λ k. ltb (bit_and (format_word (k + 1024)) 0x03ff) 1024) k refl h

-- The format word has eleven bits for the length, of which `parse_header` reads ten: the length of a
-- data area of 1012 to 1522 bytes, which `format_packet` accepts, is never the one read back.
pub claimed_length_misread :
    (n : ℕ) → 1012 ≤ n → n ≤ 1522 → claimed_length (format_word (n + 12)) ≢ some (pos n)
unfolding claimed_length
claimed_length_misread n lo hi =
    let e : n + 12 ≡ (n - 1012) + 1024 = omega arith in
    let h = longer_misread (n - 1012) (omega arith) in rw e (λ p. ground arith)
