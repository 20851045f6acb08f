-- ===== src/Packet/Ansi/RoundTrip.antt =====
-- An ANSI frame that `format_packet` builds, sent as bytes and parsed by the peer.
use test.Prelude.{ℕ, ◌+◌, ◌-◌, ◌^◌, ◌≤◌, ◌<◌, ◌≡◌, ◌≢◌, subst, ap, sym, ◌∙◌, List, some, arith}
use test.Prelude.Int.{pos}
use test.Memory.{Memory, bytes, load16, store16, store}
use test.Memory.Block.{bytes_agree}
use test.Memory.Word.{swap16, swap16-swap16, swap16-lt, load16-store16}
use test.Packet.{Packet, max_packet_length, set_packet_buffer, packet_bytes, data_bytes}
use test.Packet.Laws.{
  IsOwn, received, mem-received, bytes-received, load16-received, set_packet_buffer-received,
}
use test.Packet.Ansi.{format_header, format_packet, parse_packet}

module _ (crc : List ℕ → ℕ) where
  -- What a receiver checks of a frame with a data area of `n` bytes.
  pub record IsFrame (n : ℕ) (m : Memory) : Type 0 where
    pub mark : m 0 ≡ 0xee
    pub fill : m 1 ≡ 0
    pub claim : swap16 (load16 m 4) ≡ n + 1
    pub check : load16 m (n + 7) ≡ crc (bytes m 0 (n + 7))

  -- The frame that is sent.
  abbrev frame : ℕ → Packet → Packet
  frame n p =
      let q = format_header crc p in
      record q {
        mem = store16 q.mem (n + 7) (crc (bytes q.mem 0 (n + 7)));
        len_packet = pos (n + 9);
      }

  module _ (n : ℕ) (p : Packet) (v : IsOwn 7 p) (e : p.len_data_area ≡ pos n) (h : n ≤ 1527) where
    format_packet-frame : format_packet crc p ≡ some (frame n p)
    unfolding format_packet
    format_packet-frame = ground arith

    header_marks :
        let m = (format_header crc p).mem in
        (m 0 ≡ 0xee) × (m 1 ≡ 0) × (swap16 (load16 m 4) ≡ n + 1)
    unfolding format_header load16 store16 store
    header_marks =
        let s = swap16-lt (n + 1) in
        let r = swap16-swap16 (n + 1) (omega arith) in
        (ground arith, ground arith, ground (arith, s, r))

    header_others : (j : ℕ) → j ≢ 0 → j ≢ 1 → j ≢ 4 → j ≢ 5 → (format_header crc p).mem j ≡ p.mem j
    unfolding format_header store16 store
    header_others j a b c d = ground arith

  parse_packet-IsFrame :
      (n : ℕ) (p : Packet)
      → IsOwn 7 p
      → n ≤ 1527
      → IsFrame n p.mem
      → parse_packet crc p
        ≡ (record p { len_data_area = pos n; len_packet = pos (n + 9) }, pos (n + 9))
  unfolding parse_packet
  parse_packet-IsFrame n p v h f = ground arith

  IsFrame-received : (n : ℕ) (q r : Packet) → IsFrame n q.mem → IsFrame n (received q (n + 9) r).mem
  IsFrame-received n q r f = record {
    mark = mem-received q (n + 9) r 0 (omega arith) ∙ f.mark;
    fill = mem-received q (n + 9) r 1 (omega arith) ∙ f.fill;
    claim = ap swap16 (load16-received q (n + 9) r 4 (omega arith)) ∙ f.claim;
    check =
        load16-received q (n + 9) r (n + 7) (omega arith)
        ∙ f.check
        ∙ sym (ap crc (bytes-received q (n + 9) r 0 (n + 7) (omega arith)));
  }

  load16-before :
      (m : Memory) (off v at : ℕ) → at + 1 < off → load16 (store16 m off v) at ≡ load16 m at
  unfolding store16 store load16
  load16-before m off v at h = ground arith

  store16-before : (m : Memory) (off v j : ℕ) → j < off → store16 m off v j ≡ m j
  unfolding store16 store
  store16-before m off v j h = ground arith

  module _ (n : ℕ) (p : Packet) (v : IsOwn 7 p) (e : p.len_data_area ≡ pos n) (h : n ≤ 1527)
      (width : (bs : List ℕ) → crc bs < 2 ^ 16) where
    IsFrame-frame : IsFrame n (frame n p).mem
    IsFrame-frame =
        let q = format_header crc p in
        let sum = crc (bytes q.mem 0 (n + 7)) in
        let (mark, fill, claim) = header_marks n p v e h in
        record {
          mark = store16-before q.mem (n + 7) sum 0 (omega arith) ∙ mark;
          fill = store16-before q.mem (n + 7) sum 1 (omega arith) ∙ fill;
          claim = ap swap16 (load16-before q.mem (n + 7) sum 4 (omega arith)) ∙ claim;
          check =
              load16-store16 q.mem (n + 7) sum (width (bytes q.mem 0 (n + 7)))
              ∙ ap crc (
                  bytes_agree (n + 7) q.mem (frame n p).mem 0
                    (λ j lo hi. sym (store16-before q.mem (n + 7) sum j (omega arith))));
        }

    -- A payload of at most 1527 bytes arrives whole: a peer after `reset` that receives the frame accepts
    -- it with its length, and finds the payload, the control byte, the sequence number and the function
    -- in it. The check is any function whose results have 16 bits.
    pub parse_ansi-format_ansi :
        (r : Packet)
        → IsOwn 7 r
        → (q r' r'' : Packet) × (format_packet crc p ≡ some q)
          × (set_packet_buffer (some (packet_bytes q)) q.len_packet r ≡ some r')
          × (parse_packet crc r' ≡ (r'', pos (n + 9)))
          × (data_bytes r'' ≡ data_bytes p)
          × (bytes r''.mem 2 2 ≡ bytes p.mem 2 2)
          × (r''.mem 6 ≡ p.mem 6)
    parse_ansi-format_ansi r w =
        let q = frame n p in
        let r' = received q (n + 9) r in
        let w' : IsOwn 7 r' = record { at_own = w.at_own; head_len = w.head_len; area = w.area } in
        let same : (j : ℕ) → j < n + 7 → j ≢ 0 → j ≢ 1 → j ≢ 4 → j ≢ 5 → q.mem j ≡ p.mem j =
          λ j i a b c d.
            store16-before (format_header crc p).mem (n + 7) _ j i
            ∙ header_others n p v e h j a b c d in
        let area : bytes r'.mem 7 n ≡ bytes p.mem 7 n =
          bytes-received q (n + 9) r 7 n (omega arith)
          ∙ bytes_agree n q.mem p.mem 7 (λ j lo hi.
            same j (omega arith) (omega arith) (omega arith) (omega arith) (omega arith)) in
        (
          q,
          r',
          record r' { len_data_area = pos n; len_packet = pos (n + 9) },
          format_packet-frame n p v e h,
          set_packet_buffer-received q (n + 9) r (omega arith),
          parse_packet-IsFrame n r' w' h (IsFrame-received n q r IsFrame-frame),
          ground (arith, area),
          bytes-received q (n + 9) r 2 2 (omega arith)
              ∙ bytes_agree 2 q.mem p.mem 2 (λ j lo hi.
                same j (omega arith) (omega arith) (omega arith) (omega arith) (omega arith)),
          mem-received q (n + 9) r 6 (omega arith)
              ∙ same 6 (omega arith) (omega arith) (omega arith) (omega arith) (omega arith),
        )

  -- Where `parse_packet` reports a length, the frame has the mark and the byte 0 behind it, and the two
  -- bytes behind the `k - 2` that the length counts are the check of those; the length is at most 1536.
  pub parse_ansi_sound :
      (p : Packet) (k : ℕ)
      → IsOwn 7 p
      → (parse_packet crc p).1 ≡ pos k
      → (p.mem 0 ≡ 0xee)
        × (p.mem 1 ≡ 0)
        × (k ≤ max_packet_length)
        × (k ≡ swap16 (load16 p.mem 4) + 8)
        × (load16 p.mem (k - 2) ≡ crc (bytes p.mem 0 (k - 2)))
  unfolding parse_packet
  parse_ansi_sound p k w h =
      let s = swap16 (load16 p.mem 4) in
      let total : k ≡ s + 8 = ground arith in
      let some_data : 1 ≤ s = ground arith in
      let at : 7 + (s - 1) ≡ k - 2 = omega arith in
      let check : load16 p.mem (7 + (s - 1)) ≡ crc (bytes p.mem 0 (7 + (s - 1))) = ground arith in
      (
        ground arith,
        ground arith,
        ground arith,
        total,
        subst (λ i. load16 p.mem i ≡ crc (bytes p.mem 0 i)) at check,
      )
