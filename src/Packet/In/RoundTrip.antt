-- ===== src/Packet/In/RoundTrip.antt =====
-- An internal frame that `format_packet` builds, sent as bytes and parsed by the peer.
use test.Prelude.{ℕ, ◌+◌, ◌%◌, ◌^◌, ◌≤◌, ◌≡◌, ◌≢◌, ap, ◌∙◌, some, arith}
use test.Prelude.Int.{pos}
use test.Memory.{bytes, load16, store16, store}
use test.Memory.Block.{bytes_agree}
use test.Memory.Word.{swap16, swap16-swap16, swap16-lt}
use test.Packet.{Packet, max_packet_length, set_packet_buffer, packet_bytes, data_bytes, head}
use test.Packet.Laws.{
  IsOwn, received, mem-received, bytes-received, load16-received, set_packet_buffer-received,
}
use test.Packet.In.{format_packet, parse_packet}

-- A packet ready to be sent with a data area of `n` bytes.
pub record IsReady (n : ℕ) (p : Packet) : Type 0 where
  pub fresh : IsOwn 24 p
  pub filled : p.len_data_area ≡ pos n
  pub fits : n + 24 ≤ max_packet_length

module _ (n : ℕ) (p : Packet) (v : IsReady n p) where
  format_packet-len : (format_packet p).len_packet ≡ pos (n + 24)
  unfolding format_packet
  format_packet-len = ground arith

  format_packet-marks : ((format_packet p).mem 0 ≡ 0x68) × ((format_packet p).mem 23 ≡ 0x16)
  unfolding format_packet store16 store
  format_packet-marks = (ground arith, ground arith)

  format_packet-length : swap16 (load16 (format_packet p).mem 21) ≡ n
  unfolding format_packet load16 store16 store
  format_packet-length =
      let s = swap16-lt (n % 2 ^ 16) in
      let r = swap16-swap16 n (omega arith) in ground (arith, s, r)

  format_packet-others :
      (j : ℕ) → j ≢ 0 → j ≢ 21 → j ≢ 22 → j ≢ 23 → (format_packet p).mem j ≡ p.mem j
  unfolding format_packet store16 store
  format_packet-others j a b c d = ground arith

-- An internal frame with a payload of at most 1512 bytes is accepted by a peer after `reset`, with its
-- length; the payload and the header's bytes 1 to 20 are the sender's.
pub parse_in-format_in :
    (n : ℕ) (p r : Packet)
    → IsReady n p
    → IsOwn 24 r
    → (r' : Packet) × (set_packet_buffer
          (some (packet_bytes (format_packet p)))
          (format_packet p).len_packet
          r
        ≡ some r')
      × ((parse_packet r').1 ≡ pos (n + 24))
      × (data_bytes (parse_packet r').0 ≡ data_bytes p)
      × (bytes (parse_packet r').0.mem 1 20 ≡ bytes p.mem 1 20)
unfolding parse_packet
parse_in-format_in n p r v w =
    let q = format_packet p in
    let e = format_packet-len n p v in
    let (start, end) = format_packet-marks n p v in
    let got = received q (n + 24) r in
    let m0 : got.mem 0 ≡ 0x68 = mem-received q (n + 24) r 0 (omega arith) ∙ start in
    let m23 : got.mem 23 ≡ 0x16 = mem-received q (n + 24) r 23 (omega arith) ∙ end in
    let claimed : swap16 (load16 got.mem 21) ≡ n =
      ap swap16 (load16-received q (n + 24) r 21 (omega arith)) ∙ format_packet-length n p v in
    let same = format_packet-others n p v in
    let area : bytes got.mem 24 n ≡ bytes p.mem 24 n =
      bytes-received q (n + 24) r 24 n (omega arith)
      ∙ bytes_agree n q.mem p.mem 24
          (λ j lo hi. same j (omega arith) (omega arith) (omega arith) (omega arith)) in
    let fields : bytes got.mem 1 20 ≡ bytes p.mem 1 20 =
      bytes-received q (n + 24) r 1 20 (omega arith)
      ∙ bytes_agree 20 q.mem p.mem 1
          (λ j lo hi. same j (omega arith) (omega arith) (omega arith) (omega arith)) in
    (
      got,
      rw e (set_packet_buffer-received q (n + 24) r (omega arith)),
      ground arith,
      ground arith,
      ground arith,
    )

-- Where `parse_packet` reports a length, the frame has the two marks, and the length, which is that of
-- the header and of the data area that the header claims, is at most 1536.
pub parse_in_sound :
    (p : Packet) (k : ℕ)
    → IsOwn 24 p
    → (parse_packet p).1 ≡ pos k
    → (head p 0 ≡ 0x68)
      × (head p 23 ≡ 0x16)
      × (k ≡ 24 + swap16 (load16 (head p) 21))
      × (k ≤ max_packet_length)
unfolding parse_packet
parse_in_sound p k w h = (ground arith, ground arith, ground arith, ground arith)
