-- ===== src/Packet/Dlms47/RoundTrip.antt =====
-- A frame that `format_packet` builds, sent as bytes and parsed by the peer.
use test.Prelude.{ℕ, ◌+◌, ◌%◌, ◌^◌, ◌≤◌, ◌≡◌, ◌≢◌, refl, some, arith}
use test.Prelude.Int.{pos, minus_one}
use test.Memory.{bytes, load16, store16}
use test.Memory.Block.{bytes_agree}
use test.Memory.Word.{swap16, swap16-swap16, swap16-lt}
use test.Packet.{Packet, max_packet_length, set_packet_buffer, packet_bytes, data_bytes}
use test.Packet.Laws.{IsOwn, received, bytes-received, load16-received, set_packet_buffer-received}
use test.Packet.Dlms47.{format_packet, parse_packet, get_src_port}

-- A packet ready to be sent with a data area of `n` bytes.
pub record IsReady (n : ℕ) (p : Packet) : Type 0 where
  pub fresh : IsOwn 8 p
  pub filled : p.len_data_area ≡ pos n
  pub fits : n + 8 ≤ max_packet_length

module _ (n : ℕ) (p : Packet) (v : IsReady n p) where
  pub format_packet-len : (format_packet p).len_packet ≡ pos (n + 8)
  unfolding format_packet
  format_packet-len = ground arith

  format_packet-mem :
      (format_packet p).mem ≡ store16 (store16 p.mem 0 0x0100) 6 (swap16 (n % 2 ^ 16))
  unfolding format_packet
  format_packet-mem = ground arith

  -- The words of the built header, and the data area behind it.
  format_packet-words :
      let m = (format_packet p).mem in
      (load16 m 0 ≡ 0x0100)
      × (load16 m 2 ≡ load16 p.mem 2)
      × (load16 m 4 ≡ load16 p.mem 4)
      × (swap16 (load16 m 6) ≡ n)
  unfolding load16 store16
  format_packet-words =
      let e = format_packet-mem in
      let s = swap16-lt (n % 2 ^ 16) in
      let r = swap16-swap16 n (omega arith) in rw e (refl, refl, refl, ground (arith, s, r))

  pub format_packet-data : bytes (format_packet p).mem 8 n ≡ bytes p.mem 8 n
  unfolding store16
  format_packet-data = rw format_packet-mem (bytes_agree n _ p.mem 8 (λ j lo hi. ground arith))

-- A frame with a payload of at most 1528 bytes arrives whole: the peer accepts its bytes, reports
-- their number, finds the payload in its data area, and reads the sender's source port. The peer is
-- any packet after `reset`.
pub parse_packet-format_packet :
    (n : ℕ) (p r : Packet)
    → IsReady n p
    → IsOwn 8 r
    → (r' : Packet) × (set_packet_buffer
          (some (packet_bytes (format_packet p)))
          (format_packet p).len_packet
          r
        ≡ some r')
      × ((parse_packet r').1 ≡ pos (n + 8))
      × (data_bytes (parse_packet r').0 ≡ data_bytes p)
      × (get_src_port (parse_packet r').0 ≡ get_src_port p)
      × (packet_bytes (parse_packet r').0 ≡ packet_bytes (format_packet p))
unfolding parse_packet get_src_port
parse_packet-format_packet n p r v w =
    let q = format_packet p in
    let e = format_packet-len n p v in
    let (w0, w2, w4, w6) = format_packet-words n p v in
    let d = format_packet-data n p v in
    let got = received q (n + 8) r in
    let g0 = load16-received q (n + 8) r 0 (omega arith) in
    let g2 = load16-received q (n + 8) r 2 (omega arith) in
    let g6 = load16-received q (n + 8) r 6 (omega arith) in
    let gd = bytes-received q (n + 8) r 8 n (omega arith) in
    let ga = bytes-received q (n + 8) r 0 (n + 8) (omega arith) in
    (
      got,
      rw e (set_packet_buffer-received q (n + 8) r (omega arith)),
      ground arith,
      ground arith,
      ground arith,
      ground arith,
    )

-- The length that the header claims is not compared with what was received: a frame of `n` bytes
-- with the right version is accepted with whatever length its header claims, also a longer one, and
-- a frame with another version is refused with -1.
pub parse_packet_unchecked :
    (n : ℕ) (q r : Packet)
    → 8 ≤ n
    → IsOwn 8 r
    → let result = (parse_packet (received q n r)).1 in
      (load16 q.mem 0 ≡ 0x0100 → result ≡ pos (swap16 (load16 q.mem 6) + 8))
      × (load16 q.mem 0 ≢ 0x0100 → result ≡ minus_one)
unfolding parse_packet
parse_packet_unchecked n q r h w =
    let g0 = load16-received q n r 0 (omega arith) in
    let g6 = load16-received q n r 6 (omega arith) in (λ e. ground arith, λ e. ground arith)
