-- ===== src/Packet/Hdlc/RoundTrip.antt =====
-- An HDLC frame that `format_packet` builds, sent as bytes and parsed by the peer.
use test.Prelude.{bit_and, ℕ, suc, ◌+◌, ◌≤◌, ◌≡◌, ◌∙◌, some, arith}
use test.Prelude.Int.{pos, minus_one}
use test.Memory.{Memory, bytes, load16}
use test.Memory.Word.{swap16}
use test.Packet.{Packet, own, set_packet_buffer, packet_bytes, data_bytes}
use test.Packet.Laws.{IsOwn, received, mem-received, bytes-received, set_packet_buffer-received}
use test.Packet.Hdlc.{format_packet, parse_packet, get_crc, claimed_length}
use test.Packet.Hdlc.Frame.{data_frame, format_packet-data, frame-intact, frame-word, frame-data}

-- What a receiver checks of a frame with a data area of `n > 0` bytes.
pub record IsFrame (n : ℕ) (m : Memory) : Type 0 where
  pub flag : m 0 ≡ 0x7e
  pub word : claimed_length (swap16 (load16 m 1)) ≡ some (pos n)
  pub hcs : load16 m 9 ≡ get_crc (bytes m 1 8)
  pub crc : load16 m (n + 11) ≡ get_crc (bytes m 1 (n + 10))
  pub tail : m (n + 13) ≡ 0x7e

-- A received frame that passes every check is accepted with its whole length.
parse_packet-IsFrame :
    (n : ℕ) (p : Packet)
    → IsOwn 11 p
    → n ≤ 1011
    → IsFrame (suc n) p.mem
    → parse_packet p
      ≡ some (
        record p { len_data_area = pos (suc n); len_packet = pos (suc n + 14) },
        pos (suc n + 14),
      )
unfolding parse_packet
parse_packet-IsFrame n p v h f = ground arith

module _ (n : ℕ) (q p : Packet) where
  received-load16 : (off : ℕ) → off + 2 ≤ n → load16 (received q n p).mem off ≡ load16 q.mem off
  unfolding load16
  received-load16 off h = ground (arith, mem-received q n p off, mem-received q n p (off + 1))

IsFrame-received : (n : ℕ) (q p : Packet) → IsFrame n q.mem → IsFrame n (received q (n + 14) p).mem
IsFrame-received n q p f =
    let k = n + 14 in
    let b8 = bytes-received q k p 1 8 (omega arith) in
    let bn = bytes-received q k p 1 (n + 10) (omega arith) in
    record {
      flag = mem-received q k p 0 (omega arith) ∙ f.flag;
      word = rw (received-load16 k q p 1 (omega arith)) f.word;
      hcs = rw (received-load16 k q p 9 (omega arith), b8) f.hcs;
      crc = rw (received-load16 k q p (n + 11) (omega arith), bn) f.crc;
      tail = mem-received q k p (n + 13) (omega arith) ∙ f.tail;
    }

IsFrame-data_frame : (n : ℕ) (m : Memory) → n ≤ 1011 → IsFrame n (data_frame n m)
IsFrame-data_frame n m h =
    let (flag, hcs, crc, tail) = frame-intact n m (omega arith) in
    record {
      flag = flag;
      word = frame-word n m (omega arith) (omega arith);
      hcs = hcs;
      crc = crc;
      tail = tail;
    }

-- A payload of 1 to 1011 bytes arrives whole: `format_packet` builds a frame, and a peer after
-- `reset` that receives its bytes accepts them, reports their number, and finds the payload in its
-- data area.
pub parse_packet-format_data :
    (n : ℕ) (p r : Packet)
    → IsOwn 11 p
    → IsOwn 11 r
    → p.len_data_area ≡ pos (suc n)
    → n ≤ 1010
    → (q r' r'' : Packet) × (format_packet p ≡ some q)
      × (set_packet_buffer (some (packet_bytes q)) q.len_packet r ≡ some r')
      × (parse_packet r' ≡ some (r'', pos (suc n + 14)))
      × (data_bytes r'' ≡ data_bytes p)
      × (packet_bytes r'' ≡ packet_bytes q)
parse_packet-format_data n p r v w e h =
    let k = suc n + 14 in
    let q = record p { mem = data_frame (suc n) p.mem; len_packet = pos k } in
    let r' = received q k r in
    let w' : IsOwn 11 r' = record { at_own = w.at_own; head_len = w.head_len; area = w.area } in
    let f = IsFrame-received (suc n) q r (IsFrame-data_frame (suc n) p.mem (omega arith)) in
    (
      q,
      r',
      record r' { len_data_area = pos (suc n); len_packet = pos k },
      format_packet-data (suc n) p v e (omega arith) (omega arith),
      set_packet_buffer-received q k r (omega arith),
      parse_packet-IsFrame n r' w' (omega arith) f,
      rw (w.area, e, v.area)
          (bytes-received q k r 11 (suc n) (omega arith) ∙ frame-data (suc n) p.mem (omega arith)),
      bytes-received q k r 0 k (omega arith),
    )

-- `parse_packet` accepts only what it was meant to check: where the header is in the packet's own buffer, as
-- after `reset`, and a length is reported, the frame
-- begins and ends with the flag 0x7e, the check sequence of the header is right, and so is that of
-- the data area where there is one.
pub parse_packet_sound :
    (p q : Packet) (k : ℕ)
    → p.header ≡ own
    → parse_packet p ≡ some (q, pos (suc k))
    → (p.mem 0 ≡ 0x7e)
      × (load16 p.mem 9 ≡ get_crc (bytes p.mem 1 8))
      × (p.mem k ≡ 0x7e)
      × ((n : ℕ)
          → q.len_data_area ≡ pos (suc n)
          → load16 p.mem (suc n + 11) ≡ get_crc (bytes p.mem 1 (suc n + 10)))
unfolding parse_packet
parse_packet_sound p q k o h = (ground arith, ground arith, ground arith, λ n e. ground arith)

-- A header that claims the length 11, one byte more than a frame without data has, passes: the
-- frame is accepted with a data area of -1 bytes, and no check sequence of the data is looked at.
pub length_eleven_accepted :
    (p : Packet)
    → IsOwn 11 p
    → p.mem 0 ≡ 0x7e
    → bit_and (swap16 (load16 p.mem 1)) 0x03ff ≡ 11
    → load16 p.mem 9 ≡ get_crc (bytes p.mem 1 8)
    → p.mem 12 ≡ 0x7e
    → parse_packet p ≡ some (record p { len_data_area = minus_one; len_packet = pos 13 }, pos 13)
unfolding parse_packet claimed_length
length_eleven_accepted p v flag word hcs tail = ground arith
