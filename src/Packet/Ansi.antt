-- ===== src/Packet/Ansi.antt =====
-- simulator_meter/common/ptcl_codec/ptcl_packet_ansi.cpp: the frames of ANSI meters. The header has
-- the mark 0xee at 0, a 0 at 1, the control byte at 2, the sequence number at 3, the length in the
-- byte order of the network at 4, which counts the function byte at 6, and the data from 7 on; two
-- bytes of check follow. `crc` is boost::crc_optimal with the parameters of the class, over bytes.
pub mod RoundTrip
mod Tests
use test.Prelude.{
  ℕ, ◌+◌, ◌-◌, ◌*◌, ◌/◌, ◌%◌, ◌^◌, List, Option, none, some, Bool, leb, ltb, ◌==◌, ◌!=◌, ◌||◌,
  if◌then◌else◌, length, take,
}
use test.Prelude.Int.{
  ℤ, pos, negsuc, minus_one, ◌+ℤ◌, to_u16, to_u8, sub_ℕ, is_negative, is_positive, lt_int,
}
use test.Memory.{Memory, load16, store16, bytes, copy_to}
use test.Memory.Word.{swap16}
use test.Packet.{Packet, own, foreign, blank, head, set8, set16, copy_in}

unfoldable pub reset : Packet → Packet
reset p = record p {
  header = own;
  len_header = 7;
  data_off = 7;
  len_packet = pos 0;
  len_data_area = pos 0;
}

unfoldable pub new : Packet
unfolding reset
new = reset (blank 0)

-- The result is -1 for a wrong mark. It is -1 also for a data area that has a negative length or does
-- not fit, whose length then stays in the packet.
unfoldable pub parse_header : Packet → Packet × ℤ
parse_header p =
    let n = sub_ℕ (swap16 (load16 (head p) 4)) 1 in
    let q = record p { len_data_area = n } in
    if (head p 0 != 0xee) || (head p 1 != 0)
    then (p, minus_one)
    else if (is_negative n) || (lt_int (pos (1534 - p.len_header)) n)
    then (q, minus_one)
    else (record q { len_packet = pos (p.len_header + 2) +ℤ n }, pos p.len_header)

-- `parse_header(buffer, len_buffer)`
unfoldable pub parse_header_at : Memory → ℤ → Packet → Packet × ℤ
unfolding parse_header reset
parse_header_at buffer len_buffer p =
    if lt_int len_buffer (pos p.len_header)
    then (p, pos 0)
    else parse_header (record (reset p) { header = foreign buffer })

-- The buffer of a caller as one frame; `none` where it does not fit.
unfoldable pub parse_header_suhe : List ℕ → ℕ → Packet → Option (Packet × ℤ)
parse_header_suhe buffer n p = if n == 0 then some (p, pos 0) else elim (copy_in p.mem 0 buffer n) [
  | none ↦ none
  | some m ↦ some (
    record p { mem = m; len_packet = pos n; len_header = 0; len_data_area = pos n; data_off = 0 },
    pos 1,
  )
]

-- `none` is the assertion that fails.
unfoldable pub parse_packet_suhe : Packet → Option ℤ
parse_packet_suhe p =
    if p.mem 0 != 0
    then none
    else if lt_int p.len_packet (pos (swap16 (load16 p.mem 1) + 4))
    then some minus_one
    else some (pos 1)

unfoldable pub get_ctrl_code_area : Packet → ℕ
get_ctrl_code_area p = head p 2

unfoldable pub set_ctrl_code_area : ℕ → Packet → Packet
set_ctrl_code_area ctrl p = set8 2 ctrl p

-- A bit of the control byte, of the weight `w`.
unfoldable pub get_bit : ℕ → Packet → ℕ
get_bit w p = head p 2 / w % 2

unfoldable pub set_bit : ℕ → ℕ → Packet → Packet
set_bit w flag p = set8 2 (head p 2 - w * (head p 2 / w % 2) + w * (flag % 2)) p

abbrev pub get_repeat_flag : Packet → ℕ
get_repeat_flag p = get_bit 32 p

abbrev pub set_repeat_flag : ℕ → Packet → Packet
set_repeat_flag flag p = set_bit 32 flag p

abbrev pub get_mult_first : Packet → ℕ
get_mult_first p = get_bit 64 p

abbrev pub set_mult_first : ℕ → Packet → Packet
set_mult_first first p = set_bit 64 first p

abbrev pub get_mult_flag : Packet → ℕ
get_mult_flag p = get_bit 128 p

abbrev pub set_mult_flag : ℕ → Packet → Packet
set_mult_flag flag p = set_bit 128 flag p

unfoldable pub get_frame_seq : Packet → ℕ
get_frame_seq p = head p 3

unfoldable pub set_frame_seq : ℤ → Packet → Packet
set_frame_seq seq p = set8 3 (to_u8 seq) p

unfoldable pub get_afn : Packet → ℕ
get_afn p = head p 6

unfoldable pub set_afn : ℕ → Packet → Packet
set_afn afn p = set8 6 afn p

module _ (crc : List ℕ → ℕ) where
  -- The header, as it is when the check is computed.
  unfoldable pub format_header : Packet → Packet
  unfolding set8 set16
  format_header p = set16 4 (swap16 (to_u16 (p.len_data_area +ℤ pos 1))) (set8 1 0 (set8 0 0xee p))

  -- `none` where the check is written outside the array.
  unfoldable pub format_packet : Packet → Option Packet
  format_packet p =
      let q = format_header p in
      elim (pos p.len_header +ℤ p.len_data_area) [
        | negsuc k ↦ none
        | pos n ↦
            if leb (n + 2) 1536
            then some (record q {
              mem = store16 q.mem n (crc (bytes q.mem 0 n));
              len_packet = pos (n + 2);
            })
            else none
      ]

  -- The check of the `n` bytes in front of it.
  unfoldable pub checked : ℤ → Packet → Packet × ℤ
  checked (negsuc k) p = (p, minus_one)
  checked (pos n) p =
      if crc (bytes p.mem 0 n) != load16 p.mem n then (p, minus_one) else (p, p.len_packet)

  unfoldable pub parse_packet : Packet → Packet × ℤ
  unfolding parse_header checked
  parse_packet p =
      let (q, result) = parse_header p in
      if is_positive result then checked (pos q.len_header +ℤ q.len_data_area) q else (q, result)
