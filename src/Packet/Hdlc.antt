-- ===== src/Packet/Hdlc.antt =====
-- simulator_meter/common/ptcl_codec/ptcl_packet_hdlc.cpp and include/ptcl_codec/ptcl_packet_hdlc.h:
-- the HDLC frame. The header has 11 bytes: 0x7e, the format word at 1, four bytes of device address
-- and one of the host at 3 (in the other order where a device sends), the control byte at 8 and the
-- check sequence `hcs` at 9. `kind` is `is_send_packet_`.
mod Table
pub mod Crc
pub mod Frame
pub mod RoundTrip
pub mod Fields
mod Tests
pub use Table.{crc_tab}
use test.Prelude.{
  ℕ, zero, suc, ◌+◌, ◌-◌, ◌*◌, ◌/◌, ◌%◌, ◌^◌, List, [], ◌∷◌, Option, none, some, Bool, true, false,
  leb, ltb, ◌==◌, ◌!=◌, if◌then◌else◌, get_or, bit_xor, bit_and, bit_or,
}
use test.Prelude.Int.{ℤ, pos, negsuc, minus_one, ◌+ℤ◌, is_positive, sub_ℕ, eq_int, to_u16}
use test.Memory.{Memory, store, store16, load16, bytes}
use test.Memory.Word.{swap16, swap32}
use test.Packet.{
  Packet, Header, own, foreign, blank, head, set8, set16, set32, max_packet_length, put_head,
}

unfoldable pub reset : Packet → Packet
reset p = record p {
  header = own;
  len_header = 11;
  data_off = 11;
  len_packet = pos 0;
  len_data_area = pos 0;
}

unfoldable pub new : ℕ → Packet
unfolding reset
new packet_type = reset (blank packet_type)

-- One round: `crc = (crc >> 8) ^ crc_tab_[(crc^buffer[n]) & 0xff]`.
unfoldable pub crc_step : ℕ → ℕ → ℕ
crc_step crc b = bit_xor (crc / 2 ^ 8) (get_or crc_tab (bit_and (bit_xor crc b) 0xff) 0) % 2 ^ 16

unfoldable pub crc_loop : ℕ → List ℕ → ℕ
crc_loop crc [] = crc
crc_loop crc (b ∷ bs) = crc_loop (crc_step crc b) bs

unfoldable pub get_crc : List ℕ → ℕ
unfolding crc_loop crc_step
get_crc buffer = bit_xor (crc_loop 0xffff buffer) 0xffff % 2 ^ 16

-- `memcpy(buf_packet_+off, &v, 2)` and `buf_packet_[off] = v`, outside the array `none`.
put16 : ℕ → ℕ → Memory → Option Memory
put16 off v m = if leb (off + 2) max_packet_length then some (store16 m off v) else none

put8 : ℕ → ℕ → Memory → Option Memory
put8 off v m = if leb (off + 1) max_packet_length then some (store m off v) else none

-- The three assignments that both branches of `format_packet` begin with, `format_word` being
-- the value of `length` there, where `frame_header_` points to the packet's own buffer.
unfoldable pub start_frame : ℕ → Memory → Memory
start_frame format_word m =
    let m1 = store16 (store m 0 0x7e) 1 (swap16 (format_word % 2 ^ 16)) in
    store16 m1 9 (get_crc (bytes m1 1 8))

-- The same where it points to bytes of the caller: the assignments are to these, but the two bytes that are
-- reversed and those of the check sequence are the packet's own.
start_packet : Header → ℕ → Packet → Packet
start_packet own word p = record p { mem = start_frame word p.mem }
start_packet (foreign k) word p =
    let m = store16 p.mem 1 (swap16 (load16 p.mem 1)) in
    record p {
      mem = m;
      header =
          foreign (store16 (store16 (store k 0 0x7e) 1 (word % 2 ^ 16)) 9 (get_crc (bytes m 1 8)));
    }

-- `(length) | (0<<11) | (0x0a<<12)`
abbrev pub format_word : ℕ → ℕ
format_word n = bit_or n 0xa000

-- The branch of `format_packet` for a data area of `n > 0` bytes, and the one for none.
format_data : ℕ → Packet → Option Packet
unfolding start_packet put16 put8
format_data n p =
    let q = start_packet p.header (format_word (n + 10 + 2)) p in
    let m = q.mem in
    elim (put16 (n + 11) (get_crc (bytes m 1 (n + 10))) m) [
      | none ↦ none
      | some m1 ↦ elim (put8 (p.len_header + n + 2) 0x7e m1) [
        | none ↦ none
        | some m2 ↦ some (record q { mem = m2; len_packet = pos (p.len_header + n + 3) })
      ]
    ]

format_bare : ℤ → Packet → Option Packet
unfolding start_packet put8
format_bare n p =
    let q = start_packet p.header (format_word (to_u16 (n +ℤ pos 10))) p in
    elim (pos p.len_header +ℤ n) [
      | negsuc e ↦ none
      | pos e ↦ elim (put8 e 0x7e q.mem) [
        | none ↦ none
        | some m1 ↦ some (record q { mem = m1; len_packet = pos (e + 1) })
      ]
    ]

format_sized : ℤ → Packet → Option Packet
unfolding format_data format_bare
format_sized (pos zero) p = format_bare (pos 0) p
format_sized (pos (suc n)) p = format_data (suc n) p
format_sized (negsuc n) p = format_bare (negsuc n) p

-- `none`: a write outside the packet's array.
unfoldable pub format_packet : Packet → Option Packet
unfolding format_sized
format_packet p = format_sized p.len_data_area p

-- The length of the data area that the format word gives, where it gives one.
unfoldable pub claimed_length : ℕ → Option ℤ
claimed_length word =
    let n = bit_and word 0x03ff in
    if n == 10 then some (pos 0) else if ltb 10 n then some (sub_ℕ n 12) else none

-- `len_header_ + len_data_area_ + 1` without a data area, and `+ 3` with one.
abbrev pub frame_length : ℕ → ℤ → ℤ
frame_length h n = if eq_int n (pos 0) then pos h +ℤ n +ℤ pos 1 else pos h +ℤ n +ℤ pos 3

-- The data area's length is assigned before the check sequence is compared.
check_header : ℤ → Packet → Packet × ℤ
check_header n p =
    if load16 (head p) 9 != get_crc (bytes (head p) 1 8)
    then (record p { len_data_area = n }, minus_one)
    else (
      record p { len_data_area = n; len_packet = frame_length p.len_header n },
      pos p.len_header,
    )

unfoldable pub parse_header : Packet → Packet × ℤ
unfolding check_header
parse_header p =
    if head p 0 != 0x7e
    then (p, minus_one)
    else elim (claimed_length (swap16 (load16 (head p) 1))) [
      | none ↦ (p, minus_one)
      | some n ↦ check_header n p
    ]

-- `buf_packet_[i]`, outside the array `none`.
byte_at : ℤ → Memory → Option ℕ
byte_at (pos i) m = if ltb i max_packet_length then some (m i) else none
byte_at (negsuc i) m = none

-- The check sequence of the data area, where there is one: it must lie in the array.
data_intact : ℤ → Memory → Option Bool
data_intact (negsuc n) m = some true
data_intact (pos zero) m = some true
data_intact (pos (suc n)) m =
    if leb (suc n + 13) max_packet_length
    then some (get_crc (bytes m 1 (suc n + 10)) == load16 m (suc n + 11))
    else none

check_tail : Packet → Option (Packet × ℤ)
unfolding byte_at
check_tail q = elim (byte_at (q.len_packet +ℤ minus_one) q.mem) [
  | none ↦ none
  | some b ↦ some (if b != 0x7e then (q, minus_one) else (q, q.len_packet))
]

-- `none`: a read outside the packet's array.
unfoldable pub parse_packet : Packet → Option (Packet × ℤ)
unfolding parse_header data_intact check_tail
parse_packet p =
    let (q, result) = parse_header p in
    if is_positive result
    then elim (data_intact q.len_data_area q.mem) [
      | none ↦ none
      | some false ↦ some (q, minus_one)
      | some true ↦ check_tail q
    ]
    else some (q, result)

unfoldable pub parse_header_at : Memory → ℤ → Packet → Packet × ℤ
parse_header_at buffer (negsuc n) p = (p, pos 0)
parse_header_at buffer (pos n) p =
    if ltb n p.len_header then (p, pos 0) else parse_header (record p { header = foreign buffer })

-- The device address is in the third and fourth byte of four, seven bits in each.
unfoldable pub get_device_addr : Packet → ℕ
get_device_addr p =
    let m = head p in if p.kind == 1 then m 5 / 2 * 128 + m 6 / 2 else m 6 / 2 * 128 + m 7 / 2

abbrev pub get_frame_seq : Packet → ℤ
get_frame_seq p = pos 0

unfoldable pub get_host_id : Packet → ℕ
get_host_id p = let m = head p in if p.kind == 1 then m 7 / 2 else m 3 / 2

-- `(1<<17)+(high_addr<<9)+(low_addr<<1) + 1`, with its bytes in network order.
unfoldable pub set_device_addr : ℕ → Packet → Packet
set_device_addr dev_addr p =
    let high_addr = dev_addr / 128 % 2 ^ 8 in
    let low_addr = dev_addr % 128 in
    let addr = 2 ^ 17 + high_addr * 2 ^ 9 + low_addr * 2 + 1 in
    if p.kind == 1 then set32 3 (swap32 addr) p else set32 4 (swap32 addr) p

unfoldable pub set_host_id : ℕ → Packet → Packet
set_host_id id p =
    let v = bit_or 0x01 (bit_and (id * 2) 0xfe) in if p.kind == 1 then set8 7 v p else set8 3 v p

abbrev pub set_frame_seq : ℕ → Packet → Packet
set_frame_seq seq p = p

-- The control byte: bit 0 is `cca_end`, bits 1 to 3 `cca_send_seq`, bit 4 `cca_pf`, bits 5 to 7
-- `cca_recv_seq`.
unfoldable pub get_ctrl_code_area : Packet → ℕ
get_ctrl_code_area p = head p 8

unfoldable pub set_ctrl_code_area : ℕ → Packet → Packet
set_ctrl_code_area code p = set8 8 code p

unfoldable pub get_cca_recv_seq : Packet → ℕ
get_cca_recv_seq p = head p 8 / 32 % 8

unfoldable pub set_cca_recv_seq : ℕ → Packet → Packet
set_cca_recv_seq seq p = set8 8 (head p 8 % 32 + seq % 8 * 32) p

unfoldable pub get_cca_pf : Packet → ℕ
get_cca_pf p = head p 8 / 16 % 2

unfoldable pub set_cca_pf : ℕ → Packet → Packet
set_cca_pf pf p = set8 8 (head p 8 / 32 * 32 + pf % 2 * 16 + head p 8 % 16) p

unfoldable pub get_cca_send_seq : Packet → ℕ
get_cca_send_seq p = head p 8 / 2 % 8

unfoldable pub set_cca_send_seq : ℕ → Packet → Packet
set_cca_send_seq seq p = set8 8 (head p 8 / 16 * 16 + seq % 8 * 2 + head p 8 % 2) p

unfoldable pub get_cca_end : Packet → ℕ
get_cca_end p = head p 8 % 2

unfoldable pub set_cca_end : ℕ → Packet → Packet
set_cca_end end p = set8 8 (head p 8 / 2 * 2 + end % 2) p
