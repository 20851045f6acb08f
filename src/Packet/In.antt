-- ===== src/Packet/In.antt =====
-- simulator_meter/common/ptcl_codec/ptcl_packet_in.cpp: the frame of the internal protocol. The header
-- of 24 bytes is: start at 0, sender's number at 1, sender's type at 5, protocol at 6, sequence at 7,
-- event at 8, sub-event at 9, transfer's number at 11, transfer's type at 15, receiver's number at 16,
-- receiver's type at 20, data length at 21, end at 23; words are in network order.
pub mod RoundTrip
pub mod Fields
mod Tests
use test.Prelude.{
  ℕ, ◌+◌, ◌-◌, ◌*◌, ◌/◌, ◌%◌, ◌^◌, List, [], ◌∷◌, Option, none, some, Bool, leb, ltb, ◌==◌, ◌!=◌,
  ◌||◌, if◌then◌else◌,
}
use test.Prelude.Int.{ℤ, pos, negsuc, minus_one, ◌+ℤ◌, to_u16, is_positive, lt_int}
use test.Memory.{Memory, load16, load32}
use test.Memory.Word.{swap16, swap32}
use test.Packet.{Packet, own, foreign, blank, head, set8, set16, set32, max_packet_length}

unfoldable pub reset : Packet → Packet
reset p = record p {
  header = own;
  len_header = 24;
  data_off = 24;
  len_packet = pos 0;
  len_data_area = pos 0;
}

unfoldable pub new : Packet
unfolding reset
new = reset (blank 0)

unfoldable pub format_packet : Packet → Packet
unfolding set8 set16
format_packet p =
    let q = set16 21 (swap16 (to_u16 p.len_data_area)) (set8 0 0x68 p) in
    set8 23 0x16 (record q { len_packet = pos p.len_header +ℤ p.len_data_area })

-- The result is -1 where one of the two marks is missing. It is -1 also for a data area that does not
-- fit, whose length then stays in the packet.
unfoldable pub parse_header : Packet → Packet × ℤ
parse_header p =
    let n = swap16 (load16 (head p) 21) in
    let q = record p { len_data_area = pos n } in
    if (head p 0 != 0x68) || (head p 23 != 0x16)
    then (p, minus_one)
    else if ltb (max_packet_length - p.len_header) n
    then (q, minus_one)
    else (record q { len_packet = pos (p.len_header + n) }, pos p.len_header)

unfoldable pub parse_packet : Packet → Packet × ℤ
unfolding parse_header
parse_packet p =
    let (q, result) = parse_header p in
    if is_positive result then (q, q.len_packet) else (q, result)

-- `parse_header(buffer, len_buffer)`
unfoldable pub parse_header_at : Memory → ℤ → Packet → Packet × ℤ
unfolding parse_header
parse_header_at buffer len_buffer p =
    if lt_int len_buffer (pos p.len_header)
    then (p, pos 0)
    else parse_header (record p { header = foreign buffer })

unfoldable pub get_device_addr : Packet → ℕ
get_device_addr p = 0

unfoldable pub get_host_id : Packet → ℕ
get_host_id p = 0

unfoldable pub get_frame_seq : Packet → ℕ
get_frame_seq p = head p 7

unfoldable pub get_sender_id : Packet → ℕ
get_sender_id p = swap32 (load32 (head p) 1)

unfoldable pub set_sender_id : ℕ → Packet → Packet
set_sender_id id p = set32 1 (swap32 id) p

unfoldable pub get_sender_type : Packet → ℕ
get_sender_type p = head p 5

unfoldable pub set_sender_type : ℕ → Packet → Packet
set_sender_type type p = set8 5 type p

unfoldable pub get_protocol_type : Packet → ℕ
get_protocol_type p = head p 6

unfoldable pub set_protocol_type : ℕ → Packet → Packet
set_protocol_type type p = set8 6 type p

unfoldable pub set_frame_seq : ℕ → Packet → Packet
set_frame_seq seq p = set8 7 seq p

unfoldable pub get_event_type : Packet → ℕ
get_event_type p = head p 8

unfoldable pub set_event_type : ℕ → Packet → Packet
set_event_type type p = set8 8 type p

unfoldable pub get_event_sub_type : Packet → ℕ
get_event_sub_type p = swap16 (load16 (head p) 9)

unfoldable pub set_event_sub_type : ℕ → Packet → Packet
set_event_sub_type type p = set16 9 (swap16 type) p

unfoldable pub get_transfer_id : Packet → ℕ
get_transfer_id p = swap32 (load32 (head p) 11)

unfoldable pub set_transfer_id : ℕ → Packet → Packet
set_transfer_id id p = set32 11 (swap32 id) p

unfoldable pub get_transfer_type : Packet → ℕ
get_transfer_type p = head p 15

unfoldable pub set_transfer_type : ℕ → Packet → Packet
set_transfer_type type p = set8 15 type p

unfoldable pub get_receiver_id : Packet → ℕ
get_receiver_id p = swap32 (load32 (head p) 16)

unfoldable pub set_receiver_id : ℕ → Packet → Packet
set_receiver_id id p = set32 16 (swap32 id) p

unfoldable pub get_receiver_type : Packet → ℕ
get_receiver_type p = head p 20

unfoldable pub set_receiver_type : ℕ → Packet → Packet
set_receiver_type type p = set8 20 type p
