-- ===== src/Packet/Mbus.antt =====
-- simulator_meter/common/ptcl_codec/ptcl_packet_mbus.cpp: the frames of M-Bus meters. `kind` is
-- `packet_type_`; a packet uses the one of its two header pointers that is for its type. Both headers
-- begin with length, C field, manufacturer at 2, serial number at 4, version at 8, device type at 9
-- and CI field at 10; access number, status and signature follow at once (type 0x7a), or behind a
-- second address of eight bytes.
pub mod Laws
mod Tests
use test.Prelude.{
  ℕ, ◌+◌, ◌-◌, ◌*◌, ◌%◌, ◌^◌, Option, none, some, Bool, leb, ltb, ◌==◌, ◌!=◌, ◌||◌, if◌then◌else◌,
}
use test.Prelude.Int.{ℤ, pos, negsuc, minus_one, ◌+ℤ◌, sub_ℕ, is_negative, lt_int}
use test.Memory.{Memory, load16, load32}
use test.Packet.{Packet, own, foreign, blank, head, set8, max_packet_length}

abbrev pub header_size : ℕ → ℕ
header_size packet_type = if packet_type == 0x7a then 15 else 23

-- The CI field that the type wants.
abbrev pub ci_of : ℕ → ℕ
ci_of packet_type = if packet_type == 0x7a then 0x7a else 0x72

-- Where the access number stands.
abbrev access_at : ℕ → ℕ
access_at packet_type = if packet_type == 0x7a then 11 else 19

unfoldable pub reset : Packet → Packet
reset p = record p {
  header = own;
  len_header = header_size p.kind;
  data_off = header_size p.kind;
  len_packet = pos 0;
  len_data_area = pos 0;
}

unfoldable pub new : ℕ → Packet
unfolding reset
new packet_type = reset (blank packet_type)

-- The result is -1 for a wrong C or CI field. It is -1 also for a data area that has a negative length
-- or does not fit, whose length then stays in the packet.
unfoldable pub parse_header : Packet → Packet × ℤ
parse_header p =
    let n = sub_ℕ (head p 0 + 1) p.len_header in
    let q = record p { len_data_area = n } in
    if (head p 1 != 0x44) || (head p 10 != ci_of p.kind)
    then (p, minus_one)
    else if (is_negative n) || (lt_int (pos (max_packet_length - p.len_header)) n)
    then (q, minus_one)
    else (record q { len_packet = pos p.len_header +ℤ n }, pos p.len_header)

unfoldable pub parse_packet : Packet → Packet × ℤ
unfolding parse_header
parse_packet p =
    let (q, result) = parse_header p in
    if is_negative result then (q, result) else (q, q.len_packet)

-- `parse_header(buffer, len_buffer)`
unfoldable pub parse_header_at : Memory → ℤ → Packet → Packet × ℤ
unfolding parse_header
parse_header_at buffer len_buffer p =
    if lt_int len_buffer (pos p.len_header)
    then (p, pos 0)
    else parse_header (record p { header = foreign buffer })

unfoldable pub get_serial_number : Packet → ℕ
get_serial_number p = load32 (head p) 4

unfoldable pub get_macfacture : Packet → ℕ
get_macfacture p = load16 (head p) 2

unfoldable pub get_version : Packet → ℕ
get_version p = head p 8

unfoldable pub get_device_type : Packet → ℕ
get_device_type p = head p 9

unfoldable pub get_ci : Packet → ℕ
get_ci p = head p 10

unfoldable pub get_access_no : Packet → ℕ
get_access_no p = head p (access_at p.kind)

unfoldable pub get_status : Packet → ℕ
get_status p = head p (access_at p.kind + 1)

unfoldable pub get_signature : Packet → ℕ
get_signature p = load16 (head p) (access_at p.kind + 2)

unfoldable pub get_device_addr : Packet → ℕ
get_device_addr p = 0

-- The fields of the second address. `none`: the pointer to this header is not set for type 0x7a.
unfoldable pub get_ci_s_id : Packet → Option ℕ
get_ci_s_id p = if p.kind == 0x7a then none else some (load32 (head p) 11)

unfoldable pub get_ci_version : Packet → Option ℕ
get_ci_version p = if p.kind == 0x7a then none else some (head p 17)

unfoldable pub get_ci_device_type : Packet → Option ℕ
get_ci_device_type p = if p.kind == 0x7a then none else some (head p 18)

unfoldable pub set_status : ℕ → Packet → Packet
set_status status p = set8 (access_at p.kind + 1) status p

unfoldable pub get_frame_seq : Packet → ℕ
get_frame_seq p = 0

unfoldable pub get_host_id : Packet → ℕ
get_host_id p = 0

unfoldable pub format_packet : Packet → Packet
format_packet p = p
