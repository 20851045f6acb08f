-- ===== src/Packet/Dlms47.antt =====
-- simulator_meter/common/ptcl_codec/ptcl_packet_dlms47.cpp: the DLMS wrapper frame. The header is
-- four network-order words: version at 0, source port at 2, destination port at 4, length at 6.
-- `kind` is `is_send_packet_`.
pub mod RoundTrip
pub mod Ports
mod Tests
use test.Prelude.{
  ℕ, ◌+◌, ◌-◌, ◌*◌, ◌/◌, ◌%◌, ◌^◌, List, [], ◌∷◌, ◌++◌, Option, none, some, Bool, leb, ltb, ◌==◌,
  if◌then◌else◌, length, take,
}
use test.Prelude.Int.{ℤ, pos, negsuc, minus_one, ◌+ℤ◌, to_u16, is_positive}
use test.Memory.{Memory, store16, load16, bytes, copy_to, zeroes}
use test.Memory.Word.{swap16}
use test.Packet.{Packet, Header, own, foreign, blank, head, set16, count}

-- `sizeof(frame_header_struct)`
abbrev pub header_size : ℕ
header_size = 8

unfoldable pub reset : Packet → Packet
unfolding set16
reset p =
    let q = record p {
      header = own;
      len_header = header_size;
      data_off = header_size;
      len_packet = pos 0;
      len_data_area = pos 0;
    } in
    set16 4 0x0100 (set16 2 0x0100 q)

unfoldable pub new : ℕ → Packet
unfolding reset
new packet_type = reset (blank packet_type)

-- The copy constructor: the source's packet bytes are copied, and `frame_header_` points to them.
-- `none`: the packet length of the source exceeds its buffer.
unfoldable pub copy_of : Packet → Option Packet
copy_of q =
    if leb (count q.len_packet) 1536
    then some (record q {
      mem = copy_to zeroes 0 (bytes q.mem 0 (count q.len_packet));
      header = own;
      data_off = q.len_header;
    })
    else none

unfoldable pub format_packet : Packet → Packet
unfolding set16
format_packet p =
    let q = set16 0 0x0100 p in
    set16 6 (swap16 (to_u16 p.len_data_area))
      (record q { len_packet = p.len_data_area +ℤ pos p.len_header })

-- The result is -1 for another version than 1, and the header's length otherwise.
unfoldable pub parse_header : Packet → Packet × ℤ
parse_header p =
    if load16 (head p) 0 == 0x0100
    then (
      record p {
        len_data_area = pos (swap16 (load16 (head p) 6));
        len_packet = pos (swap16 (load16 (head p) 6) + p.len_header);
      },
      pos p.len_header,
    )
    else (p, minus_one)

unfoldable pub parse_packet : Packet → Packet × ℤ
unfolding parse_header
parse_packet p =
    let (q, result) = parse_header p in
    if is_positive result then (q, q.len_packet) else (q, result)

-- `parse_header(buffer, len_buffer)`
unfoldable pub parse_header_at : Memory → ℤ → Packet → Packet × ℤ
unfolding parse_header
parse_header_at buffer (negsuc n) p = (p, pos 0)
parse_header_at buffer (pos n) p =
    if ltb n p.len_header then (p, pos 0) else parse_header (record p { header = foreign buffer })

unfoldable pub get_device_addr : Packet → ℕ
get_device_addr p = if p.kind == 1 then swap16 (load16 (head p) 4) else swap16 (load16 (head p) 2)

abbrev pub get_frame_seq : Packet → ℤ
get_frame_seq p = pos 0

unfoldable pub get_host_id : Packet → ℕ
get_host_id p =
    if p.kind == 1 then swap16 (load16 (head p) 2) % 256 else swap16 (load16 (head p) 4) % 256

unfoldable pub set_device_addr : ℕ → Packet → Packet
set_device_addr dev_addr p =
    if p.kind == 1 then set16 4 (swap16 dev_addr) p else set16 2 (swap16 dev_addr) p

unfoldable pub set_src_port : ℕ → Packet → Packet
set_src_port port p = set16 2 (swap16 port) p

unfoldable pub set_dst_port : ℕ → Packet → Packet
set_dst_port port p = set16 4 (swap16 port) p

unfoldable pub set_host_id : ℕ → Packet → Packet
set_host_id id p = if p.kind == 1 then set16 2 (swap16 id) p else set16 4 (swap16 id) p

unfoldable pub get_src_port : Packet → ℕ
get_src_port p = swap16 (load16 (head p) 2)

-- The bytes written to `output_data`, and the result. `pos` is an `unsigned short`; `none` is a read
-- outside the address or outside the packet's buffer.
unfoldable pub pack_to_gateway_data : List ℕ → ℕ → Packet → Option (List ℕ × ℕ)
pack_to_gateway_data phy_add len p =
    let front = bytes (head p) 0 header_size in
    let body =
      0xe6 ∷ 0 ∷ len ∷ (take len phy_add ++ bytes p.mem p.data_off (count p.len_data_area)) in
    let end = (header_size + 3 + len + count p.len_data_area) % 2 ^ 16 in
    let length16 = swap16 ((end + 2 ^ 16 - header_size) % 2 ^ 16) in
    if leb 255 len
    then some (front, 0)
    else if leb len (length phy_add)
    then if leb (p.data_off + count p.len_data_area) 1536
      then some (bytes (head p) 0 6 ++ ((length16 % 256) ∷ (length16 / 256) ∷ body), end)
      else none
    else none
