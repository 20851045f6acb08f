-- ===== src/Packet/Mass.antt =====
-- simulator_meter/common/ptcl_codec/ptcl_packet_mass.cpp: the wrapper frame in its second copy, and
-- the short "get" frame. `kind` is `is_get_packet_`. In a get frame `frame_header_` is not set until
-- `parse_header(buffer, len)`, and `get_frame_header_` is the packet's own buffer.
pub mod Wrapper
mod Tests
use test.Prelude.{
  ℕ, zero, suc, ◌+◌, ◌-◌, ◌*◌, ◌/◌, ◌%◌, ◌^◌, List, [], ◌∷◌, Option, none, some, Bool, leb, ltb,
  ◌==◌, ◌!=◌, ◌||◌, ◌&&◌, if◌then◌else◌,
}
use test.Prelude.Int.{ℤ, pos, negsuc, minus_one, ◌+ℤ◌, to_u16, is_positive, lt_int}
use test.Memory.{Memory, load16, store16}
use test.Memory.Word.{swap16}
use test.Packet.{Packet, Header, own, foreign, blank, head, set16}

-- The two words of the get frame's header.
get_header : Memory → Memory
get_header m = store16 (store16 m 0 0x0100) 2 0x0d00

unfoldable pub reset : Packet → Packet
unfolding set16 get_header
reset p =
    let get_frame = record p {
      mem = get_header p.mem;
      len_header = 4;
      data_off = 4;
      len_packet = pos 0;
      len_data_area = pos 0;
    } in
    let frame = record p {
      header = own;
      len_header = 8;
      data_off = 8;
      len_packet = pos 0;
      len_data_area = pos 0;
    } in
    if p.kind != 0 then get_frame else set16 4 0x0100 (set16 2 0x0100 frame)

unfoldable pub new : ℕ → Packet
unfolding reset
new packet_type = reset (blank packet_type)

unfoldable pub format_packet : Packet → Packet
unfolding set16 get_header
format_packet p =
    if p.kind != 0
    then record p {
      mem = get_header p.mem;
      len_packet = p.len_data_area +ℤ pos p.len_header +ℤ minus_one;
    }
    else set16 6 (swap16 (to_u16 p.len_data_area))
        (record (set16 0 0x0100 p) { len_packet = p.len_data_area +ℤ pos p.len_header })

unfoldable pub parse_header : Packet → Packet × ℤ
parse_header p =
    if p.kind != 0
    then (p, minus_one)
    else if load16 (head p) 0 != 0x0100
    then (p, minus_one)
    else (
      record p {
        len_data_area = pos (swap16 (load16 (head p) 6));
        len_packet = pos (swap16 (load16 (head p) 6) + p.len_header);
      },
      pos p.len_header,
    )

unfoldable pub parse_packet : Packet → Packet × ℤ
unfolding parse_header
parse_packet p =
    let (q, result) = parse_header p in
    if is_positive result then (q, q.len_packet) else (q, result)

-- `parse_header(buffer, len_buffer)`
unfoldable pub parse_header_at : Memory → ℤ → Packet → Packet × ℤ
unfolding parse_header
parse_header_at buffer len_buffer p =
    if lt_int len_buffer (pos p.len_header)
    then (p, pos 0)
    else parse_header (record p { header = foreign buffer })

-- What `frame_header_` points to, if it is set.
frame_header : ℕ → Memory → Header → Option Memory
frame_header kind m own = if kind != 0 then none else some m
frame_header kind m (foreign k) = some k

-- `none`: a read through a pointer that is not set.
unfoldable pub get_device_addr : Packet → Option ℕ
unfolding frame_header
get_device_addr p = elim (frame_header p.kind p.mem p.header) [
  | none ↦ none
  | some m ↦ some (swap16 (load16 m 2))
]

unfoldable pub get_frame_seq : Packet → ℕ
get_frame_seq p = 0

unfoldable pub get_host_id : Packet → Option ℕ
unfolding frame_header
get_host_id p = elim (frame_header p.kind p.mem p.header) [
  | none ↦ none
  | some m ↦ some (swap16 (load16 m 2) % 2 ^ 8)
]

unfoldable pub set_device_addr : ℕ → Packet → Packet
set_device_addr dev_addr p = if p.kind != 0 then p else set16 2 (swap16 dev_addr) p

unfoldable pub set_host_id : ℕ → Packet → Packet
set_host_id id p = if p.kind != 0 then p else set16 2 (swap16 id) p

unfoldable pub set_frame_seq : ℕ → Packet → Packet
set_frame_seq seq p = p
