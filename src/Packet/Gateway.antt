-- ===== src/Packet/Gateway.antt =====
-- simulator_meter/common/ptcl_codec/ptcl_packet_gw_dlms47.cpp: the wrapper frame of a gateway. Behind
-- the wrapper's header stand a flag at 8, a network at 9, and at 10 the length of the meter's address,
-- with which the data area begins. `gateway_header_` always lies 8 bytes behind `frame_header_`.
-- The methods that the class does not override are those of Packet.Dlms47.
pub mod RoundTrip
pub mod Packing
mod Tests
use test.Prelude.{
  ℕ, zero, suc, ◌+◌, ◌-◌, ◌*◌, ◌/◌, ◌%◌, ◌^◌, List, [], ◌∷◌, ◌++◌, Option, none, some, Bool, leb,
  ltb, ◌==◌, ◌||◌, if◌then◌else◌, length,
}
use test.Prelude.Int.{ℤ, pos, negsuc, minus_one, ◌+ℤ◌, to_u16, is_positive, lt_int}
use test.Memory.{Memory, load16, bytes}
use test.Memory.Word.{swap16}
use test.Packet.{Packet, own, foreign, head, set8, set16}
use test.Packet.Dlms47.{header_size}

-- `MAX_GATEWAY_LENGTH`
abbrev max_gateway_length : ℕ
max_gateway_length = 64

unfoldable pub reset : Packet → Packet
unfolding set16
reset p =
    let q = record p {
      header = own;
      len_header = header_size + 3;
      data_off = header_size + 3;
      len_packet = pos 0;
      len_data_area = pos 0;
    } in
    set16 4 0x0100 (set16 2 0x0100 q)

unfoldable pub new : ℕ → Packet
unfolding reset
new packet_type = reset (test.Packet.Dlms47.new packet_type)

unfoldable pub format_packet : Packet → Packet
unfolding set16 set8
format_packet p =
    let q = set16 0 0x0100 p in
    let r =
      set16 6 (swap16 (to_u16 p.len_data_area))
        (record q { len_packet = p.len_data_area +ℤ pos p.len_header }) in
    set8 9 0 (set8 8 (if p.kind == 0 then 0xe7 else 0xe6) r)

-- The result is -1 for another version than 1, -2 for another flag than the two, and the header's
-- length otherwise.
unfoldable pub parse_header : Packet → Packet × ℤ
parse_header p =
    if load16 (head p) 0 == 0x0100
    then if (head p 8 == 0xe6) || (head p 8 == 0xe7)
      then (
        record p {
          len_data_area = pos (swap16 (load16 (head p) 6));
          len_packet = pos (swap16 (load16 (head p) 6) + p.len_header);
        },
        pos p.len_header,
      )
      else (p, negsuc 1)
    else (p, minus_one)

-- `ptcl_packet_dlms47::parse_packet`, which calls the `parse_header` of this class.
unfoldable pub parse_packet : Packet → Packet × ℤ
unfolding parse_header
parse_packet p =
    let (q, result) = parse_header p in
    if is_positive result then (q, q.len_packet) else (q, result)

-- `parse_header(buffer, len_buffer)`
unfoldable pub parse_header_at : Memory → ℤ → Packet → Packet × ℤ
unfolding parse_header
parse_header_at buffer len_buffer p =
    if lt_int len_buffer (pos p.len_header)
    then (p, pos 0)
    else parse_header (record p { header = foreign buffer })

-- The characters before the first 0; `none` where there is none among the 64.
c_string : ℕ → List ℕ → Option (List ℕ)
c_string room [] = if room == 0 then none else some []
c_string room (c ∷ cs) =
    let rest = c_string (room - 1) cs in
    if c == 0 then some [] else elim rest [ none ↦ none | some s ↦ some (c ∷ s) ]

-- `none`: a string made of NULL for a length over 64, a copy of a negative `char` as a length, or a
-- string of 64 characters, which lacks its final 0.
unfoldable pub get_physical_addr : Packet → Option (List ℕ)
unfolding c_string
get_physical_addr p =
    if ltb max_gateway_length (head p 10)
    then none
    else c_string max_gateway_length (bytes (head p) 11 (head p 10))

unpack_sized : ℕ → Packet → Option (List ℕ × ℕ)
unpack_sized len_packet p =
    let addr_len = head p 10 in
    let len = len_packet - p.len_header - addr_len in
    let length16 = swap16 len in
    if ltb len_packet (p.len_header + addr_len)
    then none
    else if leb (p.data_off + addr_len + len) 1536
    then some (
      bytes (head p) 0 6
          ++ ((length16 % 256) ∷ (length16 / 256) ∷ bytes p.mem (p.data_off + addr_len) len),
      header_size + len,
    )
    else none

-- The bytes written to `output_data`, and the result. `none` is a read outside the packet's buffer,
-- also where the length, an `unsigned`, wraps around.
unfoldable pub unpack_to_std_dlms47_data : Packet → Option (List ℕ × ℕ)
unfolding unpack_sized
unpack_to_std_dlms47_data p = elim p.len_packet [ pos n ↦ unpack_sized n p | negsuc n ↦ none ]
