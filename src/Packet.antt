-- ===== src/Packet.antt =====
-- simulator_meter/common/ptcl_codec/ptcl_packet.cpp and include/ptcl_codec/ptcl_packet.h: the base
-- class of the frame codecs, with the two fields that every frame class adds to it: the pointer
-- `frame_header_` and the kind of the frame (`is_send_packet_`, `packet_type_`, `is_get_packet_`).
-- `frame_header_` points to the object's own buffer after `reset`, and to the caller's buffer after
-- `parse_header(buffer, len)`; from then on the getters and setters work on the caller's bytes.
-- The child modules are the frame classes.
pub mod Laws
pub mod Dlms47
pub mod Hdlc
pub mod Gateway
pub mod In
pub mod Mass
pub mod Mbus
pub mod Ansi
use test.Prelude.{
  ℕ, zero, suc, ◌+◌, ◌-◌, ◌%◌, ◌^◌, List, [], ◌∷◌, Option, none, some, leb, ltb, if◌then◌else◌,
  length, take,
}
use test.Prelude.Int.{ℤ, pos, negsuc, to_size}
use test.Memory.{Memory, zeroes, store, copy_to, bytes, load16, store16, load32, store32}

abbrev pub max_packet_length : ℕ
max_packet_length = 1536

-- Where `frame_header_` points: the packet's own buffer, or bytes of the caller.
pub data Header : Type 0 where
  own : Header
  foreign : Memory → Header

-- `data_off` is `buf_data_area_ - buf_packet_`.
pub record Packet : Type 0 where
  pub mem : Memory
  pub header : Header
  pub kind : ℕ
  pub data_off : ℕ
  pub len_packet : ℤ
  pub len_data_area : ℤ
  pub len_header : ℕ

-- The base constructor; `reset` of the frame class runs next.
abbrev pub blank : ℕ → Packet
blank k = record {
  mem = zeroes;
  header = own;
  kind = k;
  data_off = 0;
  len_packet = pos 0;
  len_data_area = pos 0;
  len_header = 0;
}

-- The bytes that `frame_header_` points to.
abbrev pub header_of : Memory → Header → Memory
header_of m own = m
header_of m (foreign k) = k

abbrev pub head : Packet → Memory
head p = header_of p.mem p.header

-- The packet with the bytes behind `frame_header_` replaced.
unfoldable pub put_head : Header → Memory → Packet → Packet
put_head own k p = record p { mem = k }
put_head (foreign _) k p = record p { header = foreign k }

unfoldable pub set8 : ℕ → ℕ → Packet → Packet
unfolding put_head
set8 off v p = put_head p.header (store (head p) off v) p

unfoldable pub set16 : ℕ → ℕ → Packet → Packet
unfolding put_head
set16 off v p = put_head p.header (store16 (head p) off v) p

unfoldable pub set32 : ℕ → ℕ → Packet → Packet
unfolding put_head
set32 off v p = put_head p.header (store32 (head p) off v) p

-- `memcpy(dst, buffer, len)`: `none` where the caller's bytes or the object's array are exceeded.
unfoldable pub copy_in : Memory → ℕ → List ℕ → ℕ → Option Memory
copy_in m off buf n =
    if leb n (length buf)
    then if leb (off + n) max_packet_length then some (copy_to m off (take n buf)) else none
    else none

set_buffer_checked : List ℕ → ℤ → Packet → Option Packet
unfolding copy_in
set_buffer_checked buf (negsuc _) p = some p
set_buffer_checked buf (pos n) p =
    if ltb max_packet_length n then some p else elim (copy_in p.mem 0 buf n) [
      | none ↦ none
      | some m ↦ some (record p { mem = m; len_packet = pos n })
    ]

-- The buffer is `none` where the pointer is NULL.
unfoldable pub set_packet_buffer : Option (List ℕ) → ℤ → Packet → Option Packet
unfolding set_buffer_checked
set_packet_buffer none len p = some p
set_packet_buffer (some buf) len p = set_buffer_checked buf len p

set_area_checked : List ℕ → ℤ → Packet → Option Packet
unfolding copy_in
set_area_checked buf (negsuc _) p = some p
set_area_checked buf (pos n) p =
    if ltb (max_packet_length - p.len_header) n
    then some p
    else elim (copy_in p.mem p.data_off buf n) [
      | none ↦ none
      | some m ↦ some (record p { mem = m; len_data_area = pos n })
    ]

unfoldable pub set_data_area_buffer : Option (List ℕ) → ℤ → Packet → Option Packet
unfolding set_area_checked
set_data_area_buffer none len p = some p
set_data_area_buffer (some buf) len p = set_area_checked buf len p

-- The bytes behind `get_packet_buffer()` and `get_data_area_buffer()`, as many as the two length
-- methods say; for a negative length, none.
abbrev pub count : ℤ → ℕ
count (pos n) = n
count (negsuc n) = 0

abbrev pub packet_bytes : Packet → List ℕ
packet_bytes p = bytes p.mem 0 (count p.len_packet)

abbrev pub data_bytes : Packet → List ℕ
data_bytes p = bytes p.mem p.data_off (count p.len_data_area)

sum_bytes : ℕ → List ℕ → ℕ
sum_bytes sum [] = sum
sum_bytes sum (b ∷ bs) = sum_bytes ((sum + b) % 2 ^ 8) bs

check_sum_of : Memory → ℕ → ℤ → ℕ
unfolding sum_bytes
check_sum_of m off (pos n) = sum_bytes 0 (bytes m off n)
check_sum_of m off (negsuc n) = 0

-- `get_check_sum(buffer + off, len)`, with no buffer where the pointer is NULL.
unfoldable pub get_check_sum : Option Memory → ℕ → ℤ → ℕ
unfolding check_sum_of
get_check_sum none off len = 0
get_check_sum (some m) off len = check_sum_of m off len
