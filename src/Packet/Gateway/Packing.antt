-- ===== src/Packet/Gateway/Packing.antt =====
-- The gateway frame that a wrapper frame's `pack_to_gateway_data` writes, read by the gateway's class.
use test.Prelude.{
  ℕ, ◌+◌, ◌-◌, ◌*◌, ◌/◌, ◌%◌, ◌^◌, ◌≤◌, ◌<◌, ◌≡◌, refl, [], ap, ◌∙◌, ◌∷◌, ◌++◌, some, arith, List,
  length, length-append, take-all,
}
use test.Prelude.Int.{pos}
use test.Memory.{Memory, bytes, load16, store, copy_to}
use test.Memory.Block.{length-bytes, copy_to_before}
use test.Memory.Word.{swap16, swap16-swap16, swap16-lt}
use test.Packet.{Packet, own, set_packet_buffer}
use test.Packet.Laws.{IsOwn, copy_in-ok}
use test.Packet.Dlms47.{pack_to_gateway_data}
use test.Packet.Gateway.{parse_packet, unpack_to_std_dlms47_data}

-- The bytes written: the wrapper's header with the new length and the gateway's, then the address and
-- the data.
header_bytes : Memory → ℕ → ℕ → List ℕ
header_bytes m n len =
    let length16 = swap16 (n + len + 3) in
    bytes m 0 6 ++ ((length16 % 256) ∷ (length16 / 256) ∷ 0xe6 ∷ 0 ∷ len ∷ [])

packed : Memory → ℕ → List ℕ → List ℕ
unfolding header_bytes bytes
packed m n phy = header_bytes m n (length phy) ++ (phy ++ bytes m 8 n)

length-packed : (m : Memory) (n : ℕ) (phy : List ℕ) → length (packed m n phy) ≡ n + length phy + 11
unfolding packed bytes
length-packed m n phy = omega (arith, length-append phy (bytes m 8 n), length-bytes n m 8)

pack-packed :
    (n : ℕ) (phy : List ℕ) (p : Packet)
    → p.header ≡ own
    → p.data_off ≡ 8
    → p.len_data_area ≡ pos n
    → length phy < 255
    → n + length phy + 11 ≤ 1536
    → pack_to_gateway_data phy (length phy) p ≡ some (packed p.mem n phy, n + length phy + 11)
unfolding packed pack_to_gateway_data
pack-packed n phy p o d l short fits =
    let t = take-all (length phy) phy (omega arith) in
    let e : 8 + 3 + length phy + n ≡ n + length phy + 11 = omega arith in
    let f : (n + length phy + 11) % 2 ^ 16 ≡ n + length phy + 11 = omega arith in
    let g : (n + length phy + 11 + 2 ^ 16 - 8) % 2 ^ 16 ≡ n + length phy + 3 = omega arith in
    rw (o, d, l, t, e, f, g) (ground arith)

-- The packed bytes in a peer's buffer: the words of the header, and the gateway's bytes.
packed_head :
    (m k : Memory) (n : ℕ) (phy : List ℕ)
    → n + length phy + 11 ≤ 1536
    → let got = copy_to k 0 (packed m n phy) in
      (load16 got 0 ≡ load16 m 0)
      × (swap16 (load16 got 6) ≡ n + length phy + 3)
      × (got 8 ≡ 0xe6)
      × (got 10 ≡ length phy)
unfolding packed header_bytes copy_to bytes store load16
packed_head m k n phy h =
    let s = swap16-lt (n + length phy + 3) in
    let r = swap16-swap16 (n + length phy + 3) (omega arith) in
    let v = swap16 (n + length phy + 3) in
    let whole : v % 256 + 256 * (v / 256) ≡ v = omega arith in
    let front = copy_to k 0 (header_bytes m n (length phy)) in
    let at = copy_to_before (phy ++ bytes m 8 n) front 11 in
    let a0 = at 0 (omega arith) in
    let a1 = at 1 (omega arith) in
    let a6 = at 6 (omega arith) in
    let a7 = at 7 (omega arith) in
    let a8 = at 8 (omega arith) in
    let a10 = at 10 (omega arith) in (rw (a0, a1) refl, rw (a6, a7) (ap swap16 whole ∙ r), a8, a10)

-- A wrapper frame of version 1 in its own buffer, with `n` bytes of data, packed for a gateway with an
-- address of less than 255 bytes, such that `n` and the address are at most 1522 bytes, counts the
-- gateway's header in the length that it claims. The gateway's class, a packet after `reset`, counts it
-- again: it takes the frame for three bytes longer than it is, and the data that it unpacks is three
-- bytes longer than what was packed.
pub packed_length_excess :
    (n : ℕ) (phy : List ℕ) (p r : Packet)
    → p.header ≡ own
    → p.data_off ≡ 8
    → p.len_data_area ≡ pos n
    → load16 p.mem 0 ≡ 0x0100
    → IsOwn 11 r
    → length phy < 255
    → n + length phy + 14 ≤ 1536
    → (out : List ℕ) × (r' : Packet) × (out' : List ℕ) × (pack_to_gateway_data phy (length phy) p
        ≡ some (out, n + length phy + 11))
      × (set_packet_buffer (some out) (pos (n + length phy + 11)) r ≡ some r')
      × ((parse_packet r').1 ≡ pos (n + length phy + 14))
      × (unpack_to_std_dlms47_data (parse_packet r').0 ≡ some (out', 8 + (n + 3)))
unfolding parse_packet unpack_to_std_dlms47_data set_packet_buffer
packed_length_excess n phy p r o d l version w short fits =
    let out = packed p.mem n phy in
    let size = length-packed p.mem n phy in
    let c = copy_in-ok r.mem 0 out (omega (arith, size)) in
    let (h0, h6, h8, h10) = packed_head p.mem r.mem n phy (omega arith) in
    let got = copy_to r.mem 0 out in
    let length16 = swap16 (n + 3) in
    let rest : n + length phy + 14 - 11 - length phy ≡ n + 3 = omega arith in
    (
      out,
      record r { mem = got; len_packet = pos (n + length phy + 11) },
      bytes got 0 6 ++ ((length16 % 256) ∷ (length16 / 256) ∷ bytes got (11 + length phy) (n + 3)),
      pack-packed n phy p o d l short (omega arith),
      ground (arith, rw size at c),
      ground arith,
      ground arith,
    )
