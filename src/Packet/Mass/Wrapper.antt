-- ===== src/Packet/Mass/Wrapper.antt =====
-- The second copy of the wrapper frame against the first one, and the bytes of a get frame.
use test.Prelude.{ℕ, suc, ◌≡◌, ◌≢◌, ap, ◌∷◌, arith}
use test.Prelude.Int.{ℤ, pos, minus_one}
use test.Memory.{Memory, bytes, store16, store}
use test.Memory.Block.{bytes_agree}
use test.Packet.{Packet, packet_bytes, data_bytes, own, head, set16}
use test.Packet.Mass.{format_packet, parse_packet, parse_header_at, reset}

-- Where the frame is not a get frame, this class builds and reads it as the wrapper's class does.
pub mass_as_dlms47 :
    (p : Packet) (buffer : Memory) (len : ℤ)
    → p.kind ≡ 0
    → (reset p ≡ test.Packet.Dlms47.reset p)
      × (format_packet p ≡ test.Packet.Dlms47.format_packet p)
      × (parse_packet p ≡ test.Packet.Dlms47.parse_packet p)
      × (parse_header_at buffer len p ≡ test.Packet.Dlms47.parse_header_at buffer len p)
unfolding reset format_packet parse_packet parse_header_at test.Packet.Dlms47.reset
    test.Packet.Dlms47.format_packet test.Packet.Dlms47.parse_packet
    test.Packet.Dlms47.parse_header_at
mass_as_dlms47 p buffer len h = (ground arith, ground arith, ground arith, ground arith)

get_frame-mem :
    (p : Packet) → p.kind ≢ 0 → (format_packet p).mem ≡ store16 (store16 p.mem 0 0x0100) 2 0x0d00
unfolding format_packet
get_frame-mem p k = ground arith

get_frame-len :
    (n : ℕ) (p : Packet)
    → p.kind ≢ 0
    → p.len_header ≡ 4
    → p.len_data_area ≡ pos (suc n)
    → (format_packet p).len_packet ≡ pos (suc (suc (suc (suc n))))
unfolding format_packet
get_frame-len n p k h l = ground arith

header-bytes :
    (n : ℕ) (m : Memory)
    → bytes (store16 (store16 m 0 0x0100) 2 0x0d00) 0 (suc (suc (suc (suc n))))
      ≡ 0 ∷ 1 ∷ 0 ∷ 13 ∷ bytes m 4 n
unfolding bytes store16 store
header-bytes n m = ap (λ t. 0 ∷ 1 ∷ 0 ∷ 13 ∷ t) (bytes_agree n _ m 4 (λ j lo hi. ground arith))

-- A get frame with a header of 4 bytes and `n + 1` bytes of data is sent as the four bytes of its
-- header and the first `n` bytes of the data, and it is not accepted by `parse_packet`.
pub get_frame_bytes :
    (n : ℕ) (p : Packet)
    → p.kind ≢ 0
    → p.len_header ≡ 4
    → p.len_data_area ≡ pos (suc n)
    → (packet_bytes (format_packet p) ≡ 0 ∷ 1 ∷ 0 ∷ 13 ∷ bytes p.mem 4 n)
      × ((parse_packet (format_packet p)).1 ≡ minus_one)
unfolding parse_packet format_packet
get_frame_bytes n p k h l =
    let m = get_frame-mem p k in
    let e = get_frame-len n p k h l in (rw (m, e) (header-bytes n p.mem), ground arith)
