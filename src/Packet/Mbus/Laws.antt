-- ===== src/Packet/Mbus/Laws.antt =====
-- Which M-Bus frames `parse_packet` accepts.
use test.Prelude.{ℕ, ◌+◌, ◌-◌, ◌^◌, ◌≤◌, ◌<◌, ◌≡◌, ◌≢◌, arith}
use test.Prelude.Int.{ℤ, pos, minus_one}
use test.Packet.{Packet, head}
use test.Packet.Laws.{IsOwn}
use test.Packet.Mbus.{header_size, ci_of, parse_packet}

-- What a frame must have, with its first byte as the length less one.
pub record IsWhole (p : Packet) : Type 0 where
  pub c_right : head p 1 ≡ 0x44
  pub ci_right : head p 10 ≡ ci_of p.kind
  pub long : header_size p.kind ≤ head p 0 + 1

-- A packet after `reset`, whose first byte is `n`, is accepted by `parse_packet` exactly where C field
-- and CI field are right and the header is not longer than `n + 1` bytes. Then the length is `n + 1`, of
-- which the data area has what the header leaves; else the result is -1. The number of bytes that were
-- received, which set_packet_buffer keeps, makes no difference: a frame that is cut short is accepted too.
pub parse_mbus_lem :
    (p : Packet) (n : ℕ)
    → IsOwn (header_size p.kind) p
    → head p 0 ≡ n
    → n < 2 ^ 8
    → (IsWhole p
        → ((parse_packet p).1 ≡ pos (n + 1))
          × ((parse_packet p).0.len_data_area ≡ pos (n + 1 - header_size p.kind)))
      × ((parse_packet p).1 ≢ minus_one → IsWhole p)
      × ((k : ℤ) → (parse_packet (record p { len_packet = k })).1 ≡ (parse_packet p).1)
unfolding parse_packet
parse_mbus_lem p n w h small = (
  λ v. (ground arith, ground arith),
  λ r. record { c_right = ground arith; ci_right = ground arith; long = ground arith },
  λ k. ground arith,
)
