-- ===== src/Packet/Gateway/RoundTrip.antt =====
-- Gateway frames on their way: built, parsed by the peer, and unpacked to a wrapper frame.
use test.Prelude.{ℕ, ◌+◌, ◌-◌, ◌/◌, ◌%◌, ◌^◌, ◌≤◌, ◌≡◌, ◌≢◌, ap, ◌∙◌, ◌∷◌, ◌++◌, some, arith}
use test.Prelude.Int.{pos}
use test.Memory.{bytes, load16, store16, store}
use test.Memory.Block.{bytes_agree}
use test.Memory.Word.{swap16, swap16-swap16, swap16-lt}
use test.Packet.{Packet, max_packet_length, set_packet_buffer, packet_bytes, data_bytes}
use test.Packet.Laws.{
  IsOwn, received, mem-received, bytes-received, load16-received, set_packet_buffer-received,
}
use test.Packet.Gateway.{format_packet, parse_packet, unpack_to_std_dlms47_data}

-- A gateway packet ready to be sent: a data area of `n` bytes, which begins with the `a` bytes of the
-- meter's address.
pub record IsReady (n a : ℕ) (p : Packet) : Type 0 where
  pub fresh : IsOwn 11 p
  pub filled : p.len_data_area ≡ pos n
  pub fits : n + 11 ≤ max_packet_length
  pub addressed : p.mem 10 ≡ a
  pub shorter : a ≤ n

module _ (n a : ℕ) (p : Packet) (v : IsReady n a p) where
  format_packet-len : (format_packet p).len_packet ≡ pos (n + 11)
  unfolding format_packet
  format_packet-len = ground arith

  -- The words and bytes of the built header, and what stands behind it.
  format_packet-version : load16 (format_packet p).mem 0 ≡ 0x0100
  unfolding format_packet load16 store16 store
  format_packet-version = ground arith

  format_packet-length : swap16 (load16 (format_packet p).mem 6) ≡ n
  unfolding format_packet load16 store16 store
  format_packet-length =
      let s = swap16-lt (n % 2 ^ 16) in
      let r = swap16-swap16 n (omega arith) in ground (arith, s, r)

  format_packet-address : (format_packet p).mem 10 ≡ a
  unfolding format_packet store16 store
  format_packet-address = ground arith

  format_packet-flag :
      (p.kind ≡ 0 → (format_packet p).mem 8 ≡ 0xe7) × (p.kind ≢ 0 → (format_packet p).mem 8 ≡ 0xe6)
  unfolding format_packet store16 store
  format_packet-flag = (λ e. ground arith, λ e. ground arith)

  format_packet-behind : (j : ℕ) → 11 ≤ j → (format_packet p).mem j ≡ p.mem j
  unfolding format_packet store16 store
  format_packet-behind j h = ground arith

-- A gateway frame with a data area of at most 1525 bytes, and no fewer than the byte in front of it says that
-- the meter's address has, is accepted by a peer after `reset`, with its length, and the data area is the
-- sender's. What the peer unpacks of it is a wrapper frame with
-- the sender's ports, and as its data area, whose length it claims, the sender's behind the address.
pub unpack-format_packet :
    (n a : ℕ) (p r : Packet)
    → IsReady n a p
    → IsOwn 11 r
    → let q = format_packet p in
      let length16 = swap16 (n - a) in
      (r' : Packet) × (set_packet_buffer (some (packet_bytes q)) q.len_packet r ≡ some r')
      × ((parse_packet r').1 ≡ pos (n + 11))
      × (data_bytes (parse_packet r').0 ≡ data_bytes p)
      × (unpack_to_std_dlms47_data (parse_packet r').0
          ≡ some (
            bytes q.mem 0 6 ++ ((length16 % 256) ∷ (length16 / 256) ∷ bytes p.mem (11 + a) (n - a)),
            8 + (n - a),
          ))
unfolding parse_packet unpack_to_std_dlms47_data
unpack-format_packet n a p r v w =
    let q = format_packet p in
    let e = format_packet-len n a p v in
    let got = received q (n + 11) r in
    let at = mem-received q (n + 11) r in
    let version : load16 got.mem 0 ≡ 0x0100 =
      load16-received q (n + 11) r 0 (omega arith) ∙ format_packet-version n a p v in
    let claimed : swap16 (load16 got.mem 6) ≡ n =
      ap swap16 (load16-received q (n + 11) r 6 (omega arith)) ∙ format_packet-length n a p v in
    let address : got.mem 10 ≡ a = at 10 (omega arith) ∙ format_packet-address n a p v in
    let (f7, f6) = format_packet-flag n a p v in
    let flag : got.mem 8 ≡ q.mem 8 = at 8 (omega arith) in
    let front : bytes got.mem 0 6 ≡ bytes q.mem 0 6 =
      bytes-received q (n + 11) r 0 6 (omega arith) in
    let area : bytes got.mem 11 n ≡ bytes p.mem 11 n =
      bytes-received q (n + 11) r 11 n (omega arith)
      ∙ bytes_agree n q.mem p.mem 11 (λ j lo hi. format_packet-behind n a p v j lo) in
    let rest : bytes got.mem (11 + a) (n - a) ≡ bytes p.mem (11 + a) (n - a) =
      bytes-received q (n + 11) r (11 + a) (n - a) (omega arith)
      ∙ bytes_agree (n - a) q.mem p.mem (11 + a)
          (λ j lo hi. format_packet-behind n a p v j (omega arith)) in
    let size : n + 11 - 11 - a ≡ n - a = omega arith in
    (
      got,
      rw e (set_packet_buffer-received q (n + 11) r (omega arith)),
      ground arith,
      ground arith,
      ground arith,
    )
