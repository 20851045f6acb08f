-- ===== src/Module/Hdlc/Carrying.antt =====
-- A message that dlms2hdlc puts in an HDLC frame, with the parse of the peer, and hdlc2dlms.
use test.Prelude.{
  Bool-cases, inl, inr, ◌==◌, ℕ, suc, ◌+◌, ◌≤◌, ◌≡◌, refl, ap, sym, ◌∙◌, arith, List, ◌∷◌, some,
  true, leb, length, drop,
}
use test.Prelude.Int.{ℤ, pos, negsuc}
use test.Memory.{bytes}
use test.Memory.Block.{length-bytes}
use test.Packet.{
  max_packet_length, Packet, count, data_bytes, packet_bytes, set_packet_buffer,
  set_data_area_buffer, set8, set16,
}
use test.Packet.Laws.{IsOwn, set_data_area_buffer_lem}
use test.Packet.Hdlc.{
  format_packet, parse_packet, set_host_id, set_cca_recv_seq, set_cca_pf, set_cca_send_seq,
  set_cca_end,
}
use test.Packet.Hdlc.RoundTrip.{parse_packet-format_data}
use test.Packet.Dlms47.RoundTrip.{IsReady, format_packet-data, format_packet-len}
use test.Module.Hdlc.{send_area, llc_area, llc_length, information_frame, dlms2hdlc, hdlc2dlms}

set8-IsOwn : (off v h : ℕ) (p : Packet) → IsOwn h p → IsOwn h (set8 off v p)
unfolding set8
set8-IsOwn off v h p o = record {
  at_own = ground (arith, o.at_own);
  head_len = ground (arith, o.head_len);
  area = ground (arith, o.area);
}

set16-IsOwn : (off v h : ℕ) (p : Packet) → IsOwn h p → IsOwn h (set16 off v p)
unfolding set16
set16-IsOwn off v h p o = record {
  at_own = ground (arith, o.at_own);
  head_len = ground (arith, o.head_len);
  area = ground (arith, o.area);
}

set_host_id-IsOwn : (id h : ℕ) (p : Packet) → IsOwn h p → IsOwn h (set_host_id id p)
unfolding set_host_id
set_host_id-IsOwn id h p o = elim (Bool-cases (p.kind == 1)) [
  | inl e ↦ rw (e) (set8-IsOwn 7 _ h p o)
  | inr e ↦ rw (e) (set8-IsOwn 3 _ h p o)
]

information_frame-IsOwn :
    (id recv send : ℕ) (p : Packet) → IsOwn 11 p → IsOwn 11 (information_frame id recv send p)
unfolding information_frame set_cca_recv_seq set_cca_pf set_cca_send_seq set_cca_end
information_frame-IsOwn id recv send p o =
    set8-IsOwn 8 _ 11 _ (
      set8-IsOwn 8 _ 11 _ (set8-IsOwn 8 _ 11 _ (set8-IsOwn 8 _ 11 _ (set_host_id-IsOwn id 11 p o))))

host-IsOwn : (id h : ℕ) (p : Packet) → IsOwn h p → IsOwn h (test.Packet.Dlms47.set_host_id id p)
unfolding test.Packet.Dlms47.set_host_id
host-IsOwn id h p o = elim (Bool-cases (p.kind == 1)) [
  | inl e ↦ rw (e) (set16-IsOwn 2 _ h p o)
  | inr e ↦ rw (e) (set16-IsOwn 4 _ h p o)
]

device-IsOwn :
    (id h : ℕ) (p : Packet) → IsOwn h p → IsOwn h (test.Packet.Dlms47.set_device_addr id p)
unfolding test.Packet.Dlms47.set_device_addr
device-IsOwn id h p o = elim (Bool-cases (p.kind == 1)) [
  | inl e ↦ rw (e) (set16-IsOwn 4 _ h p o)
  | inr e ↦ rw (e) (set16-IsOwn 2 _ h p o)
]

sent_area :
    (message : List ℕ) (p : Packet)
    → IsOwn 11 p
    → length message ≤ 1011
    → (q : Packet) × (send_area message p ≡ format_packet q)
      × (data_bytes q ≡ message)
      × (q.len_data_area ≡ pos (length message))
      × IsOwn 11 q
unfolding send_area
sent_area message p o h =
    let (q, g, d, k, w) = (set_data_area_buffer_lem 11 message p o (omega arith)).0 (omega arith) in
    (q, rw (g, send_area) refl, d, k, w)

in_one_area :
    (n off : ℕ) (bs : List ℕ) (p : Packet)
    → n ≤ 1008
    → off ≡ 8
    → llc_area (pos n) off bs p ≡ send_area (0xe6 ∷ 0xe6 ∷ 0x00 ∷ bs) p
unfolding llc_area
in_one_area n off bs p h at =
    let small : leb (3 + n) 1024 ≡ true = ground arith in
    let inside : leb (off + n) max_packet_length ≡ true = ground arith in rw (small, inside) refl

-- What is put in a frame, with its LLC header.
framed :
    (n id recv send : ℕ) (p x : Packet)
    → IsOwn 11 p
    → IsOwn 8 x
    → x.len_data_area ≡ pos n
    → n ≤ 1008
    → (q : Packet) × (dlms2hdlc id recv send p x ≡ format_packet q)
      × (data_bytes q ≡ 0xe6 ∷ 0xe6 ∷ 0x00 ∷ data_bytes x)
      × (q.len_data_area ≡ pos (suc (n + 2)))
      × IsOwn 11 q
unfolding dlms2hdlc
framed n id recv send p x o u e h =
    let message : List ℕ = 0xe6 ∷ 0xe6 ∷ 0x00 ∷ data_bytes x in
    let frame = information_frame id recv send p in
    let size : length (data_bytes x) ≡ n =
      length-bytes (count x.len_data_area) x.mem x.data_off ∙ ap count e in
    let total : length message ≡ suc (n + 2) = omega arith in
    let (q, g, d, k, w) =
      sent_area message frame (information_frame-IsOwn id recv send p o) (omega arith) in
    (
      q,
      ap (λ l. llc_area l x.data_off (data_bytes x) frame) e
          ∙ in_one_area n x.data_off (data_bytes x) frame h u.area
          ∙ g,
      d,
      k ∙ ap pos total,
      w,
    )

at_area :
    (p : Packet) (n : ℕ) → p.data_off ≡ 8 → p.len_data_area ≡ pos n → data_bytes p ≡ bytes p.mem 8 n
at_area p n off len = rw (off, len) refl

kept_off : (q : Packet) → q.data_off ≡ 8 → (test.Packet.Dlms47.format_packet q).data_off ≡ 8
unfolding test.Packet.Dlms47.format_packet set16
kept_off q h = ground (arith, h)

kept_len : (q : Packet) → (test.Packet.Dlms47.format_packet q).len_data_area ≡ q.len_data_area
unfolding test.Packet.Dlms47.format_packet set16
kept_len q = ground arith

same_area :
    (n : ℕ) (q : Packet)
    → IsReady n q
    → data_bytes (test.Packet.Dlms47.format_packet q) ≡ data_bytes q
same_area n q v =
    let off : (test.Packet.Dlms47.format_packet q).data_off ≡ 8 = kept_off q v.fresh.area in
    let len : (test.Packet.Dlms47.format_packet q).len_data_area ≡ pos n = kept_len q ∙ v.filled in
    at_area (test.Packet.Dlms47.format_packet q) n off len
    ∙ (format_packet-data n q v ∙ sym (at_area q n v.fresh.area v.filled))

formatted :
    (buf : List ℕ) (p : Packet)
    → IsOwn 8 p
    → length buf ≤ 1008
    → (q : Packet) × (set_data_area_buffer (some buf) (pos (length buf)) p ≡ some q)
      × (data_bytes (test.Packet.Dlms47.format_packet q) ≡ buf)
      × ((test.Packet.Dlms47.format_packet q).len_packet ≡ pos (length buf + 8))
formatted buf p o h =
    let (q, g, d, k, w) = (set_data_area_buffer_lem 8 buf p o (omega arith)).0 (omega arith) in
    let ready : IsReady (length buf) q = record { fresh = w; filled = k; fits = omega arith } in
    (q, g, same_area (length buf) q ready ∙ d, format_packet-len (length buf) q ready)

-- What is taken out of a frame.
unframed :
    (n : ℕ) (p y : Packet) (buf : List ℕ)
    → IsOwn 8 y
    → p.len_data_area ≡ pos (suc (n + 2))
    → drop 3 (data_bytes p) ≡ buf
    → length buf ≡ n
    → n ≤ 1008
    → (z : Packet) × (hdlc2dlms p y ≡ some z) × (data_bytes z ≡ buf) × (z.len_packet ≡ pos (n + 8))
unfolding hdlc2dlms llc_length
unframed n p y buf o e c l h =
    let y1 = test.Packet.Dlms47.set_device_addr 1 (test.Packet.Dlms47.set_host_id 1 y) in
    let (q, g, d, k) = formatted buf y1 (device-IsOwn 1 8 _ (host-IsOwn 1 8 y o)) (omega arith) in
    let three : llc_length (pos (suc (n + 2))) ≡ pos n = ground arith in
    (
      test.Packet.Dlms47.format_packet q,
      rw (c, e, three, sym l, g, hdlc2dlms) refl,
      d,
      k ∙ ap (λ j. pos (j + 8)) l,
    )

count-pos : (l : ℤ) (k : ℕ) → count l ≡ suc k → l ≡ pos (suc k)
count-pos (pos n) k h = ap pos h
count-pos (negsuc n) k h = absurd (omega (arith, h))

-- A message of ptcl_packet_dlms47 with at most 1008 bytes survives its way over HDLC: the frame that dlms2hdlc
-- builds around it is accepted by a peer, whose parse gives its length, and hdlc2dlms puts just the bytes of the
-- message in a packet of the peer, with eight more for its header. It holds where the four packets have their
-- headers, of 11 bytes for HDLC, at the front of their own buffers, whatever the station and the sequence
-- numbers are.
pub hdlc2dlms-dlms2hdlc :
    (n id recv send : ℕ) (x p r y : Packet)
    → IsOwn 8 x
    → x.len_data_area ≡ pos n
    → n ≤ 1008
    → IsOwn 11 p
    → IsOwn 11 r
    → IsOwn 8 y
    → (q r' r'' z : Packet) × (dlms2hdlc id recv send p x ≡ some q)
      × (set_packet_buffer (some (packet_bytes q)) q.len_packet r ≡ some r')
      × (parse_packet r' ≡ some (r'', pos (n + 17)))
      × (hdlc2dlms r'' y ≡ some z)
      × (data_bytes z ≡ data_bytes x)
      × (z.len_packet ≡ pos (n + 8))
hdlc2dlms-dlms2hdlc n id recv send x p r y u e h o w v =
    let (f, made, held, filled, own_frame) = framed n id recv send p x o u e h in
    let (q, r', r'', built, got, parsed, same, _) =
      parse_packet-format_data (n + 2) f r own_frame w filled (omega arith) in
    let size : length (data_bytes x) ≡ n =
      length-bytes (count x.len_data_area) x.mem x.data_off ∙ ap count e in
    let inner : drop 3 (data_bytes r'') ≡ data_bytes x =
      ap (λ (l : List ℕ). drop 3 l) (same ∙ held) in
    let number : count r''.len_data_area ≡ suc (n + 2) =
      sym (length-bytes (count r''.len_data_area) r''.mem r''.data_off)
      ∙ (ap (λ (l : List ℕ). length l) (same ∙ held) ∙ omega (arith, size)) in
    let (z, taken, d, len) =
      unframed n r'' y (data_bytes x) v (count-pos r''.len_data_area (n + 2) number) inner size h in
    let total : suc (n + 2) + 14 ≡ n + 17 = omega arith in
    (q, r', r'', z, made ∙ built, got, parsed ∙ ap (λ k. some (r'', pos k)) total, taken, d, len)
