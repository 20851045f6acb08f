-- ===== src/Packet/Hdlc/Fields.antt =====
-- The addresses and the control byte of the HDLC header.
use test.Prelude.{ℕ, ◌+◌, ◌*◌, ◌/◌, ◌%◌, ◌^◌, ◌<◌, ◌≡◌, refl, bit_and, bit_or, arith}
use test.Prelude.Tables.{all_below, agree_below}
use test.Memory.Word.{swap32}
use test.Packet.{Packet, head}
use test.Packet.Laws.{head-set8, kind-set8, head-set32, kind-set32}
use test.Packet.Hdlc.{
  get_device_addr, set_device_addr, get_host_id, set_host_id, get_ctrl_code_area, get_cca_recv_seq,
  set_cca_recv_seq, get_cca_pf, set_cca_pf, get_cca_send_seq, set_cca_send_seq, get_cca_end,
  set_cca_end,
}

head-set_cca_recv_seq :
    (v : ℕ) (p : Packet) → head (set_cca_recv_seq v p) 8 ≡ head p 8 % 32 + v % 8 * 32
unfolding set_cca_recv_seq
head-set_cca_recv_seq v p = head-set8 8 (head p 8 % 32 + v % 8 * 32) p

head-set_cca_pf :
    (v : ℕ) (p : Packet) → head (set_cca_pf v p) 8 ≡ head p 8 / 32 * 32 + v % 2 * 16 + head p 8 % 16
unfolding set_cca_pf
head-set_cca_pf v p = head-set8 8 (head p 8 / 32 * 32 + v % 2 * 16 + head p 8 % 16) p

head-set_cca_send_seq :
    (v : ℕ) (p : Packet)
    → head (set_cca_send_seq v p) 8 ≡ head p 8 / 16 * 16 + v % 8 * 2 + head p 8 % 2
unfolding set_cca_send_seq
head-set_cca_send_seq v p = head-set8 8 (head p 8 / 16 * 16 + v % 8 * 2 + head p 8 % 2) p

head-set_cca_end : (v : ℕ) (p : Packet) → head (set_cca_end v p) 8 ≡ head p 8 / 2 * 2 + v % 2
unfolding set_cca_end
head-set_cca_end v p = head-set8 8 (head p 8 / 2 * 2 + v % 2) p

-- The control byte is put together from its four fields: after they are set, in any frame, each is
-- read back, and the byte is their sum with weights 1, 2, 16 and 32.
pub ctrl_fields :
    (end send pf recv : ℕ) (p : Packet)
    → end < 2
    → send < 8
    → pf < 2
    → recv < 8
    → let q = set_cca_end end (set_cca_send_seq send (set_cca_pf pf (set_cca_recv_seq recv p))) in
      (get_cca_end q ≡ end)
      × (get_cca_send_seq q ≡ send)
      × (get_cca_pf q ≡ pf)
      × (get_cca_recv_seq q ≡ recv)
      × (get_ctrl_code_area q ≡ end + 2 * send + 16 * pf + 32 * recv)
unfolding get_cca_end get_cca_send_seq get_cca_pf get_cca_recv_seq get_ctrl_code_area
ctrl_fields end send pf recv p a b c d =
    let p1 = set_cca_recv_seq recv p in
    let p2 = set_cca_pf pf p1 in
    let p3 = set_cca_send_seq send p2 in
    omega (
      arith,
      head-set_cca_recv_seq recv p,
      head-set_cca_pf pf p1,
      head-set_cca_send_seq send p2,
      head-set_cca_end end p3,
    )

host_byte : (id : ℕ) → id < 128 → bit_or 0x01 (bit_and (id * 2) 0xfe) / 2 ≡ id
unfolding all_below
host_byte = agree_below 128 (λ id. bit_or 0x01 (bit_and (id * 2) 0xfe) / 2) (λ id. id) refl

-- The third and fourth byte of the address as it is stored.
address_bytes :
    (addr : ℕ)
    → addr < 2 ^ 14
    → let w = swap32 (2 ^ 17 + addr / 128 % 2 ^ 8 * 2 ^ 9 + addr % 128 * 2 + 1) in
      w / 65536 % 256 / 2 * 128 + w / 16777216 % 256 / 2 ≡ addr
unfolding swap32
address_bytes addr h = omega arith

-- A host of seven bits that is set is read back, and so is a device address of fourteen bits, in a
-- frame of either direction.
pub addresses_read_back :
    (addr id : ℕ) (p : Packet)
    → addr < 2 ^ 14
    → id < 2 ^ 7
    → (get_device_addr (set_device_addr addr p) ≡ addr) × (get_host_id (set_host_id id p) ≡ id)
unfolding get_device_addr set_device_addr get_host_id set_host_id
addresses_read_back addr id p ha hi =
    let w = swap32 (2 ^ 17 + addr / 128 % 2 ^ 8 * 2 ^ 9 + addr % 128 * 2 + 1) in
    let v = bit_or 0x01 (bit_and (id * 2) 0xfe) in
    (
      ground (
        arith,
        address_bytes addr ha,
        head-set32 3 w p,
        head-set32 4 w p,
        kind-set32 3 w p,
        kind-set32 4 w p,
      ),
      ground (
        arith,
        host_byte id hi,
        head-set8 7 v p,
        head-set8 3 v p,
        kind-set8 7 v p,
        kind-set8 3 v p,
      ),
    )
