-- ===== src/Module/Hdlc.antt =====
-- simulator_meter/common/ptcl_codec/ptcl_module_hdlc.cpp: the opening and the closing of an HDLC link, and
-- the messages of ptcl_packet_dlms47 in HDLC frames.
pub mod Carrying
mod Tests
use test.Prelude.{ℕ, ◌+◌, List, [], ◌∷◌, Option, none, some, leb, if◌then◌else◌, ◌&&◌, length, drop}
use test.Prelude.Int.{ℤ, pos, negsuc, sub_ℕ}
use test.Packet.{Packet, max_packet_length, data_bytes, set_data_area_buffer}
use test.Packet.Hdlc.{
  format_packet, set_host_id, set_ctrl_code_area, set_cca_recv_seq, set_cca_pf, set_cca_send_seq,
  set_cca_end,
}

-- `ctrl_code`
abbrev pub ctrl_code_snrm : ℕ
ctrl_code_snrm = 0x93

abbrev pub ctrl_code_disc : ℕ
ctrl_code_disc = 0x53

-- `set_data_area_buffer(buf, length)`, then `format_packet()`.
pub send_area : List ℕ → Packet → Option Packet
send_area buf p = elim (set_data_area_buffer (some buf) (pos (length buf)) p) [
  | none ↦ none
  | some q ↦ format_packet q
]

-- The sizes and windows that the caller gives are not used.
unfoldable pub format_packet_hdlc_connect : ℕ → Packet → Option Packet
unfolding send_area
format_packet_hdlc_connect host_id p =
    send_area
      (0x81 ∷ 0x80 ∷ 0x14 ∷ 0x05 ∷ 0x02 ∷ 0x04 ∷ 0x00 ∷ 0x06 ∷ 0x02 ∷ 0x04 ∷ 0x00 ∷ 0x07 ∷ 0x04
        ∷ 0x00 ∷ 0x00 ∷ 0x00 ∷ 0x01 ∷ 0x08 ∷ 0x04 ∷ 0x00 ∷ 0x00 ∷ 0x00 ∷ 0x07 ∷ [])
      (set_ctrl_code_area ctrl_code_snrm (set_host_id host_id p))

unfoldable pub format_packet_hdlc_disconnect : ℕ → Packet → Option Packet
format_packet_hdlc_disconnect host_id p =
    format_packet (set_ctrl_code_area ctrl_code_disc (set_host_id host_id p))

-- The address and the control byte.
unfoldable pub information_frame : ℕ → ℕ → ℕ → Packet → Packet
information_frame host_id recv_seq send_seq p =
    set_cca_end 0
      (set_cca_send_seq send_seq (set_cca_pf 1 (set_cca_recv_seq recv_seq (set_host_id host_id p))))

-- `memcpy` to the 1024 bytes of `buf_data_area`, of which three hold the LLC header; a negative length is a
-- size far behind them. `off` is the offset of the data in the buffer of the other packet.
pub llc_area : ℤ → ℕ → List ℕ → Packet → Option Packet
unfolding send_area
llc_area (negsuc _) off bs p = none
llc_area (pos n) off bs p =
    if leb (3 + n) 1024 && leb (off + n) max_packet_length
    then send_area (0xe6 ∷ 0xe6 ∷ 0x00 ∷ bs) p
    else none

unfoldable pub dlms2hdlc : ℕ → ℕ → ℕ → Packet → Packet → Option Packet
unfolding information_frame llc_area
dlms2hdlc host_id recv_seq send_seq packet packet47 =
    llc_area packet47.len_data_area packet47.data_off (data_bytes packet47)
      (information_frame host_id recv_seq send_seq packet)

-- The length without the LLC header, negative where the data area has less than three bytes.
pub llc_length : ℤ → ℤ
llc_length (negsuc n) = negsuc (n + 3)
llc_length (pos n) = sub_ℕ n 3

unfoldable pub hdlc2dlms : Packet → Packet → Option Packet
unfolding llc_length
hdlc2dlms packet packet47 =
    let p = test.Packet.Dlms47.set_device_addr 1 (test.Packet.Dlms47.set_host_id 1 packet47) in
    elim (set_data_area_buffer (some (drop 3 (data_bytes packet))) (llc_length packet.len_data_area)
      p) [ none ↦ none | some q ↦ some (test.Packet.Dlms47.format_packet q) ]
