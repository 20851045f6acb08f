-- ===== src/Module/Hdlc/Tests.antt =====
-- A message in an HDLC frame.
use test.Prelude.{ℕ, ◌≡◌, refl, arith, [], ◌∷◌, some, none}
use test.Prelude.Int.{pos}
use test.Memory.{zeroes, copy_to}
use test.Packet.{Packet, data_bytes, packet_bytes, set_packet_buffer}
use test.Packet.Laws.{IsOwn}
use test.Packet.Hdlc.{new, reset, parse_packet}
use test.Module.Hdlc.{dlms2hdlc, hdlc2dlms}
use test.Module.Hdlc.Carrying.{hdlc2dlms-dlms2hdlc}

abbrev wrapped : ℕ → Packet
wrapped k = test.Packet.Dlms47.new k

wrapped-IsOwn : (k : ℕ) → IsOwn 8 (wrapped k)
unfolding test.Packet.Dlms47.new test.Packet.Dlms47.reset
wrapped-IsOwn k = record { at_own = refl; head_len = refl; area = refl }

new-IsOwn : (k : ℕ) → IsOwn 11 (new k)
unfolding new reset
new-IsOwn k = record { at_own = refl; head_len = refl; area = refl }

-- A request to release an association.
abbrev release : Packet
release = record (wrapped 1) {
  mem = copy_to zeroes 8 (0x62 ∷ 0x00 ∷ []);
  data_off = 8;
  len_data_area = pos 2;
}

release-IsOwn : IsOwn 8 release
unfolding test.Packet.Dlms47.new test.Packet.Dlms47.reset
release-IsOwn = record { at_own = refl; head_len = refl; area = refl }

hdlc2dlms-dlms2hdlc_example :
    (q r' r'' z : Packet) × (dlms2hdlc 16 0 0 (new 1) release ≡ some q)
    × (set_packet_buffer (some (packet_bytes q)) q.len_packet (new 0) ≡ some r')
    × (parse_packet r' ≡ some (r'', pos 19))
    × (hdlc2dlms r'' (wrapped 0) ≡ some z)
    × (data_bytes z ≡ data_bytes release)
    × (z.len_packet ≡ pos 10)
hdlc2dlms-dlms2hdlc_example =
    hdlc2dlms-dlms2hdlc 2 16 0 0 release (new 1) (new 0) (wrapped 0) release-IsOwn refl
      (omega arith) (new-IsOwn 1) (new-IsOwn 0) (wrapped-IsOwn 0)

-- A message of 1022 bytes is written over the end of the array.
long_message : dlms2hdlc 16 0 0 (new 1) (record release { len_data_area = pos 1022 }) ≡ none
unfolding dlms2hdlc
long_message = refl
