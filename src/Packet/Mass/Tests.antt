-- ===== src/Packet/Mass/Tests.antt =====
-- Frames of ptcl_packet_mass with concrete bytes.
use test.Prelude.{◌≡◌, refl, [], ◌∷◌, some, none}
use test.Prelude.Int.{pos}
use test.Memory.{zeroes, copy_to, bytes, load16, store16, store}
use test.Packet.{Packet, packet_bytes, own}
use test.Packet.Mass.Wrapper.{mass_as_dlms47}
use test.Packet.Mass.{
  parse_header_at, format_packet, parse_packet, reset, get_device_addr, set_device_addr,
}

abbrev get_frame : Packet
get_frame = record {
  mem = copy_to zeroes 4 (0xc0 ∷ 1 ∷ 0x81 ∷ []);
  header = own;
  kind = 1;
  data_off = 4;
  len_packet = pos 0;
  len_data_area = pos 3;
  len_header = 4;
}

abbrev frame : Packet
frame = record get_frame { kind = 0; data_off = 8; len_header = 8 }

unset_pointer : get_device_addr get_frame ≡ none
unfolding get_device_addr
unset_pointer = refl

device_addr_read_back : get_device_addr (set_device_addr 0x1234 frame) ≡ some 0x1234
unfolding get_device_addr set_device_addr test.Packet.set16 test.Memory.Word.swap16 load16 store16
device_addr_read_back = refl

mass_as_dlms47_example :
    (reset frame ≡ test.Packet.Dlms47.reset frame)
    × (format_packet frame ≡ test.Packet.Dlms47.format_packet frame)
    × (parse_packet frame ≡ test.Packet.Dlms47.parse_packet frame)
    × (parse_header_at zeroes (pos 8) frame
        ≡ test.Packet.Dlms47.parse_header_at zeroes (pos 8) frame)
mass_as_dlms47_example = mass_as_dlms47 frame zeroes (pos 8) refl
