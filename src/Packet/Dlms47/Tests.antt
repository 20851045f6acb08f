-- ===== src/Packet/Dlms47/Tests.antt =====
-- Wrapper frames with concrete bytes.
use test.Prelude.{◌+◌, ◌<◌, ◌≡◌, ◌≢◌, refl, [], ◌∷◌, some, arith}
use test.Prelude.Int.{pos, minus_one}
use test.Memory.{zeroes, copy_to, bytes, load16, store16}
use test.Memory.Word.{swap16}
use test.Packet.{Packet, set_packet_buffer, set_data_area_buffer, packet_bytes, data_bytes, own}
use test.Packet.Laws.{IsOwn, received, set_data_area_buffer_lem}
use test.Packet.Dlms47.{new, format_packet, parse_packet, get_src_port, pack_to_gateway_data}
use test.Packet.Dlms47.RoundTrip.{IsReady, parse_packet-format_packet, parse_packet_unchecked}
use test.Prelude.{◌-◌, ◌≤◌}

abbrev ready : Packet
ready = record {
  mem = copy_to zeroes 2 (0 ∷ 1 ∷ 0 ∷ 16 ∷ 0 ∷ 0 ∷ 0xc0 ∷ 1 ∷ 0x81 ∷ []);
  header = own;
  kind = 1;
  data_off = 8;
  len_packet = pos 0;
  len_data_area = pos 3;
  len_header = 8;
}

-- What a peer has after `reset`.
abbrev peer : Packet
peer = record ready { mem = zeroes; kind = 0; len_data_area = pos 0 }

-- A header that claims 5000 bytes.
abbrev boaster : Packet
boaster = record ready { mem = copy_to zeroes 0 (0 ∷ 1 ∷ 0 ∷ 1 ∷ 0 ∷ 1 ∷ 19 ∷ 136 ∷ []) }

new-IsOwn : IsOwn 8 (new 1)
unfolding new
new-IsOwn = record { at_own = refl; head_len = refl; area = refl }

peer-IsOwn : IsOwn 8 peer
peer-IsOwn = record { at_own = refl; head_len = refl; area = refl }

ready-IsReady : IsReady 3 ready
ready-IsReady = record {
  fresh = record { at_own = refl; head_len = refl; area = refl };
  filled = refl;
  fits = omega arith;
}

format_ready :
    packet_bytes (format_packet ready) ≡ 0 ∷ 1 ∷ 0 ∷ 1 ∷ 0 ∷ 16 ∷ 0 ∷ 3 ∷ 0xc0 ∷ 1 ∷ 0x81 ∷ []
unfolding format_packet bytes store16 copy_to swap16
format_ready = refl

gateway_ready :
    pack_to_gateway_data (0x31 ∷ 0x32 ∷ []) 2 (format_packet ready)
    ≡ some (0 ∷ 1 ∷ 0 ∷ 1 ∷ 0 ∷ 16 ∷ 0 ∷ 8 ∷ 0xe6 ∷ 0 ∷ 2 ∷ 0x31 ∷ 0x32 ∷ 0xc0 ∷ 1 ∷ 0x81 ∷ [], 16)
unfolding pack_to_gateway_data format_packet bytes store16 copy_to swap16
gateway_ready = refl

parse_packet-format_packet_example :
    (r' : Packet) × (set_packet_buffer
        (some (packet_bytes (format_packet ready)))
        (format_packet ready).len_packet
        peer
      ≡ some r')
    × ((parse_packet r').1 ≡ pos 11)
    × (data_bytes (parse_packet r').0 ≡ data_bytes ready)
    × (get_src_port (parse_packet r').0 ≡ get_src_port ready)
    × (packet_bytes (parse_packet r').0 ≡ packet_bytes (format_packet ready))
parse_packet-format_packet_example =
    parse_packet-format_packet 3 ready peer ready-IsReady peer-IsOwn

parse_packet_unchecked_example :
    (load16 boaster.mem 0 ≡ 0x0100
      → (parse_packet (received boaster 20 peer)).1 ≡ pos (swap16 (load16 boaster.mem 6) + 8))
    × (load16 boaster.mem 0 ≢ 0x0100 → (parse_packet (received boaster 20 peer)).1 ≡ minus_one)
parse_packet_unchecked_example = parse_packet_unchecked 20 boaster peer (omega arith) peer-IsOwn

-- Twenty bytes were received, and 5008 are reported.
boaster_reported : (parse_packet (received boaster 20 peer)).1 ≡ pos 5008
unfolding parse_packet load16 bytes copy_to swap16
boaster_reported = refl

set_data_area_buffer_lem_example :
    (2 ≤ 1536 - 8
      → (q : Packet) × (set_data_area_buffer (some (7 ∷ 9 ∷ [])) (pos 2) peer ≡ some q)
        × (data_bytes q ≡ 7 ∷ 9 ∷ [])
        × (q.len_data_area ≡ pos 2)
        × IsOwn 8 q)
    × (1536 - 8 < 2 → set_data_area_buffer (some (7 ∷ 9 ∷ [])) (pos 2) peer ≡ some peer)
set_data_area_buffer_lem_example =
    set_data_area_buffer_lem 8 (7 ∷ 9 ∷ []) peer peer-IsOwn (omega arith)
