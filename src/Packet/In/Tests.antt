-- ===== src/Packet/In/Tests.antt =====
-- Internal frames with concrete bytes.
use test.Prelude.{◌+◌, ◌≤◌, ◌≡◌, refl, [], ◌∷◌, some, arith}
use test.Prelude.Int.{pos}
use test.Memory.{zeroes, copy_to, bytes, load16, store}
use test.Memory.Word.{swap16}
use test.Packet.{Packet, set_packet_buffer, packet_bytes, data_bytes, own, head, max_packet_length}
use test.Packet.Laws.{IsOwn}
use test.Packet.In.{new, format_packet, parse_packet}
use test.Packet.In.RoundTrip.{IsReady, parse_in-format_in, parse_in_sound}
use test.Packet.In.Fields.{Fields, IsSized}

abbrev peer : Packet
peer = record {
  mem = zeroes;
  header = own;
  kind = 0;
  data_off = 24;
  len_packet = pos 0;
  len_data_area = pos 0;
  len_header = 24;
}

abbrev ready : Packet
ready = record peer {
  mem = copy_to (store zeroes 7 9) 24 (0xc0 ∷ 1 ∷ 0x81 ∷ []);
  len_data_area = pos 3;
}

-- A received frame with a data area of two bytes.
abbrev arrived : Packet
arrived = record peer { mem = store (store (store zeroes 0 0x68) 23 0x16) 22 2 }

abbrev some_fields : Fields
some_fields = record {
  sender_id = 70000;
  sender_type = 1;
  protocol_type = 2;
  frame_seq = 200;
  event_type = 3;
  event_sub_type = 513;
  transfer_id = 4000000000;
  transfer_type = 4;
  receiver_id = 5;
  receiver_type = 6;
}

new-IsOwn : IsOwn 24 new
unfolding new
new-IsOwn = record { at_own = refl; head_len = refl; area = refl }

peer-IsOwn : IsOwn 24 peer
peer-IsOwn = record { at_own = refl; head_len = refl; area = refl }

arrived-IsOwn : IsOwn 24 arrived
arrived-IsOwn = record { at_own = refl; head_len = refl; area = refl }

ready-IsReady : IsReady 3 ready
ready-IsReady = record {
  fresh = record { at_own = refl; head_len = refl; area = refl };
  filled = refl;
  fits = omega arith;
}

some_fields-IsSized : IsSized some_fields
some_fields-IsSized = record {
  sender_fits = omega arith;
  event_fits = omega arith;
  transfer_fits = omega arith;
  receiver_fits = omega arith;
}

parse_in-format_in_example :
    (r' : Packet) × (set_packet_buffer
        (some (packet_bytes (format_packet ready)))
        (format_packet ready).len_packet
        peer
      ≡ some r')
    × ((parse_packet r').1 ≡ pos 27)
    × (data_bytes (parse_packet r').0 ≡ data_bytes ready)
    × (bytes (parse_packet r').0.mem 1 20 ≡ bytes ready.mem 1 20)
parse_in-format_in_example = parse_in-format_in 3 ready peer ready-IsReady peer-IsOwn

parse_arrived : (parse_packet arrived).1 ≡ pos 26
unfolding parse_packet load16 swap16 store
parse_arrived = refl

parse_in_sound_example :
    (head arrived 0 ≡ 0x68)
    × (head arrived 23 ≡ 0x16)
    × (26 ≡ 24 + swap16 (load16 (head arrived) 21))
    × (26 ≤ max_packet_length)
parse_in_sound_example = parse_in_sound arrived 26 arrived-IsOwn parse_arrived
