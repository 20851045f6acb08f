-- ===== src/Packet/Gateway/Tests.antt =====
-- Gateway frames with concrete bytes.
use test.Prelude.{◌/◌, ◌%◌, ◌≡◌, refl, [], ◌∷◌, ◌++◌, none, some, arith}
use test.Prelude.Int.{pos}
use test.Memory.{zeroes, copy_to, bytes, load16, store}
use test.Memory.Word.{swap16}
use test.Packet.{Packet, set_packet_buffer, packet_bytes, data_bytes, own}
use test.Packet.Laws.{IsOwn}
use test.Packet.Gateway.{
  new, format_packet, parse_packet, get_physical_addr, unpack_to_std_dlms47_data,
}
use test.Packet.Gateway.RoundTrip.{IsReady, unpack-format_packet}

-- Three bytes of data behind an address of two characters.
abbrev ready : Packet
ready = record {
  mem = copy_to zeroes 2 (0 ∷ 1 ∷ 0 ∷ 16 ∷ 0 ∷ 0 ∷ 0 ∷ 0 ∷ 2 ∷ 0x31 ∷ 0x32 ∷ 0xc0 ∷ 1 ∷ 0x81 ∷ []);
  header = own;
  kind = 1;
  data_off = 11;
  len_packet = pos 0;
  len_data_area = pos 5;
  len_header = 11;
}

abbrev peer : Packet
peer = record ready { mem = zeroes; kind = 0; len_data_area = pos 0 }

-- A wrapper frame with the same data.
abbrev wrapper : Packet
wrapper = record {
  mem = copy_to zeroes 0 (0 ∷ 1 ∷ 0 ∷ 1 ∷ 0 ∷ 16 ∷ 0 ∷ 3 ∷ 0xc0 ∷ 1 ∷ 0x81 ∷ []);
  header = own;
  kind = 1;
  data_off = 8;
  len_packet = pos 11;
  len_data_area = pos 3;
  len_header = 8;
}

new-IsOwn : IsOwn 11 (new 1)
unfolding new
new-IsOwn = record { at_own = refl; head_len = refl; area = refl }

peer-IsOwn : IsOwn 11 peer
peer-IsOwn = record { at_own = refl; head_len = refl; area = refl }

ready-IsReady : IsReady 5 2 ready
unfolding copy_to store
ready-IsReady = record {
  fresh = record { at_own = refl; head_len = refl; area = refl };
  filled = refl;
  fits = omega arith;
  addressed = refl;
  shorter = omega arith;
}

address_ready : get_physical_addr ready ≡ some (0x31 ∷ 0x32 ∷ [])
unfolding get_physical_addr copy_to bytes
address_ready = refl

address_full : get_physical_addr (record ready { mem = store (λ i. 0x30) 10 64 }) ≡ none
unfolding get_physical_addr bytes store
address_full = refl

unpack-format_packet_example :
    (r' : Packet) × (set_packet_buffer
        (some (packet_bytes (format_packet ready)))
        (format_packet ready).len_packet
        peer
      ≡ some r')
    × ((parse_packet r').1 ≡ pos 16)
    × (data_bytes (parse_packet r').0 ≡ data_bytes ready)
    × (unpack_to_std_dlms47_data (parse_packet r').0
        ≡ some (
          bytes (format_packet ready).mem 0 6
              ++ ((swap16 3 % 256) ∷ (swap16 3 / 256) ∷ bytes ready.mem 13 3),
          11,
        ))
unpack-format_packet_example = unpack-format_packet 5 2 ready peer ready-IsReady peer-IsOwn

wrapper_version : load16 wrapper.mem 0 ≡ 0x0100
unfolding load16 copy_to
wrapper_version = refl
