-- ===== src/Packet/Ansi/Tests.antt =====
-- ANSI frames with concrete bytes; the check of the tests is the sum of the bytes.
use test.Prelude.{ℕ, ◌+◌, ◌%◌, ◌^◌, ◌≤◌, ◌<◌, ◌≡◌, refl, List, [], ◌∷◌, some, arith}
use test.Prelude.Int.{pos}
use test.Memory.{zeroes, copy_to, bytes, load16}
use test.Memory.Word.{swap16}
use test.Packet.{Packet, set_packet_buffer, packet_bytes, data_bytes, own, max_packet_length}
use test.Packet.Laws.{IsOwn}
use test.Packet.Ansi.{format_packet, parse_packet, parse_header, checked}
use test.Packet.Ansi.RoundTrip.{parse_ansi-format_ansi, parse_ansi_sound}

sum : List ℕ → ℕ
sum [] = 0
sum (b ∷ bs) = b + sum bs

abbrev crc : List ℕ → ℕ
crc bs = sum bs % 2 ^ 16

crc-lt : (bs : List ℕ) → crc bs < 2 ^ 16
crc-lt bs = omega arith

abbrev peer : Packet
peer = record {
  mem = zeroes;
  header = own;
  kind = 0;
  data_off = 7;
  len_packet = pos 0;
  len_data_area = pos 0;
  len_header = 7;
}

abbrev ready : Packet
ready = record peer {
  mem = copy_to zeroes 2 (0x20 ∷ 5 ∷ 0 ∷ 0 ∷ 0x50 ∷ 1 ∷ 2 ∷ 3 ∷ []);
  len_data_area = pos 3;
}

own_buffer : IsOwn 7 peer
own_buffer = record { at_own = refl; head_len = refl; area = refl }

ready_buffer : IsOwn 7 ready
ready_buffer = record { at_own = refl; head_len = refl; area = refl }

parse_ansi-format_ansi_example :
    (q r' r'' : Packet) × (format_packet crc ready ≡ some q)
    × (set_packet_buffer (some (packet_bytes q)) q.len_packet peer ≡ some r')
    × (parse_packet crc r' ≡ (r'', pos 12))
    × (data_bytes r'' ≡ data_bytes ready)
    × (bytes r''.mem 2 2 ≡ bytes ready.mem 2 2)
    × (r''.mem 6 ≡ ready.mem 6)
parse_ansi-format_ansi_example =
    parse_ansi-format_ansi crc 3 ready ready_buffer refl (omega arith) crc-lt peer own_buffer

-- A frame with one byte of data: 0xee + 2 + 9 is the check.
abbrev arrived : Packet
arrived = record peer { mem = copy_to zeroes 0 (0xee ∷ 0 ∷ 0 ∷ 0 ∷ 0 ∷ 2 ∷ 0 ∷ 9 ∷ 0xf9 ∷ 0 ∷ []) }

arrived_buffer : IsOwn 7 arrived
arrived_buffer = record { at_own = refl; head_len = refl; area = refl }

accepted : (parse_packet crc arrived).1 ≡ pos 10
unfolding parse_packet parse_header checked copy_to load16 swap16 bytes sum
accepted = refl

parse_ansi_sound_example :
    (arrived.mem 0 ≡ 0xee)
    × (arrived.mem 1 ≡ 0)
    × (10 ≤ max_packet_length)
    × (10 ≡ swap16 (load16 arrived.mem 4) + 8)
    × (load16 arrived.mem 8 ≡ crc (bytes arrived.mem 0 8))
parse_ansi_sound_example = parse_ansi_sound crc arrived 10 arrived_buffer accepted
