-- ===== src/Packet/Hdlc/Tests.antt =====
-- HDLC frames with concrete bytes.
use test.Prelude.{
  bit_and, sym, ◌∙◌, ℕ, suc, ◌+◌, ◌≡◌, ◌≢◌, refl, [], ◌∷◌, none, some, arith, get_or,
}
use test.Prelude.Int.{pos, minus_one}
use test.Memory.{zeroes, copy_to, bytes, load16, store16}
use test.Memory.Word.{swap16}
use test.Packet.{Packet, own, set_packet_buffer, packet_bytes, data_bytes}
use test.Packet.Laws.{IsOwn}
use test.Packet.Hdlc.{
  crc_tab, get_crc, format_packet, format_word, start_frame, parse_packet, claimed_length,
}
use test.Packet.Hdlc.Crc.{crc_tab-eq-crc_bits, crc_bits}
use test.Packet.Hdlc.Frame.{format_packet_overruns, claimed_length_misread, data_frame}
use test.Packet.Hdlc.RoundTrip.{
  parse_packet-format_data, parse_packet_sound, length_eleven_accepted,
}

abbrev sender : Packet
sender = record {
  mem = copy_to zeroes 3 (0 ∷ 2 ∷ 0 ∷ 35 ∷ 3 ∷ 16 ∷ 0 ∷ 0 ∷ 0xe6 ∷ 0xe7 ∷ []);
  header = own;
  kind = 1;
  data_off = 11;
  len_packet = pos 0;
  len_data_area = pos 2;
  len_header = 11;
}

abbrev peer : Packet
peer = record sender { mem = zeroes; kind = 0; len_data_area = pos 0 }

sender-IsOwn : IsOwn 11 sender
sender-IsOwn = record { at_own = refl; head_len = refl; area = refl }

peer-IsOwn : IsOwn 11 peer
peer-IsOwn = record { at_own = refl; head_len = refl; area = refl }

-- The check value of CRC-16/X-25.
crc_check : get_crc (0x31 ∷ 0x32 ∷ 0x33 ∷ 0x34 ∷ 0x35 ∷ 0x36 ∷ 0x37 ∷ 0x38 ∷ 0x39 ∷ []) ≡ 0x906e
unfolding get_crc
crc_check = refl

crc_tab-eq-crc_bits_example : get_or crc_tab 200 0 ≡ crc_bits 8 200
crc_tab-eq-crc_bits_example = crc_tab-eq-crc_bits 200 (omega arith)

parse_packet-format_data_example :
    (q r' r'' : Packet) × (format_packet sender ≡ some q)
    × (set_packet_buffer (some (packet_bytes q)) q.len_packet peer ≡ some r')
    × (parse_packet r' ≡ some (r'', pos 16))
    × (data_bytes r'' ≡ data_bytes sender)
    × (packet_bytes r'' ≡ packet_bytes q)
parse_packet-format_data_example =
    parse_packet-format_data 1 sender peer sender-IsOwn peer-IsOwn refl (omega arith)

format_packet_overruns_example : format_packet (record sender { len_data_area = pos 1523 }) ≡ none
format_packet_overruns_example =
    format_packet_overruns 1523 (record sender { len_data_area = pos 1523 })
      (record { at_own = refl; head_len = refl; area = refl }) refl (omega arith)

claimed_length_misread_example : claimed_length (format_word 1112) ≢ some (pos 1100)
claimed_length_misread_example = claimed_length_misread 1100 (omega arith) (omega arith)

-- The built frame of `sender`, with its lengths.
abbrev built : Packet
built = record peer { mem = data_frame 2 sender.mem }

built_accepted :
    parse_packet built ≡ some (record built { len_data_area = pos 2; len_packet = pos 16 }, pos 16)
unfolding parse_packet bytes load16 store16 copy_to swap16 start_frame claimed_length get_crc
built_accepted = refl

parse_packet_sound_example :
    (built.mem 0 ≡ 0x7e)
    × (load16 built.mem 9 ≡ get_crc (bytes built.mem 1 8))
    × (built.mem 15 ≡ 0x7e)
    × ((n : ℕ)
        → pos 2 ≡ pos (suc n)
        → load16 built.mem (suc n + 11) ≡ get_crc (bytes built.mem 1 (suc n + 10)))
parse_packet_sound_example =
    parse_packet_sound built (record built { len_data_area = pos 2; len_packet = pos 16 }) 15 refl
      built_accepted

-- A frame that claims the length 11.
abbrev eleven : Packet
eleven = record peer {
  mem =
      store16 (copy_to zeroes 0 (0x7e ∷ 0xa0 ∷ 11 ∷ 0 ∷ 0 ∷ 0 ∷ 0 ∷ 0 ∷ 0 ∷ 0 ∷ 0 ∷ 0 ∷ 0x7e ∷ []))
        9 35043;
}

eleven_crc : get_crc (bytes eleven.mem 1 8) ≡ 35043
unfolding get_crc bytes copy_to store16
eleven_crc = refl

eleven_claimed : bit_and (swap16 (load16 eleven.mem 1)) 0x03ff ≡ 11
unfolding load16 swap16 copy_to store16
eleven_claimed = refl

eleven_checked : load16 eleven.mem 9 ≡ 35043
unfolding load16 copy_to store16
eleven_checked = refl

eleven_flag : eleven.mem 0 ≡ 0x7e
unfolding copy_to store16
eleven_flag = refl

eleven_tail : eleven.mem 12 ≡ 0x7e
unfolding copy_to store16
eleven_tail = refl

length_eleven_accepted_example :
    parse_packet eleven
    ≡ some (record eleven { len_data_area = minus_one; len_packet = pos 13 }, pos 13)
length_eleven_accepted_example =
    length_eleven_accepted eleven (record { at_own = refl; head_len = refl; area = refl })
      eleven_flag eleven_claimed (eleven_checked ∙ sym eleven_crc) eleven_tail
