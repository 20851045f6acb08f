-- ===== src/Packet/Mbus/Tests.antt =====
-- M-Bus frames with concrete bytes.
use test.Prelude.{◌-◌, ◌≡◌, ◌≢◌, refl, none, arith}
use test.Prelude.Int.{ℤ, pos, minus_one}
use test.Memory.{zeroes, store}
use test.Packet.{Packet, own}
use test.Packet.Laws.{IsOwn}
use test.Packet.Mbus.{new, parse_packet, header_size, get_ci_version, get_status, set_status}
use test.Packet.Mbus.Laws.{IsWhole, parse_mbus_lem}

-- A short header and two bytes of data.
abbrev short : Packet
short = record {
  mem = store (store (store zeroes 0 16) 1 0x44) 10 0x7a;
  header = own;
  kind = 0x7a;
  data_off = 15;
  len_packet = pos 0;
  len_data_area = pos 0;
  len_header = 15;
}

new-IsOwn : IsOwn 23 (new 0x72)
unfolding new
new-IsOwn = record { at_own = refl; head_len = refl; area = refl }

unset_pointer_72 : get_ci_version short ≡ none
unfolding get_ci_version
unset_pointer_72 = refl

status_read_back : get_status (set_status 5 short) ≡ 5
unfolding get_status set_status test.Packet.set8 store
status_read_back = refl

first_byte_16 : short.mem 0 ≡ 16
unfolding store
first_byte_16 = refl

parse_mbus_lem_example :
    (IsWhole short
      → ((parse_packet short).1 ≡ pos 17)
        × ((parse_packet short).0.len_data_area ≡ pos (17 - header_size short.kind)))
    × ((parse_packet short).1 ≢ minus_one → IsWhole short)
    × ((k : ℤ) → (parse_packet (record short { len_packet = k })).1 ≡ (parse_packet short).1)
parse_mbus_lem_example =
    parse_mbus_lem short 16 (record { at_own = refl; head_len = refl; area = refl }) first_byte_16
      (omega arith)
