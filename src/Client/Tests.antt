-- ===== src/Client/Tests.antt =====
-- A request of a client for the clock of a meter, and what comes of it.
use test.Prelude.{ℕ, ◌+◌, ◌-◌, ◌*◌, ◌≡◌, refl, arith, List, [], ◌∷◌, Option, some, false, replicate}
use test.Packet.Laws.{IsOwn}
use test.Packet.Dlms47.{new, reset, parse_packet}
use test.Security.Toy.{toy}
use test.AsnParser.{text}
use test.AsnParser.Items.{Calendar}
use test.AsnParser.Request.Reading.{hex_text}
use test.Meter.{Meter}
use test.Meter.Apdu.Profile.{Tm}
use test.Meter.Handler.Data.{Objects, missing, get_answer, send_answer, process_data}
use test.Client.Association.{format_packet_cosem, format_packet_cosem_connect_ln}
use test.Client.Components.{eight, taken}
use test.Client.Opening.{aarq_understood}
use test.Meter.Association.{Aarq, ended, parse_aarq}
use test.Packet.{Packet, packet_bytes, set_packet_buffer}
use test.Client.Request.{format_context_area_obis, fill_packet_cosem_get}
use test.Client.RoundTrip.{Arrives}
use test.Client.Exchange.{get_message, six, request_answered}

-- Two decimal digits, which are all that the name has.
abbrev scan : ℕ → ℕ → Option ℕ
scan x y = some ((x - 48) * 16 + (y - 48))

abbrev midnight : Calendar → ℕ
midnight t = 0

abbrev clock : ℕ → Tm
clock t = record { year = 2017; mon = 1; mday = 1; wday = 0; hour = 0; min = 0; sec = 0 }

-- No object is found.
abbrev objects : Objects
objects = record { find = λ d its. missing; action = λ d its. (false, its) }

abbrev meter : Meter
meter = test.Meter.new (0x4d ∷ 0x4d ∷ 0x4d ∷ 0 ∷ 0 ∷ 0 ∷ 0 ∷ 1 ∷ []) (record {
  security_control = 0;
  init_vector = replicate 12 0;
  security_suite_id = 0;
  e_key = replicate 16 7;
  a_key = replicate 16 9;
})

abbrev name : List ℕ
name = text "000001000011"

name_bytes : format_context_area_obis scan name ≡ six 0 0 1 0 0 17
unfolding format_context_area_obis
name_bytes = refl

new-IsOwn : (k : ℕ) → IsOwn 8 (new k)
unfolding new reset
new-IsOwn k = record { at_own = refl; head_len = refl; area = refl }

-- The clock is of class 8, and its time the attribute 2.
request_answered_example :
    (q s : Packet) × (fill_packet_cosem_get scan 8 name 2 (new 1) ≡ some q)
    × (format_packet_cosem 16 193 q ≡ some s)
    × (v : Arrives (get_message 193 8 (six 0 0 1 0 0 17) 2) s (new 0)) × (process_data objects 5
          midnight clock 1 toy
          (parse_packet v.arrived).0
          meter
        ≡ send_answer objects 5 midnight clock 1 toy
            (get_answer objects 5 midnight clock 1
              (parse_packet v.arrived).0
              meter.its_state
              (record {
                class_id = 8;
                obis = hex_text (six 0 0 1 0 0 17);
                attr_id = 2;
                start_time = 0;
                end_time = 0;
              }))
            (record meter { invokeid = 193 }))
request_answered_example =
    request_answered objects 5 (omega arith) midnight clock 1 toy meter scan (new 1) (new 0) 16 193
      8 0 0 1 0 0 17 2 name (new-IsOwn 1) (new-IsOwn 0) (omega arith) name_bytes

abbrev nothing_known : Aarq
nothing_known = record {
  mechanism_id = 0;
  ap_title = replicate 8 0;
  authen_value = [];
  cipher_flag = false;
  sc = 0;
  ic = 0;
}

-- The password, mechanism 1, is 12345678.
abbrev password : List ℕ
password = text "12345678"

abbrev initiate : List ℕ
initiate = 0 ∷ 0 ∷ 0 ∷ 6 ∷ 0x5f ∷ 0x1f ∷ 4 ∷ 0 ∷ 0 ∷ 0x7e ∷ 0x1f ∷ 0x04 ∷ 0xb0 ∷ []

aarq_understood_example :
    (q s : Packet) × (format_packet_cosem_connect_ln
        (λ k. 0)
        16
        false
        1
        (eight 0x4d 0x4d 0x4d 0 0 0 0 1)
        password
        (1 ∷ initiate)
        (new 1)
      ≡ some q)
    × (set_packet_buffer (some (packet_bytes q)) q.len_packet (new 0) ≡ some s)
    × (parse_aarq (parse_packet s).0 nothing_known
        ≡ ended (taken nothing_known false (eight 0x4d 0x4d 0x4d 0 0 0 0 1) 1 password))
unfolding test.Asn.format_context_area_graphic_string
aarq_understood_example =
    aarq_understood (λ k. 0) 16 1 1 0x4d 0x4d 0x4d 0 0 0 0 1 false password initiate (omega arith)
      (omega arith) (omega arith) (omega arith) (new 1) (new 0) nothing_known (new-IsOwn 1)
      (new-IsOwn 0)
