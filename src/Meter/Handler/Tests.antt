-- ===== src/Meter/Handler/Tests.antt =====
-- Sessions with concrete messages, under the toy cipher.
use test.Prelude.{
  ℕ, ◌+◌, ◌≡◌, ◌≢◌, ◌↔◌, refl, arith, List, [], ◌∷◌, Option, none, some, Bool, true, false,
  replicate, length,
}
use test.Prelude.Options.{Always}
use test.Prelude.Int.{pos}
use test.Memory.Word.{swap16}
use test.Meter.Protect.{put_block}
use test.Packet.Dlms47.{parse_packet, set_device_addr, get_src_port, get_host_id, set_dst_port}
use test.Meter.Association.Reply.{proc_request, request_in}
use test.Memory.{load16, store16, zeroes, copy_to, bytes}
use test.MessageBlock.{copy, copy_in, advance_wr, MessageBlock}
use test.Packet.{set_packet_buffer, set16, Packet, own}
use test.Security.{DataSecurity}
use test.Security.Toy.{toy}
use test.Meter.{Meter, new, init, mhs_null, mhs_data}
use test.Meter.Association.{
  proc_response, proc_aarq, parse_aarq, parse_loop, parse_component, then_read, ended, rejected,
  out_of_fuel, blank_aarq, from_client,
}
use test.Meter.Association.Reading.{parse_aarq-terminates}
use test.Meter.Association.Message.{IsAarq, parse_aarq-IsAarq}
use test.Meter.Handler.Session.{at_rest, rest_of}
use test.Meter.Handler.Rest.{started, received}
use test.Meter.Handler.Kept.{session-at_rest}
use test.Meter.Handler.Requests.{selector_never_answered}
use test.Meter.Handler.Data.{Objects, missing, process_data}
use test.AsnParser.Items.{Calendar}
use test.Meter.Apdu.Profile.{Tm}
use test.Meter.Handler.{
  is_data, connected, send_if, send_packet, handle_response, process_cosem_connect, dispatch,
}
use test.Meter.Handler.Opening.{unopened_serves_nothing, refused_aarq_opens}

abbrev security : DataSecurity
security = record {
  security_control = 0;
  init_vector = replicate 12 0;
  security_suite_id = 0;
  e_key = replicate 16 7;
  a_key = replicate 16 9;
}

abbrev fresh : Meter
fresh = new (0x4d ∷ 0x4d ∷ 0x4d ∷ 0 ∷ 0 ∷ 0 ∷ 0 ∷ 1 ∷ []) security

-- A wrapper frame from port 16 to port 1 with the data.
abbrev frame : List ℕ → List ℕ
frame data_bytes = 0 ∷ 1 ∷ 0 ∷ 16 ∷ 0 ∷ 1 ∷ 0 ∷ length data_bytes ∷ data_bytes

abbrev packet_of : List ℕ → Packet
packet_of data_bytes = record {
  mem = copy_to zeroes 0 (frame data_bytes);
  header = own;
  kind = 0;
  data_off = 8;
  len_packet = pos (8 + length data_bytes);
  len_data_area = pos (length data_bytes);
  len_header = 8;
}

-- Without ciphers and without authentication.
abbrev aarq : List ℕ
aarq =
    0x60 ∷ 29 ∷ 0xa1 ∷ 9 ∷ 6 ∷ 7 ∷ 0x60 ∷ 0x85 ∷ 0x74 ∷ 5 ∷ 8 ∷ 1 ∷ 1 ∷ 0xbe ∷ 16 ∷ 4 ∷ 14 ∷ 1 ∷ 0
    ∷ 0 ∷ 0 ∷ 6 ∷ 0x5f ∷ 0x1f ∷ 4 ∷ 0 ∷ 0 ∷ 0x7e ∷ 0x1f ∷ 4 ∷ 0xb0 ∷ []

-- One that is too short.
abbrev short_aarq : List ℕ
short_aarq = 0x60 ∷ 11 ∷ 0xa1 ∷ 9 ∷ 6 ∷ 7 ∷ 0x60 ∷ 0x85 ∷ 0x74 ∷ 5 ∷ 8 ∷ 1 ∷ 1 ∷ []

abbrev no_data : Packet → Meter → Option (Bool × Meter)
no_data p m = some (false, m)

abbrev some_data : Packet → Meter → Option (Bool × Meter)
some_data p m = some (true, m)

abbrev scan : ℕ → ℕ → Option ℕ
scan x y = none

-- The AARQ is read to its end.
aarq_read : parse_aarq (packet_of aarq) (blank_aarq fresh) ≡ ended (blank_aarq fresh)
unfolding parse_aarq parse_loop parse_component then_read new copy_to
aarq_read = refl

parse_aarq-terminates_example : parse_aarq (packet_of aarq) (blank_aarq fresh) ≢ out_of_fuel
parse_aarq-terminates_example = parse_aarq-terminates (packet_of aarq) (blank_aarq fresh)

parse_aarq-IsAarq_example :
    (parse_aarq (packet_of aarq) (blank_aarq fresh) ≡ ended (blank_aarq fresh))
    ↔ IsAarq (packet_of aarq) (blank_aarq fresh) (blank_aarq fresh)
parse_aarq-IsAarq_example = parse_aarq-IsAarq (packet_of aarq) (blank_aarq fresh) (blank_aarq fresh)

closed : fresh.handler_state ≡ mhs_null
unfolding new
closed = refl

at_start : fresh.access.state ≡ init
unfolding new
at_start = refl

is_aarq : (packet_of short_aarq).mem 8 ≡ 96
unfolding copy_to
is_aarq = refl

is_get : (packet_of (0xc0 ∷ 1 ∷ [])).mem 8 ≢ 96
unfolding copy_to
is_get = omega arith

too_short :
    parse_aarq (packet_of short_aarq) (blank_aarq (from_client (packet_of short_aarq) fresh))
    ≡ rejected (blank_aarq fresh)
unfolding parse_aarq new copy_to
too_short = refl

empty_block : MessageBlock
empty_block = record { base = zeroes; rd_ptr = 0; wr_ptr = 0 }

unopened_serves_nothing_example :
    (dispatch toy scan 1 no_data [] empty_block (packet_of (0xc0 ∷ 1 ∷ [])) fresh
      ≡ dispatch toy scan 1 some_data [] empty_block (packet_of (0xc0 ∷ 1 ∷ [])) fresh)
    × Always
        (λ r. r.1.handler_state ≡ mhs_null)
        (dispatch toy scan 1 no_data [] empty_block (packet_of (0xc0 ∷ 1 ∷ [])) fresh)
unopened_serves_nothing_example =
    unopened_serves_nothing toy scan 1 no_data some_data [] empty_block (packet_of (0xc0 ∷ 1 ∷ []))
      fresh closed is_get

refused_aarq_opens_example :
    (n : Meter) × (process_cosem_connect toy scan 1 [] (packet_of short_aarq) fresh
      ≡ some (true, n))
    × (n.handler_state ≡ mhs_data)
    × (n.access.state ≡ init)
refused_aarq_opens_example =
    refused_aarq_opens toy scan 1 [] (packet_of short_aarq) fresh (blank_aarq fresh) at_start
      is_aarq too_short

-- One message: the AARQ that is too short, as it comes from the channel.
abbrev short_block : MessageBlock
short_block = record { base = copy_to zeroes 0 (frame short_aarq); rd_ptr = 0; wr_ptr = 21 }

abbrev opened : Meter
opened = record fresh {
  access = record fresh.access { client_id = 16 };
  handler_state = mhs_data;
  client_host_id = 1;
  sent = [] ∷ [];
}

-- No object is found.
abbrev objects : Objects
objects = record { find = λ d its. missing; action = λ d its. (false, its) }

abbrev clock : ℕ → Tm
clock t = record { year = 2017; mon = 1; mday = 1; wday = 0; hour = 0; min = 0; sec = 0 }

abbrev midnight : Calendar → ℕ
midnight t = 0

first_message :
    handle_response toy scan 1 (process_data objects 0 midnight clock 1 toy) [] short_block fresh
    ≡ some (true, opened)
unfolding handle_response new copy_to set_packet_buffer bytes parse_packet load16
    test.Packet.Dlms47.new swap16 dispatch is_data process_cosem_connect proc_response proc_aarq
    parse_aarq connected proc_request request_in send_if send_packet put_block copy set_device_addr
    get_src_port get_host_id set_dst_port copy_in advance_wr test.MessageBlock.new
    test.Packet.Dlms47.reset set16 store16
first_message = refl

rest_at_start : at_rest fresh ≡ true
unfolding at_rest rest_of new
rest_at_start = refl

session-at_rest_example : at_rest opened ≡ true
session-at_rest_example =
    session-at_rest objects 0 midnight clock 1 toy scan fresh opened rest_at_start
      (received [] short_block true started first_message)

-- A request for a profile with a selector whose data are the bytes 1, 5, 5.
abbrev endless : Packet
endless = packet_of (192 ∷ 1 ∷ 193 ∷ 0 ∷ 7 ∷ 1 ∷ 0 ∷ 99 ∷ 1 ∷ 0 ∷ 255 ∷ 2 ∷ 1 ∷ 1 ∷ 1 ∷ 5 ∷ 5 ∷ [])

endless_bytes :
    (endless.mem 8 ≡ 192)
    × (endless.mem 9 ≡ 1)
    × (endless.mem 20 ≡ 1)
    × (endless.mem 22 ≡ 1)
    × (endless.mem 23 ≡ 5)
    × (endless.mem 24 ≡ 5)
unfolding copy_to
endless_bytes = (refl, refl, refl, refl, refl, refl)

selector_never_answered_example :
    process_data objects 1000 midnight clock 1 toy endless fresh ≡ none
selector_never_answered_example =
    let (tag, kind, chosen, array, five, number) = endless_bytes in
    selector_never_answered objects 1000 midnight clock 1 toy endless fresh (omega arith) refl tag
      kind chosen array five number
