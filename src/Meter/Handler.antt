-- ===== src/Meter/Handler.antt =====
-- simulator_meter/fee/meter_simulator/meter_handler.cpp: how a received message is told to be the
-- opening of an association, its release, or a request for data (`handle_response`).
-- `serve` is the answer to a request for data, `process_data` in the child Data. The other
-- parameters are those of the answers (Association/Reply). A result `none` is an access outside an
-- array, or an exception that nothing catches.
pub mod Session
pub mod Rest
pub mod Opening
pub mod Data
pub mod Kept
pub mod Requests
mod Tests
use test.Prelude.{
  ℕ, ◌+◌, ◌-◌, ◌%◌, ◌^◌, List, [], ◌∷◌, Option, none, some, Bool, true, false, ◌&&◌, leb, ltb, ◌==◌,
  if◌then◌else◌,
}
use test.Prelude.Int.{ℤ, pos, negsuc, is_positive}
use test.Memory.{bytes}
use test.MessageBlock.{MessageBlock, data_length, contents}
use test.Packet.{Packet, packet_bytes, set_packet_buffer, set_data_area_buffer}
use test.Packet.Dlms47.{get_src_port, get_host_id, set_device_addr, set_src_port, parse_packet}
use test.Security.{Crypto}
use test.Meter.{
  Meter, HandlerState, mhs_cosem_connect, mhs_data, mhs_null, mhs_disc, mhs_over, init, reset_state,
  reset_handler_state,
}
use test.Meter.Protect.{put_block, call_decrypt}
use test.Meter.Association.{proc_response}
use test.Meter.Association.Reply.{proc_request}

unfoldable pub send_packet : Packet → Meter → Option Meter
send_packet p m = elim (put_block (packet_bytes p) test.MessageBlock.new) [
  | none ↦ none
  | some mb ↦ some (record m { sent = contents mb ∷ m.sent })
]

-- The packet that is answered with.
abbrev pub blank_answer : Meter → Packet
blank_answer m = set_device_addr (m.client_host_id % 2 ^ 16) (test.Packet.Dlms47.new 1)

-- It is sent where the received packet has a positive length.
unfoldable pub send_if : Packet → Packet → Bool → Meter → Option (Bool × Meter)
send_if p s result m =
    if is_positive p.len_packet
    then elim (send_packet s m) [ none ↦ none | some m' ↦ some (result, m') ]
    else some (result, m)

unfoldable pub is_data : HandlerState → Bool
is_data st = elim st [ mhs_data ↦ true | _ ↦ false ]

unfoldable pub is_connecting : HandlerState → Bool
is_connecting st = elim st [ mhs_cosem_connect ↦ true | _ ↦ false ]

-- What `process_cosem_connect` does with the result of `proc_request`.
unfoldable pub connected : Packet → Option (ℤ × Packet × Meter) → Option (Bool × Meter)
connected p none = none
connected p (some (ret, s, m)) = elim ret [
  | pos n ↦
      if n == 1
      then send_if p s true (reset_handler_state mhs_data (reset_state init m))
      else send_if p s true (reset_handler_state mhs_cosem_connect m)
  | negsuc n ↦ send_if p s true (reset_handler_state mhs_cosem_connect m)
]

-- The state of the handler stays as it is.
unfoldable pub disconnected : Packet → Option (ℤ × Packet × Meter) → Option (Bool × Meter)
disconnected p none = none
disconnected p (some (ret, s, m)) = elim ret [
  | pos n ↦ if leb n 1 then send_if p s false (reset_state init m) else send_if p s false m
  | negsuc n ↦ send_if p s false (reset_state init m)
]

module _ (c : Crypto) (scan : ℕ → ℕ → Option ℕ) (host : ℕ) where
  unfoldable pub process_cosem_connect : List ℕ → Packet → Meter → Option (Bool × Meter)
  process_cosem_connect challenge p m = elim (proc_response c p m) [
    | none ↦ none
    | some (_, m1) ↦ connected p (proc_request c scan host challenge (blank_answer m1) m1)
  ]

  unfoldable pub process_cosem_disconnect : List ℕ → Packet → Meter → Option (Bool × Meter)
  process_cosem_disconnect challenge p m = elim (proc_response c p m) [
    | none ↦ none
    | some (_, m1) ↦ disconnected p (proc_request c scan host challenge (blank_answer m1) m1)
  ]

  module _ (serve : Packet → Meter → Option (Bool × Meter)) where
    -- A decrypted message is served as a packet of its own.
    unfoldable pub serve_plain :
        Packet → Option (Bool × MessageBlock × Meter) → Option (Bool × Meter)
    serve_plain p none = none
    serve_plain p (some (ok, mb, m)) =
        let plain = bytes mb.base (mb.rd_ptr + 8) (data_length mb - 8) in
        let q = set_src_port (get_src_port p) (test.Packet.Dlms47.new 1) in
        if ok
        then elim (set_data_area_buffer (some plain) (pos (data_length mb - 8)) q) [
          | none ↦ none
          | some r ↦ serve r m
        ]
        else some (false, m)

    -- The dispatch on the tag and the state of the handler.
    unfoldable pub dispatch : List ℕ → MessageBlock → Packet → Meter → Option (Bool × Meter)
    dispatch challenge mb p m =
        let tag = p.mem p.data_off in
        let ciphered = record m { is_cipher = true } in
        if leb 200 tag && (leb tag 207 && is_data m.handler_state)
        then serve_plain p (call_decrypt c mb test.MessageBlock.new ciphered)
        else if tag == 96
        then process_cosem_connect challenge p m
        else if tag == 98
        then process_cosem_disconnect challenge p m
        else if is_data m.handler_state
        then serve p m
        else if is_connecting m.handler_state
        then process_cosem_connect challenge p m
        else some (false, m)

    unfoldable pub handle_response : List ℕ → MessageBlock → Meter → Option (Bool × Meter)
    handle_response challenge mb m =
        elim (set_packet_buffer (some (contents mb)) (pos (data_length mb))
          (test.Packet.Dlms47.new 0)) [
            | none ↦ none
            | some p0 ↦
                let (p, result) = parse_packet p0 in
                if is_positive result
                then dispatch challenge mb p
                    (record m { client_host_id = get_host_id p; is_cipher = false })
                else some (false, m)
          ]
