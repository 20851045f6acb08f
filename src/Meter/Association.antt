-- ===== src/Meter/Association.antt =====
-- simulator_meter/fee/meter_simulator/access_security.cpp: the requests of a client that open and
-- close an association (`parse_aarq`, `proc_response`). The answers are in the child Reply.
-- A result `none` is an access outside an array, or an exception that nothing catches.
pub mod Reply
pub mod Reading
pub mod Layout
pub mod Message
use test.Prelude.{
  ℕ, zero, suc, ◌+◌, ◌-◌, ◌*◌, ◌/◌, ◌%◌, ◌^◌, List, [], ◌∷◌, ◌++◌, Option, none, some, Bool, true,
  false, ◌&&◌, ◌||◌, leb, ltb, ◌==◌, ◌!=◌, if◌then◌else◌, length, replicate, get_or, drop,
}
use test.Prelude.Int.{ℤ, pos, minus_one}
use test.Memory.{Memory, bytes, load32}
use test.Packet.{Packet}
use test.Packet.Dlms47.{get_src_port}
use test.Security.{
  Crypto, DataSecurity, Plain, set_security_control, set_init_vector, word_bytes, decrypt,
  hls5authen,
}
use test.Meter.{Meter, Access, init, pass_2, pass_4, lls_aare, rlre, request_next_client_ic}

-- The outputs of `parse_aarq` that its caller uses, and the members that it sets.
pub record Aarq : Type 0 where
  pub mechanism_id : ℕ
  pub ap_title : List ℕ
  pub authen_value : List ℕ
  pub cipher_flag : Bool
  pub sc : ℕ
  pub ic : ℕ

-- One component is read, or the message is refused, or a byte outside the buffer is read.
pub data Component : Type 0 where
  read : Aarq → Component
  refused : Aarq → Component
  fault : Component

-- Only where the last byte that is read lies in the buffer.
abbrev within : ℕ → Component → Component
within last r = if ltb last 1536 then r else fault

-- The tags that are skipped.
abbrev is_skipped : ℕ → Bool
is_skipped t =
    (t == 0x8a)
    || ((t == 0xa2)
        || ((t == 0xa3)
            || ((t == 0xa4)
                || ((t == 0xa5)
                    || ((t == 0xa7) || ((t == 0xa8) || ((t == 0xa9) || (t == 0x9d))))))))

-- The `switch` on the tag of the component at offset `off`.
unfoldable pub parse_component : Memory → ℕ → Aarq → Component
parse_component m off a =
    let tag = m off in
    let size = m (off + 3) in
    if tag == 0xa1
    then within (off + 3 + size) (read (record a { cipher_flag = m (off + 3 + size) == 3 }))
    else if tag == 0x8b
    then within (off + 8) (read (record a { mechanism_id = m (off + 8) }))
    else if tag == 0xa6
    then if size != 8
      then within (off + 3) (refused a)
      else within (off + 11) (read (record a { ap_title = bytes m (off + 4) 8 }))
    else if tag == 0xac
    then if ltb 64 size
      then within (off + 3) (refused a)
      else within (off + 3 + size) (read (record a { authen_value = bytes m (off + 4) size }))
    else if tag == 0xbe
    then if m (off + 4) == 0x21
      then within (off + 10) (read (record a { sc = m (off + 6); ic = load32 m (off + 7) }))
      else within (off + 4) (read a)
    else if is_skipped tag
    then within (off + 1) (read a)
    else within off (refused a)

-- How the loop over the components ends: `ended` where the counters meet.
pub data Outcome : Type 0 where
  ended : Aarq → Outcome
  rejected : Aarq → Outcome
  faulted : Outcome
  out_of_fuel : Outcome

unfoldable pub then_read : Component → (Aarq → Outcome) → Outcome
then_read fault next = faulted
then_read (refused b) next = rejected b
then_read (read b) next = next b

-- `while (aarq_content_len - read_len > 0)`, where the difference is unsigned: the loop goes on until
-- the two are equal. `start` is the offset of the first component.
unfoldable pub parse_loop : ℕ → Memory → ℕ → ℕ → ℕ → Aarq → Outcome
parse_loop zero m start content read_len a = out_of_fuel
parse_loop (suc fuel) m start content read_len a =
    if content == read_len
    then ended a
    else then_read (parse_component m (start + read_len) a)
        (λ b. parse_loop fuel m start content (read_len + 2 + m (start + read_len + 1)) b)

-- Each component has at least two bytes, and a read outside the 1536 bytes ends the loop.
abbrev pub aarq_fuel : ℕ
aarq_fuel = 1600

-- The data area of the packet from its offset on.
unfoldable pub parse_aarq : Packet → Aarq → Outcome
parse_aarq p a =
    if p.mem p.data_off != 0x60
    then rejected a
    else if ltb (p.mem (p.data_off + 1)) 29
    then rejected a
    else parse_loop aarq_fuel p.mem (p.data_off + 2) (p.mem (p.data_off + 1)) 0 a

-- The members that `parse_aarq` set, also where it refused the message.
abbrev pub take_members : Aarq → Meter → Meter
take_members a m = record m {
  access = record m.access { cipher_flag = a.cipher_flag; sc = a.sc; ic = a.ic };
}

-- What the caller passes to `parse_aarq`.
abbrev pub blank_aarq : Meter → Aarq
blank_aarq m = record {
  mechanism_id = 0;
  ap_title = replicate 8 0;
  authen_value = [];
  cipher_flag = m.access.cipher_flag;
  sc = m.access.sc;
  ic = m.access.ic;
}

-- The client's port is kept before anything else is read.
abbrev pub from_client : Packet → Meter → Meter
from_client p m = record m { access = record m.access { client_id = get_src_port p } }

-- The bytes of `oct_authen_stoc`, which stays empty where the tag could not be made.
tag_text : Option (List ℕ × List ℕ) → List ℕ
tag_text none = []
tag_text (some (_, tag)) = tag

module _ (c : Crypto) where
  open c use {hex_encode, hex_decode}

  -- The client's challenge is authenticated at once, and the answer kept in `fctos_`.
  hls_challenge : Aarq → Meter → Option Meter
  unfolding tag_text
  hls_challenge a m =
      let (ic, m1) = request_next_client_ic m in
      let d = set_init_vector m1.server_systitle ic (set_security_control 16 m1.security) in
      elim (hls5authen c (hex_encode a.authen_value) 16 (m1.server_systitle ++ word_bytes ic) d) [
        | none ↦ none
        | some (r, d') ↦ some (record m1 {
          security = d';
          access = record m1.access {
            fctos = 0x31 ∷ 0x30 ∷ (hex_encode (word_bytes ic) ++ tag_text r);
            state = pass_2;
          };
        })
      ]

  is_init : Meter → Bool
  is_init m = elim m.access.state [ init ↦ true | _ ↦ false ]

  -- The `switch` on the mechanism: without, with a password, with a challenge, or unknown.
  unfoldable pub choose_mechanism : Aarq → Meter → Option Meter
  unfolding hls_challenge is_init
  choose_mechanism a m =
      let lls = record m { access = record m.access { state = lls_aare } } in
      if ltb a.mechanism_id 2
      then some lls
      else if ltb 7 a.mechanism_id
      then some m
      else if is_init m
      then hls_challenge a m
      else some m

  unfoldable pub proc_aarq : Outcome → Meter → Option (ℤ × Meter)
  proc_aarq (ended a) m =
      let m1 = take_members a m in
      let m2 = record m1 {
        client_systitle = a.ap_title;
        access = record m1.access {
          authen_mech_id = a.mechanism_id;
          challenge_ctos = hex_encode a.authen_value;
        };
      } in
      elim (choose_mechanism a m2) [ none ↦ none | some m' ↦ some (pos 0, m') ]
  proc_aarq (rejected a) m = some (pos 1, take_members a m)
  proc_aarq faulted m = none
  proc_aarq out_of_fuel m = none

  -- The outcome of the decryption is not looked at: the state is PASS_4 in every case. The texts are
  -- cipher text, tag and control byte as they were read, `ic` the four bytes of the counter.
  after_pass_3 :
      List ℕ → List ℕ → ℕ → List ℕ → (Plain → Access → Access) → Meter → Option (ℤ × Meter)
  after_pass_3 cipher tag sc ic f m =
      let iv = m.client_systitle ++ ic in
      let d = record (set_security_control sc m.security) { init_vector = iv } in
      elim (decrypt c cipher tag sc iv d) [
        | none ↦ none
        | some (r, d') ↦
            some
              (pos 0, record m { security = d'; access = record (f r m.access) { state = pass_4 } })
      ]

  -- A ciphered action request: its plain text gives the invoke id, in an array of 1024 bytes.
  proc_glo_action : Packet → Meter → Option (ℤ × Meter)
  unfolding after_pass_3
  proc_glo_action p m =
      let at = p.data_off in
      let n = p.mem (at + 1) in
      let invoke : Plain → Access → Access = λ r a. record a {
        invoke_id = get_or (hex_decode r.plain_text) 2 0;
        client_id = get_src_port p;
      } in
      if ltb n 17
      then none
      else if leb (at + 7 + (n - 5)) 1536
      then after_pass_3 (hex_encode (bytes p.mem (at + 7) (n - 17)))
          (hex_encode (bytes p.mem (at + 7 + (n - 17)) 12)) (p.mem (at + 2))
          (bytes p.mem (at + 3) 4) invoke m
      else none

  -- A plain one: the text that is authenticated is the meter's own challenge.
  proc_action : Packet → Meter → Option (ℤ × Meter)
  unfolding after_pass_3
  proc_action p m =
      let at = p.data_off in
      let n = p.mem (at + 7) in
      let m1 = record m { access = record m.access { invoke_id = p.mem (at + 2) } } in
      if ltb n 5
      then none
      else if leb (at + 13 + (n - 5)) 1536
      then after_pass_3 (hex_encode m.access.challenge_stoc)
          (hex_encode (bytes p.mem (at + 13) (n - 5))) (p.mem (at + 8)) (bytes p.mem (at + 9) 4)
          (λ r a. a) m1
      else none

  unfoldable pub proc_response : Packet → Meter → Option (ℤ × Meter)
  unfolding proc_aarq proc_glo_action proc_action
  proc_response p m =
      let m1 = from_client p m in
      let tag = p.mem p.data_off in
      if tag == 96
      then proc_aarq (parse_aarq p (blank_aarq m1)) m1
      else if tag == 98
      then some (pos 0, record m1 { access = record m1.access { state = rlre } })
      else if tag == 203
      then proc_glo_action p m1
      else if tag == 195
      then proc_action p m1
      else some (minus_one, m1)
