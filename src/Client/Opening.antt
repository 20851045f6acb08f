-- ===== src/Client/Opening.antt =====
-- simulator_meter/common/ptcl_codec/ptcl_module_dlms47.cpp and
-- simulator_meter/fee/meter_simulator/access_security.cpp: the AARQ of a client before the meter.
use test.Prelude.{
  ℕ, suc, ◌+◌, ◌%◌, ◌^◌, ◌≤◌, ◌<◌, ◌≡◌, ◌≢◌, refl, ap, sym, subst, ◌∙◌, arith, List, [], ◌∷◌, ◌++◌,
  some, Bool, true, false, leb, length, length-append, get_or,
}
use test.Memory.{Memory, bytes, store}
use test.Packet.{Packet, count, data_bytes, set16, packet_bytes, set_packet_buffer}
use test.Memory.Block.{length-bytes}
use test.Packet.Laws.{IsOwn}
use test.Packet.Dlms47.{format_packet, parse_packet, set_src_port}
use test.Asn.{
  format_ber, format_ber_bit_string, format_ber_object_indentifier, format_ber_graphic_string,
  format_ber_choice, format_ber_seqence, format_tagging_area, format_length_area,
  format_context_area_bit_string, format_context_area_object_indentifier,
  format_context_area_graphic_string, concat,
}
use test.Meter.Association.{Aarq, ended, parse_aarq}
use test.Meter.Association.Reading.{Reads, Reads-parse_aarq}
use test.Meter.Apdu.{finish, finish_some, context_name, user_information}
use test.Client.Association.{
  acse_part, mechanism_part, authentication_part, calling_title, finish_aarq,
  format_packet_cosem_connect_ln,
}
use test.Client.RoundTrip.{finish-Carries, Carries-Arrives}
use test.Client.Components.{aarq_body, information, eight, taken, components}

acse_part-bytes : (junk : Memory) → acse_part junk ≡ some (0x8a ∷ 2 ∷ 7 ∷ 0x80 ∷ [])
unfolding acse_part format_ber_bit_string format_ber format_tagging_area format_length_area
    format_context_area_bit_string store bytes
acse_part-bytes junk = refl

mechanism_part-bytes :
    (mech : ℕ)
    → mech < 256
    → mechanism_part mech ≡ some (0x8b ∷ 7 ∷ 0x60 ∷ 0x85 ∷ 0x74 ∷ 5 ∷ 8 ∷ 2 ∷ mech ∷ [])
unfolding mechanism_part format_ber_object_indentifier format_ber format_tagging_area
    format_length_area format_context_area_object_indentifier
mechanism_part-bytes mech h = let e : mech % 2 ^ 8 ≡ mech = omega arith in rw (e) refl

authentication_part-bytes :
    (text value : List ℕ)
    → format_context_area_graphic_string text ≡ value
    → length value ≤ 64
    → authentication_part text
      ≡ some (0xac ∷ suc (suc (length value)) ∷ 0x80 ∷ length value ∷ value)
unfolding authentication_part format_ber_graphic_string format_ber_choice format_ber
    format_tagging_area format_length_area
authentication_part-bytes text value shown h =
    let t : leb (length value) 1024 ≡ true = ground arith in
    let s : leb (length value) 127 ≡ true = ground arith in
    let u : leb (suc (suc (length value))) 127 ≡ true = ground arith in
    rw (authentication_part, shown, t, s, u) refl

information-bytes :
    (init : List ℕ)
    → length init ≤ 100
    → user_information init ≡ some (0xbe ∷ suc (suc (length init)) ∷ 4 ∷ length init ∷ init)
unfolding user_information
information-bytes init h =
    let t : leb (4 + length init) 255 ≡ true = ground arith in
    let e : (length init + 2) % 2 ^ 8 ≡ suc (suc (length init)) = omega arith in
    let f : length init % 2 ^ 8 ≡ length init = omega arith in rw (t, e, f) refl

append_nil : (xs : List ℕ) → xs ++ [] ≡ xs
append_nil [] = refl
append_nil (x ∷ xs) = ap (λ l. x ∷ l) (append_nil xs)

at_data :
    (x : Packet) (message : List ℕ)
    → x.data_off ≡ 8
    → data_bytes x ≡ message
    → bytes x.mem 8 (length message) ≡ message
at_data x message off d =
    let n = sym (ap length d) ∙ length-bytes (count x.len_data_area) x.mem x.data_off in
    rw (n, sym off) d

head_at :
    (m : Memory) (off u v : ℕ) (rest : List ℕ)
    → bytes m off (length (u ∷ v ∷ rest)) ≡ u ∷ v ∷ rest
    → (m off ≡ u) × (m (off + 1) ≡ v)
unfolding bytes
head_at m off u v rest h =
    (ap (λ (l : List ℕ). get_or l 0 0) h, ap (λ (l : List ℕ). get_or l 1 0) h)

set_src_port-IsOwn : (port : ℕ) (p : Packet) → IsOwn 8 p → IsOwn 8 (set_src_port port p)
unfolding set_src_port set16
set_src_port-IsOwn port p o = record {
  at_own = ground (arith, o.at_own);
  head_len = ground (arith, o.head_len);
  area = ground (arith, o.area);
}

module _ (junk : Memory) (host mech i t0 t1 t2 t3 t4 t5 t6 t7 : ℕ) (b : Bool)
    (text value init : List ℕ) (shown : format_context_area_graphic_string text ≡ value)
    (named : mech < 256) (small : length value ≤ 64) (plain : i ≢ 0x21)
    (short : length value + length init ≤ 80) where
  abbrev content : List ℕ
  content = aarq_body b (eight t0 t1 t2 t3 t4 t5 t6 t7) mech i value init

  content-size : length content ≡ 45 + length value + length init
  unfolding aarq_body
  content-size = omega (arith, length-append value (information i init))

  parts : List (List ℕ)
  parts =
      context_name b
      ∷ (0xa6 ∷ 0x0a ∷ 4 ∷ 8 ∷ eight t0 t1 t2 t3 t4 t5 t6 t7)
      ∷ (0x8a ∷ 2 ∷ 7 ∷ 0x80 ∷ [])
      ∷ (0x8b ∷ 7 ∷ 0x60 ∷ 0x85 ∷ 0x74 ∷ 5 ∷ 8 ∷ 2 ∷ mech ∷ [])
      ∷ (0xac ∷ suc (suc (length value)) ∷ 0x80 ∷ length value ∷ value)
      ∷ information i init
      ∷ []

  parts-content : concat parts ≡ content
  unfolding concat parts aarq_body
  parts-content = rw (append_nil init) refl

  built : (p : Packet) → finish_aarq (some parts) p ≡ finish (0x60 ∷ length content ∷ content) p
  unfolding finish_aarq format_ber_seqence format_ber format_tagging_area format_length_area
      finish_some
  built p =
      let z = content-size in
      let t : leb (length content) 1024 ≡ true = ground arith in
      let u : leb (length content) 127 ≡ true = ground arith in rw (parts-content, t, u) refl

  connects :
      (p : Packet)
      → format_packet_cosem_connect_ln junk host b mech
          (eight t0 t1 t2 t3 t4 t5 t6 t7)
          text
          (i ∷ init)
          p
        ≡ finish (0x60 ∷ length content ∷ content) (set_src_port host p)
  unfolding format_packet_cosem_connect_ln calling_title parts
  connects p =
      let e : leb 255 (suc (length init)) ≡ false = ground arith in
      rw
        (
          e,
          acse_part-bytes junk,
          mechanism_part-bytes mech named,
          authentication_part-bytes text value shown small,
          information-bytes (i ∷ init) (omega arith),
        )
        (built (set_src_port host p))

  content-at :
      (x : Packet)
      → x.data_off ≡ 8
      → data_bytes x ≡ 0x60 ∷ length content ∷ content
      → bytes x.mem 8 (length (0x60 ∷ length content ∷ content)) ≡ 0x60 ∷ length content ∷ content
  content-at x off d = at_data x (0x60 ∷ length content ∷ content) off d

  understood :
      (x : Packet) (a : Aarq)
      → x.data_off ≡ 8
      → data_bytes x ≡ 0x60 ∷ length content ∷ content
      → parse_aarq x a ≡ ended (taken a b (eight t0 t1 t2 t3 t4 t5 t6 t7) mech value)
  understood x a off d =
      let whole = content-at x off d in
      let c = taken a b (eight t0 t1 t2 t3 t4 t5 t6 t7) mech value in
      let tag = head_at x.mem 8 0x60 (length content) content whole in
      let z = content-size in
      let reads =
        components b t0 t1 t2 t3 t4 t5 t6 t7 mech i value init small plain short x.mem a whole in
      let (first, size, all) =
        subst
          (λ k. (x.mem k ≡ 0x60) × (29 ≤ x.mem (k + 1)) × Reads x.mem (k + 2) (x.mem (k + 1)) 0 a c)
          (sym off)
          (tag.0, omega (arith, tag.1), subst (λ n. Reads x.mem 10 n 0 a c) (sym tag.1) reads) in
      Reads-parse_aarq x a c first size all

  received_whole :
      (p r : Packet) (a : Aarq)
      → IsOwn 8 p
      → IsOwn 8 r
      → (q s : Packet) × (format_packet_cosem_connect_ln junk host b mech
            (eight t0 t1 t2 t3 t4 t5 t6 t7)
            text
            (i ∷ init)
            p
          ≡ some q)
        × (set_packet_buffer (some (packet_bytes q)) q.len_packet r ≡ some s)
        × (parse_aarq (parse_packet s).0 a
            ≡ ended (taken a b (eight t0 t1 t2 t3 t4 t5 t6 t7) mech value))
  received_whole p r a o w =
      let z = content-size in
      let message = 0x60 ∷ length content ∷ content in
      let (q, e, c) =
        finish-Carries message (set_src_port host p) (set_src_port-IsOwn host p o) (omega arith) in
      let v = Carries-Arrives message q r c w in
      (
        format_packet q,
        v.arrived,
        connects p ∙ e,
        v.accepted,
        understood (parse_packet v.arrived).0 a v.area v.content,
      )

-- An AARQ is sent as a frame that the buffer of the meter takes, and parse_aarq reads of it what the client
-- put in: the ciphering, the eight bytes of the title, the mechanism, and the value up to its first byte 0. It
-- holds where both packets have the header of eight bytes at the front of their own buffer, the mechanism is a
-- byte, the value has at most 64 bytes before its first 0, and the initiate request is not empty, does not
-- begin with 0x21, the tag of a ciphered one, and has, without its first byte and with the value up to its
-- first 0, at most 80 bytes.
pub aarq_understood :
    (junk : Memory) (host mech i t0 t1 t2 t3 t4 t5 t6 t7 : ℕ) (b : Bool) (value init : List ℕ)
    → mech < 256
    → length (format_context_area_graphic_string value) ≤ 64
    → i ≢ 0x21
    → length (format_context_area_graphic_string value) + length init ≤ 80
    → (p r : Packet) (a : Aarq) → IsOwn 8 p
    → IsOwn 8 r
    → (q s : Packet) × (format_packet_cosem_connect_ln junk host b mech
          (eight t0 t1 t2 t3 t4 t5 t6 t7)
          value
          (i ∷ init)
          p
        ≡ some q)
      × (set_packet_buffer (some (packet_bytes q)) q.len_packet r ≡ some s)
      × (parse_aarq (parse_packet s).0 a
          ≡ ended (
              taken a b
                (eight t0 t1 t2 t3 t4 t5 t6 t7)
                mech
                (format_context_area_graphic_string value)))
aarq_understood junk host mech i t0 t1 t2 t3 t4 t5 t6 t7 b value init named small plain short p r a
      o w =
    received_whole junk host mech i t0 t1 t2 t3 t4 t5 t6 t7 b value
      (format_context_area_graphic_string value) init refl named small plain short p r a o w
