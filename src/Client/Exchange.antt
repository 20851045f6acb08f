-- ===== src/Client/Exchange.antt =====
-- simulator_meter/common/ptcl_codec/ptcl_module_dlms47.cpp and
-- simulator_meter/fee/meter_simulator/meter_handler.cpp: a client's request, and what the meter makes of
-- it.
use test.Prelude.{
  ℕ, ◌+◌, ◌*◌, ◌/◌, ◌%◌, ◌^◌, ◌≤◌, ◌<◌, ◌≡◌, refl, ap, sym, subst, ◌∙◌, arith, List, [], ◌∷◌, ◌++◌,
  Option, some, length,
}
use test.Memory.{Memory, bytes}
use test.Memory.Block.{length-bytes}
use test.Packet.{Packet, count, data_bytes}
use test.Packet.Laws.{IsOwn}
use test.Packet.Dlms47.{format_packet, parse_packet}
use test.Security.{Crypto}
use test.Asn.{format_context_area_short}
use test.AsnParser.Items.{Calendar}
use test.AsnParser.Request.Reading.{hex_text}
use test.Meter.{Meter}
use test.Meter.Apdu.{finish}
use test.Meter.Apdu.Profile.{Tm}
use test.Meter.Handler.Data.{Objects, get_answer, send_answer, process_data}
use test.Meter.Handler.Requests.{asked, normal_request_served}
use test.Client.Association.{format_packet_cosem}
use test.Client.Request.{format_context_area_obis, attribute_bytes, fill_packet_cosem_get}
use test.Client.RoundTrip.{
  finish-Carries, format_packet-Carries, format_packet_cosem-Carries, Arrives, Carries-Arrives,
}

-- The message, with a name of six bytes.
abbrev pub get_message : ℕ → ℕ → List ℕ → ℕ → List ℕ
get_message id class name attr =
    192 ∷ 1 ∷ id ∷ class / 2 ^ 8 % 2 ^ 8 ∷ class % 2 ^ 8 ∷ (name ++ (attr ∷ 0 ∷ []))

abbrev pub six : ℕ → ℕ → ℕ → ℕ → ℕ → ℕ → List ℕ
six a b c d e f = a ∷ b ∷ c ∷ d ∷ e ∷ f ∷ []

-- What the packet holds where the message stands in its data area.
Holds : Memory → ℕ → ℕ → ℕ → List ℕ → ℕ → Type 0
Holds m at id class name attr =
    (m at ≡ 192)
    × (m (at + 1) ≡ 1)
    × (m (at + 2) ≡ id)
    × (m (at + 3) * 256 + m (at + 4) ≡ class)
    × (bytes m (at + 5) 6 ≡ name)
    × (m (at + 11) ≡ attr)
    × (m (at + 12) ≡ 0)

held :
    (m : Memory) (at id class a b c d e f attr : ℕ)
    → at ≡ 8
    → class < 2 ^ 16
    → bytes m 8 13 ≡ get_message id class (six a b c d e f) attr
    → Holds m at id class (six a b c d e f) attr
unfolding bytes Holds
held m at id class a b c d e f attr off small h =
    subst (λ k. Holds m k id class (six a b c d e f) attr) (sym off)
      (
        cc,
        cc,
        cc,
        omega (
          arith,
          let u : m 11 ≡ class / 2 ^ 8 % 2 ^ 8 = cc in u,
          let u : m 12 ≡ class % 2 ^ 8 = cc in u,
        ),
        cc,
        cc,
        cc,
      )

-- What a packet with the message asks for.
asked_of :
    (x : Packet) (id class a b c d e f attr : ℕ)
    → Holds x.mem x.data_off id class (six a b c d e f) attr
    → asked x ≡ record {
      class_id = class;
      obis = hex_text (six a b c d e f);
      attr_id = attr;
      start_time = 0;
      end_time = 0;
    }
unfolding Holds
asked_of x id class a b c d e f attr (h0, h1, h2, hc, hn, ha, h12) = rw (hc, hn, ha) refl

built :
    (scan : ℕ → ℕ → Option ℕ) (class a b c d e f attr : ℕ) (obis : List ℕ) (p : Packet)
    → format_context_area_obis scan obis ≡ six a b c d e f
    → fill_packet_cosem_get scan class obis attr p
      ≡ finish (get_message 0xff class (six a b c d e f) attr) p
unfolding fill_packet_cosem_get attribute_bytes format_context_area_short
built scan class a b c d e f attr obis p h = rw (h) refl

module _ (o : Objects) (fuel : ℕ) (enough : 5 ≤ fuel) (mktime : Calendar → ℕ) (localtime : ℕ → Tm)
    (meter_host : ℕ) (k : Crypto) (m : Meter) (scan : ℕ → ℕ → Option ℕ) where
  served :
      (x : Packet) (id class a b c d e f attr : ℕ)
      → count x.len_data_area ≡ 13
      → x.data_off ≡ 8
      → Holds x.mem x.data_off id class (six a b c d e f) attr
      → process_data o fuel mktime localtime meter_host k x m
        ≡ send_answer o fuel mktime localtime meter_host k
            (get_answer o fuel mktime localtime meter_host x m.its_state (record {
              class_id = class;
              obis = hex_text (six a b c d e f);
              attr_id = attr;
              start_time = 0;
              end_time = 0;
            }))
            (record m { invokeid = id })
  unfolding Holds
  served x id class a b c d e f attr n off h =
      normal_request_served o fuel enough mktime localtime meter_host k x m (omega arith) n h.0 h.1
        h.6
      ∙ rw (asked_of x id class a b c d e f attr h, h.2) refl

  -- What a client asks for with `fill_packet_cosem_get` and `format_packet_cosem`, a class of 16 bits, a
  -- name that is written as six bytes, and an attribute, arrives at the meter: the packet is accepted,
  -- and `process_data` sends what the objects give for just this class, name and attribute with no range
  -- of time, and keeps the low byte of the invoke id. The client's packet and the meter's are any packets
  -- after `reset`.
  pub request_answered :
      (p r : Packet) (host id class a b c d e f attr : ℕ) (obis : List ℕ)
      → IsOwn 8 p
      → IsOwn 8 r
      → class < 2 ^ 16
      → format_context_area_obis scan obis ≡ six a b c d e f
      → (q s : Packet) × (fill_packet_cosem_get scan class obis attr p ≡ some q)
        × (format_packet_cosem host id q ≡ some s)
        × (v : Arrives (get_message (id % 2 ^ 8) class (six a b c d e f) attr) s r) × (process_data
              o fuel mktime localtime meter_host k
              (parse_packet v.arrived).0
              m
            ≡ send_answer o fuel mktime localtime meter_host k
                (get_answer o fuel mktime localtime meter_host
                  (parse_packet v.arrived).0
                  m.its_state
                  (record {
                    class_id = class;
                    obis = hex_text (six a b c d e f);
                    attr_id = attr;
                    start_time = 0;
                    end_time = 0;
                  }))
                (record m { invokeid = id % 2 ^ 8 }))
  request_answered p r host id class a b c d e f attr obis w v small name =
      let message = get_message 0xff class (six a b c d e f) attr in
      let (q0, e0, c0) = finish-Carries message p w (omega arith) in
      let c1 = format_packet-Carries message q0 c0 in
      let (q1, e1, c2) = format_packet_cosem-Carries host id 192 1 0xff _ (format_packet q0) c1 in
      let got = Carries-Arrives (get_message (id % 2 ^ 8) class (six a b c d e f) attr) q1 r c2 v in
      let x = (parse_packet got.arrived).0 in
      let size : count x.len_data_area ≡ 13 =
        sym (length-bytes (count x.len_data_area) x.mem x.data_off) ∙ ap length got.content in
      let whole : bytes x.mem 8 13 ≡ data_bytes x = rw (got.area, size) refl in
      let h =
        held x.mem x.data_off (id % 2 ^ 8) class a b c d e f attr got.area small
          (whole ∙ got.content) in
      (
        format_packet q0,
        format_packet q1,
        built scan class a b c d e f attr obis p name ∙ e0,
        e1,
        got,
        served x (id % 2 ^ 8) class a b c d e f attr size got.area h,
      )
