-- ===== src/Meter/Handler/Requests.antt =====
-- simulator_meter/fee/meter_simulator/meter_handler.cpp: what `process_data` makes of the bytes of a
-- request.
use test.Prelude.{ℕ, ◌+◌, ◌*◌, ◌≤◌, ◌≡◌, refl, ap, ◌∙◌, none, some, true}
use test.Memory.{bytes}
use test.Packet.{Packet, count}
use test.Security.{Crypto}
use test.AsnParser.Parse.Normal.{normal_results}
use test.AsnParser.Items.{Calendar}
use test.AsnParser.Request.{parse_block}
use test.AsnParser.Request.Reading.{
  hex_text, parse_block_request, normal-get_class_id, normal-get_obis, normal-get_attr_id,
  normal-is_access_selector,
}
use test.AsnParser.Request.Endless.{parse_block_endless}
use test.Meter.{Meter}
use test.Meter.Apdu.Profile.{Tm}
use test.Meter.Handler.Data.{
  Attribute, Objects, attribute_of, get_answer, send_answer, keep_invokeid, get_one, get_kind,
  parse_request, get_request, process_data,
}

-- What a get-request-normal at an offset asks for.
abbrev pub asked : Packet → Attribute
asked p = record {
  class_id = p.mem (p.data_off + 3) * 256 + p.mem (p.data_off + 4);
  obis = hex_text (bytes p.mem (p.data_off + 5) 6);
  attr_id = p.mem (p.data_off + 11);
  start_time = 0;
  end_time = 0;
}

module _ (o : Objects) (fuel : ℕ) (enough : 5 ≤ fuel) (mktime : Calendar → ℕ) (localtime : ℕ → Tm)
    (host : ℕ) (c : Crypto) (p : Packet) (m : Meter) (room : p.data_off + 13 ≤ 1536)
    (size : count p.len_data_area ≡ 13) (tag : p.mem p.data_off ≡ 192)
    (kind : p.mem (p.data_off + 1) ≡ 1) (plain : p.mem (p.data_off + 12) ≡ 0) where
  normal-attribute : attribute_of mktime (normal_results p.mem p.data_off) ≡ some (asked p)
  unfolding attribute_of
  normal-attribute =
      rw
        (
          normal-get_class_id p.mem p.data_off room tag kind plain,
          normal-get_obis p.mem p.data_off room tag kind plain,
          normal-get_attr_id p.mem p.data_off room tag kind plain,
          normal-is_access_selector p.mem p.data_off room tag kind plain,
        )
        refl

  request_parsed :
      parse_request o fuel mktime localtime host c p ≡ some (true, normal_results p.mem p.data_off)
  unfolding parse_request
  request_parsed =
      ap (λ n. parse_block fuel p.mem (p.data_off + n) p.data_off) size
      ∙ parse_block_request p.mem p.data_off room tag kind plain fuel enough

  is_get :
      process_data o fuel mktime localtime host c p m
      ≡ get_request o fuel mktime localtime host c p m
  unfolding process_data
  is_get = rw (tag) refl

  parsed_get :
      get_request o fuel mktime localtime host c p m
      ≡ get_kind o fuel mktime localtime host c p
          (normal_results p.mem p.data_off)
          (keep_invokeid p m)
  unfolding get_request
  parsed_get = rw (request_parsed, get_request) refl

  is_one :
      get_kind o fuel mktime localtime host c p
        (normal_results p.mem p.data_off)
        (keep_invokeid p m)
      ≡ get_one o fuel mktime localtime host c p
          (normal_results p.mem p.data_off)
          (keep_invokeid p m)
  unfolding get_kind
  is_one = rw (kind) refl

  answered :
      get_one o fuel mktime localtime host c p (normal_results p.mem p.data_off) (keep_invokeid p m)
      ≡ send_answer o fuel mktime localtime host c
          (get_answer o fuel mktime localtime host p m.its_state (asked p))
          (keep_invokeid p m)
  unfolding get_one
  answered = rw (normal-attribute, get_one) refl

  -- A get-request-normal of 13 bytes, with no selector, is answered with what the objects give for the
  -- class, the name and the attribute that its bytes hold, whatever the fuel from five calls on; its
  -- invoke id is kept. Nothing of the session is asked.
  pub normal_request_served :
      process_data o fuel mktime localtime host c p m
      ≡ send_answer o fuel mktime localtime host c
          (get_answer o fuel mktime localtime host p m.its_state (asked p))
          (keep_invokeid p m)
  normal_request_served = is_get ∙ (parsed_get ∙ (is_one ∙ answered))

module _ (o : Objects) (fuel : ℕ) (mktime : Calendar → ℕ) (localtime : ℕ → Tm) (host : ℕ)
    (c : Crypto) (p : Packet) (m : Meter) (room : p.data_off + 17 ≤ 1536)
    (size : count p.len_data_area ≡ 17) (tag : p.mem p.data_off ≡ 192)
    (kind : p.mem (p.data_off + 1) ≡ 1) (chosen : p.mem (p.data_off + 12) ≡ 1)
    (array : p.mem (p.data_off + 14) ≡ 1) (five : p.mem (p.data_off + 15) ≡ 5)
    (number : p.mem (p.data_off + 16) ≡ 5) where
  request_unparsed : parse_request o fuel mktime localtime host c p ≡ none
  unfolding parse_request
  request_unparsed =
      ap (λ n. parse_block fuel p.mem (p.data_off + n) p.data_off) size
      ∙ parse_block_endless p.mem p.data_off room tag kind chosen array five number fuel

  get_unanswered : get_request o fuel mktime localtime host c p m ≡ none
  unfolding get_request
  get_unanswered = rw (request_unparsed, get_request) refl

  -- A get-request-normal of 17 bytes with a selector whose data are the bytes 1, 5, 5 is not answered,
  -- whatever class, name and attribute it asks for and in whatever state the meter is: `process_data` does
  -- not come back with any fuel.
  pub selector_never_answered : process_data o fuel mktime localtime host c p m ≡ none
  unfolding process_data
  selector_never_answered =
      let e : process_data o fuel mktime localtime host c p m
          ≡ get_request o fuel mktime localtime host c p m =
        rw (tag) refl in
      e ∙ get_unanswered
