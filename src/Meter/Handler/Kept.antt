-- ===== src/Meter/Handler/Kept.antt =====
-- simulator_meter/fee/meter_simulator/meter_handler.cpp: `process_data` and `call_encrypt` leave the
-- association and the state of the handler alone.
use test.Prelude.{
  ltb, ℕ, ◌+◌, ◌≡◌, refl, List, ◌∷◌, ◌++◌, Option, none, some, Bool, true, false, ◌&&◌, leb, ◌==◌,
  length,
}
use test.Prelude.Options.{
  Always, Always-then, Always-map, Always-ok, Always-if, Always-none, Always-option,
}
use test.Prelude.Int.{is_positive}
use test.MessageBlock.{MessageBlock, max_data_length, data_length, contents, reset}
use test.Packet.{Packet}
use test.Security.{Crypto, DataSecurity}
use test.Meter.{Meter, request_next_client_ic}
use test.Meter.Protect.{
  both_flags, put_block, protected_frame, finish_encrypt, after_encrypt, call_encrypt,
}
use test.Meter.Apdu.Profile.{Tm}
use test.AsnParser.Parse.{ResultSet}
use test.AsnParser.Items.{Calendar}
use test.AsnParser.Request.{get_list_data}
use test.Meter.Handler.Data.{
  get_one, get_list, get_kind, parse_request, action_one, get_request, action_request, Objects,
  process_data, encrypted, sent_block, send_answer,
}
use test.Meter.Handler.Session.{IsSame, at_rest}
use test.Meter.Handler.Rest.{Keeps, Run, Run-at_rest}

module _ (c : Crypto) where
  finish_encrypt-IsSame :
      (orig out : MessageBlock) (tag ic : ℕ) (cipher auth : List ℕ) (m : Meter)
      → Always (λ r. IsSame m r.2) (finish_encrypt c orig tag ic cipher auth m out)
  unfolding finish_encrypt IsSame
  finish_encrypt-IsSame orig out tag ic cipher auth m =
      Always-option _ _ _ _
        (Always-ok {A = Bool × MessageBlock × Meter} (λ r. IsSame m r.2) (false, out, m)
          (refl, refl))
        (λ t.
          Always-if _
            (leb (length (c.hex_decode cipher)) 1024 && leb (length (c.hex_decode auth)) 1024) _ _
            (Always-then _
              (protected_frame orig.base orig.rd_ptr t both_flags ic
                (c.hex_decode cipher ++ c.hex_decode auth))
              (λ frame. elim (put_block frame (reset out)) [
                | none ↦ none
                | some o ↦ some (true, o, m)
              ])
              (λ frame. Always-then _ (put_block frame (reset out)) _ (λ o.
                Always-ok {A = Bool × MessageBlock × Meter} (λ r. IsSame m r.2) (true, o, m)
                  (refl, refl))))
            (Always-none _))

  after_encrypt-IsSame :
      (orig out : MessageBlock) (tag ic : ℕ) (x : Option (Option (List ℕ × List ℕ) × DataSecurity))
      (m : Meter)
      → Always (λ r. IsSame m r.2) (after_encrypt c orig tag ic x m out)
  unfolding after_encrypt IsSame
  after_encrypt-IsSame orig out tag ic none m = Always-none _
  after_encrypt-IsSame orig out tag ic (some (none, d)) m =
      Always-ok {A = Bool × MessageBlock × Meter} (λ r. IsSame m r.2)
        (false, out, record m { security = d }) (refl, refl)
  after_encrypt-IsSame orig out tag ic (some (some (cipher, auth), d)) m =
      Always-map _ _ _ (λ a k. k)
        (finish_encrypt-IsSame orig out tag ic cipher auth (record m { security = d }))

  call_encrypt-IsSame :
      (orig out : MessageBlock) (m : Meter) → Always (λ r. IsSame m r.2) (call_encrypt c orig out m)
  unfolding call_encrypt IsSame request_next_client_ic
  call_encrypt-IsSame orig out m =
      Always-if _ (leb (data_length orig) 8) _ _
        (Always-ok {A = Bool × MessageBlock × Meter} (λ r. IsSame m r.2) (false, out, m)
          (refl, refl))
        (Always-if _ m.is_cipher _ _
          (Always-if _ (ltb max_data_length (orig.rd_ptr + data_length orig)) _ _
            (Always-none {A = Bool × MessageBlock × Meter} (λ r. IsSame m r.2))
            (Always-map _ _ _ (λ a k. k)
              (after_encrypt-IsSame orig out _ _ _ (request_next_client_ic m).1)))
          (Always-then _ _ _ (λ o. Always-ok (λ r. IsSame m r.2) (true, o, m) (refl, refl))))

module _ (o : Objects) (fuel : ℕ) (mktime : Calendar → ℕ) (localtime : ℕ → Tm) (host : ℕ)
    (c : Crypto) where
  Same : Meter → Bool × Meter → Type 0
  Same m r = IsSame m r.1

  encrypted-Same :
      (m : Meter) (x : Option (Bool × MessageBlock × Meter))
      → Always (λ r. IsSame m r.2) x
      → Always (Same m) (encrypted o fuel mktime localtime host c x)
  unfolding Always encrypted Same IsSame
  encrypted-Same m none h = tt
  encrypted-Same m (some (true, mb, n)) h = h
  encrypted-Same m (some (false, mb, n)) h = h

  sent_block-Same :
      (mb : MessageBlock) (m : Meter)
      → Always (Same m) (sent_block o fuel mktime localtime host c mb m)
  unfolding sent_block Same IsSame
  sent_block-Same mb m =
      Always-if _ m.is_cipher _ _ (encrypted-Same m _ (call_encrypt-IsSame c mb mb m))
        (Always-ok (Same m) (true, record m { sent = contents mb ∷ m.sent }) (refl, refl))

  send_answer-Same :
      (s : Option Packet) (m : Meter)
      → Always (Same m) (send_answer o fuel mktime localtime host c s m)
  unfolding send_answer Same IsSame
  send_answer-Same none m = Always-none _
  send_answer-Same (some s) m =
      Always-if _ (is_positive s.len_packet) _ _ (Always-then _ _ _ (λ mb. sent_block-Same mb m))
        (Always-ok (Same m) (false, m) (refl, refl))

  get_one-Same :
      (p : Packet) (rs : ResultSet) (m : Meter)
      → Always (Same m) (get_one o fuel mktime localtime host c p rs m)
  unfolding get_one
  get_one-Same p rs m = Always-then _ _ _ (λ d. send_answer-Same _ m)

  get_list-Same :
      (p : Packet) (rs : ResultSet) (m : Meter)
      → Always (Same m) (get_list o fuel mktime localtime host c p rs m)
  unfolding get_list Same IsSame
  get_list-Same p rs m = Always-then _ (get_list_data mktime rs) _ (λ r.
      Always-if _ (length r.1 == 0) _ _ (Always-ok (Same m) (false, m) (refl, refl))
        (send_answer-Same _ m))

  get_kind-Same :
      (p : Packet) (rs : ResultSet) (m : Meter)
      → Always (Same m) (get_kind o fuel mktime localtime host c p rs m)
  unfolding get_kind
  get_kind-Same p rs m =
      let kind = p.mem (p.data_off + 1) in
      Always-if _ (kind == 1) _ _ (get_one-Same p rs m)
        (Always-if _ (kind == 3) _ _ (get_list-Same p rs m) (send_answer-Same _ m))

  get_request-Same :
      (p : Packet) (m : Meter) → Always (Same m) (get_request o fuel mktime localtime host c p m)
  unfolding get_request Same IsSame
  get_request-Same p m =
      let m1 = record m { invokeid = p.mem (p.data_off + 2) } in
      Always-then _ (parse_request o fuel mktime localtime host c p) _ (λ r.
        Always-if _ r.0 _ _ (Always-map _ _ _ (λ a k. k) (get_kind-Same p r.1 m1))
          (Always-ok (Same m) (false, m) (refl, refl)))

  action_one-Same :
      (p : Packet) (rs : ResultSet) (m : Meter)
      → Always (Same m) (action_one o fuel mktime localtime host c p rs m)
  unfolding action_one Same IsSame
  action_one-Same p rs m =
      Always-map _ _ _ (λ a k. k) (send_answer-Same _ (record m { its_state = _ }))

  action_request-Same :
      (p : Packet) (m : Meter) → Always (Same m) (action_request o fuel mktime localtime host c p m)
  unfolding action_request Same IsSame
  action_request-Same p m =
      let m1 = record m { invokeid = p.mem (p.data_off + 2) } in
      Always-then _ (parse_request o fuel mktime localtime host c p) _ (λ r.
        Always-if _ r.0 _ _ (Always-map _ _ _ (λ a k. k) (action_one-Same p r.1 m1))
          (Always-ok (Same m) (false, m) (refl, refl)))

  module _ (scan : ℕ → ℕ → Option ℕ) where
    pub process_data-Keeps : Keeps c scan host (process_data o fuel mktime localtime host c)
    unfolding process_data Keeps Same IsSame
    process_data-Keeps p m = Always-if _ (p.mem p.data_off == 192) _ _ (get_request-Same p m) (
        Always-if _ (p.mem p.data_off == 195) _ _ (action_request-Same p m)
          (Always-ok (Same m) (false, m) (refl, refl)))

    -- A session that begins at rest is at rest after any sequence of messages that it handles, requests
    -- for data among them: the access state is INIT, or PASS_2 while the handler is in mhs_cosem_connect.
    pub session-at_rest :
        (m n : Meter)
        → at_rest m ≡ true
        → Run c scan host (process_data o fuel mktime localtime host c) m n
        → at_rest n ≡ true
    session-at_rest =
        Run-at_rest c scan host (process_data o fuel mktime localtime host c) process_data-Keeps
