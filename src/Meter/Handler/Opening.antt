-- ===== src/Meter/Handler/Opening.antt =====
-- simulator_meter/fee/meter_simulator/meter_handler.cpp and access_security.cpp: what has to come
-- before a meter serves data, and what does not.
use test.Prelude.{
  ℕ, ◌≡◌, ◌≢◌, refl, ap, sym, subst, ◌∙◌, arith, List, [], ◌∷◌, Option, none, some, Bool, true,
  false, ◌&&◌, leb, ◌==◌, if◌then◌else◌,
}
use test.Prelude.Options.{Always, Always-ok, Always-map, Always-test}
use test.Prelude.Int.{ℤ, pos, is_positive}
use test.Memory.{bytes}
use test.Packet.{Packet}
use test.Packet.Dlms47.{set_device_addr, get_src_port, get_host_id, parse_packet}
use test.Security.{Crypto}
use test.MessageBlock.{MessageBlock, copy, copy_in, advance_wr}
use test.Meter.{Meter, mhs_data, mhs_null, init, reset_state, reset_handler_state}
use test.Meter.Protect.{put_block}
use test.Meter.Association.{
  Aarq, rejected, parse_aarq, proc_aarq, proc_response, blank_aarq, from_client, take_members,
}
use test.Meter.Association.Reply.{proc_request, request_in}
use test.Meter.Handler.{
  send_if, send_packet, connected, blank_answer, dispatch, is_data, is_connecting,
  process_cosem_connect, process_cosem_disconnect,
}
use test.Meter.Handler.Session.{process_cosem_disconnect-IsClosed}

-- The answer that nothing was written to is sent as an empty message.
send_packet-blank_answer :
    (k m : Meter) → send_packet (blank_answer k) m ≡ some (record m { sent = [] ∷ m.sent })
unfolding send_packet put_block set_device_addr copy copy_in advance_wr test.Packet.Dlms47.new
    test.Packet.Dlms47.reset test.MessageBlock.new bytes
send_packet-blank_answer k m = refl

-- The answer was sent, and the meter is else as `m`.
Answered : Bool → Meter → Option (Bool × Meter) → Type 0
Answered b m x =
    (n : Meter) × (x ≡ some (b, n)) × (n.handler_state ≡ m.handler_state) × (n.access ≡ m.access)

Answered-if :
    (t b : Bool) (m k : Meter) (x : Option Meter)
    → x ≡ some k
    → (k.handler_state ≡ m.handler_state) × (k.access ≡ m.access)
    → Answered b m (if t then elim x [ none ↦ none | some m' ↦ some (b, m') ] else some (b, m))
unfolding Answered
Answered-if true b m k x e h = (k, rw e refl, h.0, h.1)
Answered-if false b m k x e h = (m, refl, refl, refl)

send_if-blank_answer :
    (p : Packet) (b : Bool) (k m : Meter) → Answered b m (send_if p (blank_answer k) b m)
unfolding send_if
send_if-blank_answer p b k m =
    Answered-if (is_positive p.len_packet) b m _ _ (send_packet-blank_answer k m) (refl, refl)

module _ (c : Crypto) (scan : ℕ → ℕ → Option ℕ) (host : ℕ) where
  dispatch_unopened :
      (serve : Packet → Meter → Option (Bool × Meter))
      → (challenge : List ℕ) (mb : MessageBlock) (p : Packet) (m : Meter)
      → m.handler_state ≡ mhs_null
      → p.mem p.data_off ≢ 96
      → dispatch c scan host serve challenge mb p m ≡ (
          if p.mem p.data_off == 98
          then process_cosem_disconnect c scan host challenge p m
          else some (false, m))
  unfolding dispatch is_data is_connecting
  dispatch_unopened serve challenge mb p m h d =
      let tag = p.mem p.data_off in
      let closed : is_data m.handler_state ≡ false = ap is_data h in
      let waiting : is_connecting m.handler_state ≡ false = ap is_connecting h in
      let no_cipher : (leb 200 tag && (leb tag 207 && is_data m.handler_state)) ≡ false =
        ground arith in
      let no_aarq : (tag == 96) ≡ false = ground arith in
      rw (no_cipher, no_aarq, closed, waiting) refl

  -- In the state mhs_null, a message whose tag is not that of an AARQ has the same result whatever
  -- serves data, and where there is a result the state is mhs_null again.
  pub unopened_serves_nothing :
      (serve other : Packet → Meter → Option (Bool × Meter))
      → (challenge : List ℕ) (mb : MessageBlock) (p : Packet) (m : Meter)
      → m.handler_state ≡ mhs_null
      → p.mem p.data_off ≢ 96
      → (dispatch c scan host serve challenge mb p m ≡ dispatch c scan host other challenge mb p m)
        × Always (λ r. r.1.handler_state ≡ mhs_null) (dispatch c scan host serve challenge mb p m)
  unopened_serves_nothing serve other challenge mb p m h d =
      let e = dispatch_unopened serve challenge mb p m h d in
      (
        e ∙ sym (dispatch_unopened other challenge mb p m h d),
        subst (Always (λ r. r.1.handler_state ≡ mhs_null)) (sym e) (
            Always-test _ (p.mem p.data_off == 98) _ _
              (λ t.
                Always-map _ _ _ (λ r k. k.1 ∙ h)
                  (process_cosem_disconnect-IsClosed c scan host challenge p m (ground arith)))
              (λ t. Always-ok {A = Bool × Meter} _ (false, m) h)),
      )

  proc_response_rejected :
      (p : Packet) (m : Meter) (a : Aarq)
      → p.mem p.data_off ≡ 96
      → parse_aarq p (blank_aarq (from_client p m)) ≡ rejected a
      → proc_response c p m ≡ some (pos 1, take_members a (from_client p m))
  unfolding proc_response proc_aarq
  proc_response_rejected p m a e h = rw (e, h) refl

  proc_request_closed :
      (challenge : List ℕ) (s : Packet) (m : Meter)
      → m.access.state ≡ init
      → proc_request c scan host challenge s m ≡ some (pos 1, s, m)
  unfolding proc_request request_in
  proc_request_closed challenge s m i = rw i refl

  connected_open :
      (p s : Packet) (m : Meter)
      → connected p (some (pos 1, s, m))
        ≡ send_if p s true (reset_handler_state mhs_data (reset_state init m))
  unfolding connected
  connected_open p s m = refl

  process_cosem_connect_closed :
      (challenge : List ℕ) (p : Packet) (m m1 : Meter) (r : ℤ)
      → proc_response c p m ≡ some (r, m1)
      → m1.access.state ≡ init
      → process_cosem_connect c scan host challenge p m
        ≡ send_if p (blank_answer m1) true (reset_handler_state mhs_data (reset_state init m1))
  unfolding process_cosem_connect
  process_cosem_connect_closed challenge p m m1 r e i =
      ap
        (λ x. elim x [
          | none ↦ none
          | some (_, m1) ↦ connected p (proc_request c scan host challenge (blank_answer m1) m1)
        ])
        e
      ∙ ap (connected p) (proc_request_closed challenge (blank_answer m1) m1 i)
      ∙ connected_open p (blank_answer m1) m1

  -- In the access state INIT, `process_cosem_connect` on an AARQ that `parse_aarq` rejects answers true,
  -- sets the handler's state to mhs_data, and leaves the access state at INIT.
  pub refused_aarq_opens :
      (challenge : List ℕ) (p : Packet) (m : Meter) (a : Aarq)
      → m.access.state ≡ init
      → p.mem p.data_off ≡ 96
      → parse_aarq p (blank_aarq (from_client p m)) ≡ rejected a
      → (n : Meter) × (process_cosem_connect c scan host challenge p m ≡ some (true, n))
        × (n.handler_state ≡ mhs_data)
        × (n.access.state ≡ init)
  unfolding Answered
  refused_aarq_opens challenge p m a i e h =
      let m1 : Meter = take_members a (from_client p m) in
      let m2 : Meter = reset_handler_state mhs_data (reset_state init m1) in
      let (n, sent, st, ac) = send_if-blank_answer p true m1 m2 in
      let closed =
        process_cosem_connect_closed challenge p m m1 (pos 1) (proc_response_rejected p m a e h)
          i in
      (n, closed ∙ sent, st, ap (λ x. x.state) ac)
