-- ===== src/Meter/Handler/Session.antt =====
-- simulator_meter/fee/meter_simulator/meter_handler.cpp and access_security.cpp: the states that a
-- session can be in between two messages.
use test.Prelude.{
  ℕ, ◌≡◌, refl, subst, ap, sym, ◌∙◌, List, Option, none, some, Bool, true, false, ◌==◌, length, ◌⊎◌,
  inl, inr,
}
use test.Prelude.Options.{
  Always, Always-bind, Always-then, Always-map, Always-at, Always-ok, Always-if, Always-none,
}
use test.Prelude.Int.{is_positive, ℤ, pos}
use test.Packet.{Packet}
use test.Security.{Crypto}
use test.Meter.{
  request_next_client_ic, Meter, AccessState, HandlerState, mhs_data, mhs_cosem_connect, init,
  pass_2, pass_4, lls_aare, rlre, reset_state, reset_handler_state,
}
use test.Packet.Dlms47.{get_src_port}
use test.Meter.Association.{proc_response}
use test.Meter.Association.Reply.{
  answer, init_response, seal_next, build_init_response, get_hls_aare_pass2, get_rlre, returned,
  request_in, proc_request,
}
use test.Meter.Handler.{
  send_packet, send_if, is_connecting, blank_answer, connected, disconnected,
  process_cosem_disconnect, process_cosem_connect,
}

-- Between two messages an association is closed, or waits for the third step of an opening.
unfoldable pub rest_of : AccessState → HandlerState → Bool
rest_of st h = elim st [ init ↦ true | pass_2 ↦ is_connecting h | _ ↦ false ]

unfoldable pub at_rest : Meter → Bool
at_rest m = rest_of m.access.state m.handler_state

-- The access and the state of the handler are the same.
unfoldable pub IsSame : Meter → Meter → Type 0
IsSame m n = (n.access ≡ m.access) × (n.handler_state ≡ m.handler_state)

pub at_rest-IsSame : (m n : Meter) → IsSame m n → at_rest n ≡ at_rest m
unfolding IsSame at_rest
at_rest-IsSame m n (a, h) =
    ap (λ x. rest_of x.state n.handler_state) a ∙ ap (rest_of m.access.state) h

send_packet-IsSame : (p : Packet) (m : Meter) → Always (IsSame m) (send_packet p m)
unfolding send_packet IsSame
send_packet-IsSame p m = Always-then _ _ _ (λ mb. Always-ok (IsSame m) _ (refl, refl))

send_if-IsSame :
    (p s : Packet) (b : Bool) (m : Meter) → Always (λ r. IsSame m r.1) (send_if p s b m)
unfolding send_if IsSame
send_if-IsSame p s b m =
    Always-if _ (is_positive p.len_packet) _ _
      (Always-bind (IsSame m) _ _ _ (send_packet-IsSame s m) (λ n h. Always-ok _ (b, n) h))
      (Always-ok _ (b, m) (refl, refl))

answer-state :
    (st : AccessState) (m : Meter) (q : Option Packet)
    → Always (λ r. (r.1.access.state ≡ st) × (r.1.handler_state ≡ m.handler_state)) (answer st m q)
unfolding answer
answer-state st m none = Always-none _
answer-state st m (some q) = Always-ok _ (q, reset_state st m) (refl, refl)

-- Where the result is 2, the state is PASS_2.
IsResult : (ℤ × Packet × Meter) → Type 0
IsResult (r, q, n) = (r ≡ pos 1) ⊎ ((r ≡ pos 2) × (n.access.state ≡ pass_2))

-- A client that has opened an association, or is asked for its third step.
unfoldable pub IsConnected : Bool × Meter → Type 0
IsConnected (r, n) =
    ((n.access.state ≡ init) × (n.handler_state ≡ mhs_data))
    ⊎ ((n.access.state ≡ pass_2) × (n.handler_state ≡ mhs_cosem_connect))

connected_1 : (p s : Packet) (m : Meter) → Always IsConnected (connected p (some (pos 1, s, m)))
unfolding connected IsConnected IsSame
connected_1 p s m =
    Always-map _ _ _ (λ a k. inl (ap (λ x. x.state) k.0, k.1))
      (send_if-IsSame p s true (reset_handler_state mhs_data (reset_state init m)))

connected_2 :
    (p s : Packet) (m : Meter)
    → m.access.state ≡ pass_2
    → Always IsConnected (connected p (some (pos 2, s, m)))
unfolding connected IsConnected IsSame
connected_2 p s m e =
    Always-map _ _ _ (λ a k. inr (ap (λ x. x.state) k.0 ∙ e, k.1))
      (send_if-IsSame p s true (reset_handler_state mhs_cosem_connect m))

connected-IsConnected :
    (p : Packet) (x : Option (ℤ × Packet × Meter))
    → Always IsResult x
    → Always IsConnected (connected p x)
unfolding Always IsResult connected
connected-IsConnected p none h = tt
connected-IsConnected p (some (r, s, n)) (inl e) =
    subst (λ i. Always IsConnected (connected p (some (i, s, n)))) (sym e) (connected_1 p s n)
connected-IsConnected p (some (r, s, n)) (inr (e, st)) =
    subst (λ i. Always IsConnected (connected p (some (i, s, n)))) (sym e) (connected_2 p s n st)

module _ (c : Crypto) where
  seal_next-IsSame :
      (sc : ℕ) (plain : List ℕ) (m : Meter) → Always (λ r. IsSame m r.2) (seal_next c sc plain m)
  unfolding seal_next IsSame request_next_client_ic
  seal_next-IsSame sc plain m = Always-then _ _ _ (λ r. Always-ok _ _ (refl, refl))

  build_init_response-IsSame : (m : Meter) → Always (λ r. IsSame m r.1) (build_init_response c m)
  unfolding build_init_response IsSame
  build_init_response-IsSame m =
      Always-if _ m.access.cipher_flag _ _
        (Always-bind (λ r. IsSame m r.2) _ _ _ (seal_next-IsSame m.access.sc init_response m)
          (λ r h. Always-then _ _ _ (λ bs. Always-ok _ _ h)))
        (Always-ok _ (init_response, m) (refl, refl))

  get_hls_aare_pass2-state :
      (challenge : List ℕ) (p : Packet) (m : Meter)
      → Always (λ r. r.1.access.state ≡ m.access.state) (get_hls_aare_pass2 c challenge p m)
  unfolding get_hls_aare_pass2 IsSame
  get_hls_aare_pass2-state challenge p m =
      let m1 = record m { access = record m.access { challenge_stoc = challenge } } in
      Always-bind (λ r. IsSame m1 r.1) _ _ _ (build_init_response-IsSame m1)
        (λ r h.
          let e = ap (λ a. a.state) h.0 in
          Always-if _ (length r.0 == 0) _ _ (Always-ok _ (p, r.1) e)
            (Always-map _ _ _ (λ a k. k.0 ∙ e) (answer-state r.1.access.state r.1 _)))

  returned-IsResult_1 :
      (scan : ℕ → ℕ → Option ℕ) (host : ℕ) (x : Option (Packet × Meter))
      → Always IsResult (returned c scan host (pos 1) x)
  unfolding returned IsResult
  returned-IsResult_1 scan host none = Always-none _
  returned-IsResult_1 scan host (some (q, n)) = Always-ok _ _ (inl refl)

  returned-IsResult_2 :
      (scan : ℕ → ℕ → Option ℕ) (host : ℕ) (x : Option (Packet × Meter))
      → Always (λ r. r.1.access.state ≡ pass_2) x
      → Always IsResult (returned c scan host (pos 2) x)
  unfolding returned IsResult Always
  returned-IsResult_2 scan host none h = tt
  returned-IsResult_2 scan host (some (q, n)) h = Always-ok IsResult (pos 2, q, n) (inr (refl, h))

  request_in-IsResult :
      (scan : ℕ → ℕ → Option ℕ) (host : ℕ) (st : AccessState) (challenge : List ℕ) (p : Packet)
      (m : Meter)
      → m.access.state ≡ st
      → Always IsResult (request_in c scan host st challenge p m)
  unfolding request_in IsResult
  request_in-IsResult scan host pass_2 challenge p m e =
      returned-IsResult_2 scan host _
        (Always-map _ _ _ (λ a k. k ∙ e) (get_hls_aare_pass2-state challenge p m))
  request_in-IsResult scan host pass_4 challenge p m e = returned-IsResult_1 scan host _
  request_in-IsResult scan host lls_aare challenge p m e = returned-IsResult_1 scan host _
  request_in-IsResult scan host rlre challenge p m e = returned-IsResult_1 scan host _
  request_in-IsResult scan host _ challenge p m e = Always-ok IsResult (pos 1, p, m) (inl refl)

  module _ (scan : ℕ → ℕ → Option ℕ) (host : ℕ) where
    pub process_cosem_connect-IsConnected :
        (challenge : List ℕ) (p : Packet) (m : Meter)
        → Always IsConnected (process_cosem_connect c scan host challenge p m)
    unfolding process_cosem_connect proc_request
    process_cosem_connect-IsConnected challenge p m = Always-then _ _ _ (λ r.
        connected-IsConnected p _
          (request_in-IsResult scan host _ challenge (blank_answer r.1) r.1 refl))

    get_rlre-IsClosed :
        (p : Packet) (m : Meter)
        → Always
            (λ r. (r.1.access.state ≡ init) × (r.1.handler_state ≡ m.handler_state))
            (get_rlre c scan host p m)
    unfolding get_rlre IsSame
    get_rlre-IsClosed p m =
        Always-bind (λ r. IsSame m r.1) _ _ _ (build_init_response-IsSame m)
          (λ r h. Always-map _ _ _ (λ a k. (k.0, k.1 ∙ h.1)) (answer-state init r.1 _))

    disconnected_1 :
        (p s : Packet) (m : Meter)
        → Always
            (λ r. (r.1.access.state ≡ init) × (r.1.handler_state ≡ m.handler_state))
            (disconnected p (some (pos 1, s, m)))
    unfolding disconnected IsSame
    disconnected_1 p s m =
        Always-map _ _ _ (λ a k. (ap (λ x. x.state) k.0, k.1))
          (send_if-IsSame p s false (reset_state init m))

    -- What a release does to the session.
    released :
        (p : Packet) (m : Meter) (x : Option (Packet × Meter))
        → Always (λ r. (r.1.access.state ≡ init) × (r.1.handler_state ≡ m.handler_state)) x
        → Always
            (λ r. (r.1.access.state ≡ init) × (r.1.handler_state ≡ m.handler_state))
            (disconnected p (returned c scan host (pos 1) x))
    unfolding Always returned disconnected
    released p m none h = tt
    released p m (some (s, n)) h =
        Always-map _ (λ r. (r.1.access.state ≡ init) × (r.1.handler_state ≡ m.handler_state)) _
          (λ a k. (k.0, k.1 ∙ h.1)) (disconnected_1 p s n)

    proc_response_rlrq :
        (p : Packet) (m : Meter)
        → p.mem p.data_off ≡ 98
        → proc_response c p m
          ≡ some (
            pos 0,
            record m { access = record m.access { client_id = get_src_port p; state = rlre } },
          )
    unfolding proc_response
    proc_response_rlrq p m e = rw e refl

    pub process_cosem_disconnect-IsClosed :
        (challenge : List ℕ) (p : Packet) (m : Meter)
        → p.mem p.data_off ≡ 98
        → Always
            (λ r. (r.1.access.state ≡ init) × (r.1.handler_state ≡ m.handler_state))
            (process_cosem_disconnect c scan host challenge p m)
    unfolding process_cosem_disconnect proc_request request_in
    process_cosem_disconnect-IsClosed challenge p m e =
        let m1 = record m {
          access = record m.access { client_id = get_src_port p; state = rlre };
        } in
        Always-at _ _ _ _ (proc_response_rlrq p m e)
          (released p m _ (get_rlre-IsClosed (blank_answer m1) m1))
