-- ===== src/Meter/Handler/Rest.antt =====
-- simulator_meter/fee/meter_simulator/meter_handler.cpp: what every message does to the state of a
-- session, whatever it holds.
use test.Prelude.{
  ℕ, ◌+◌, ◌-◌, ◌≡◌, refl, ap, ◌∙◌, arith, List, Option, none, some, Bool, true, false, ◌&&◌, leb,
  ltb, ◌==◌, length, inl, inr,
}
use test.Prelude.Options.{
  Always, Always-then, Always-some, Always-ok, Always-if, Always-none, Always-map, Always-test,
}
use test.Prelude.Int.{is_positive}
use test.Packet.{Packet}
use test.Packet.Dlms47.{get_host_id, parse_packet}
use test.Security.{Crypto, DataSecurity, Plain}
use test.MessageBlock.{MessageBlock, data_length}
use test.Meter.{Meter}
use test.Memory.{bytes}
use test.Meter.Protect.{split_payload, accept_plain, after_decrypt, decrypt_from, call_decrypt}
use test.Meter.Handler.{serve_plain, dispatch, handle_response, is_data, is_connecting}
use test.Meter.Handler.Session.{
  IsSame, rest_of, at_rest, at_rest-IsSame, IsConnected, process_cosem_connect-IsConnected,
  process_cosem_disconnect-IsClosed,
}

IsSame-trans : (m n k : Meter) → IsSame m n → IsSame n k → IsSame m k
unfolding IsSame
IsSame-trans m n k (a, h) (b, i) = (b ∙ a, i ∙ h)

module _ (c : Crypto) where
  accept_plain-IsSame :
      (orig out : MessageBlock) (plain : List ℕ) (m : Meter)
      → Always (λ r. IsSame m r.2) (accept_plain c orig plain m out)
  unfolding accept_plain IsSame
  accept_plain-IsSame orig out plain m =
      Always-if _ (ltb 1024 (length plain)) _ _ (Always-none _)
        (Always-then _ _ _ (λ o. Always-ok (λ r. IsSame m r.2) (true, o, m) (refl, refl)))

  after_decrypt-IsSame :
      (orig out : MessageBlock) (x : Option (Plain × DataSecurity)) (m : Meter)
      → Always (λ r. IsSame m r.2) (after_decrypt c orig x m out)
  unfolding after_decrypt IsSame
  after_decrypt-IsSame orig out none m = Always-none _
  after_decrypt-IsSame orig out (some (r, d)) m =
      let m1 = record m { security = d } in
      Always-if _ (r.ret && r.authen_result) _ _
        (Always-map _ _ _ (λ a k. k) (accept_plain-IsSame orig out _ m1))
        (Always-ok (λ x. IsSame m x.2) (false, out, m1) (refl, refl))

  decrypt_from-IsSame :
      (orig out : MessageBlock) (at len : ℕ) (m : Meter)
      → Always (λ r. IsSame m r.2) (decrypt_from c orig at len m out)
  unfolding decrypt_from
  decrypt_from-IsSame orig out at len m = Always-if _ (ltb len 5) _ _ (Always-none _) (
      Always-if _ (leb (at + 5 + (len - 5)) 1536) _ _
        (Always-then _
          (split_payload c (orig.base at) (len - 5)
            (c.hex_encode (bytes orig.base (at + 5) (len - 5))))
          (λ r. after_decrypt c orig _ m out) (λ r. after_decrypt-IsSame orig out _ m))
        (Always-none _))

  pub call_decrypt-IsSame :
      (orig out : MessageBlock) (m : Meter) → Always (λ r. IsSame m r.2) (call_decrypt c orig out m)
  unfolding call_decrypt IsSame
  call_decrypt-IsSame orig out m =
      Always-if _ (leb (data_length orig) 15) _ _
        (Always-ok (λ r. IsSame m r.2) (false, out, m) (refl, refl))
        (Always-if _ m.is_cipher _ _ (decrypt_from-IsSame orig out _ _ m)
          (Always-then _ _ _ (λ o. Always-ok (λ r. IsSame m r.2) (true, o, m) (refl, refl))))

  module _ (scan : ℕ → ℕ → Option ℕ) (host : ℕ)
      (serve : Packet → Meter → Option (Bool × Meter)) where
    -- Serving data does not touch the association.
    unfoldable pub Keeps : Type 0
    Keeps = (p : Packet) (m : Meter) → Always (λ r. IsSame m r.1) (serve p m)

    -- A session at rest, whatever was received.
    unfoldable pub IsRest : Bool × Meter → Type 0
    IsRest (r, n) = at_rest n ≡ true

    IsRest-same : (m : Meter) (r : Bool × Meter) → at_rest m ≡ true → IsSame m r.1 → IsRest r
    unfolding IsRest
    IsRest-same m r h k = at_rest-IsSame m r.1 k ∙ h

    IsRest-connected : (r : Bool × Meter) → IsConnected r → IsRest r
    unfolding IsConnected IsRest at_rest rest_of is_connecting
    IsRest-connected (r, n) (inl (a, h)) = ap (λ x. rest_of x n.handler_state) a
    IsRest-connected (r, n) (inr (a, h)) =
        ap (λ x. rest_of x n.handler_state) a ∙ ap is_connecting h

    serve_plain-IsSame-some :
        Keeps
        → (p : Packet) (m n : Meter) (ok : Bool) (mb : MessageBlock) → IsSame m n
        → Always (λ r. IsSame m r.1) (serve_plain c scan host serve p (some (ok, mb, n)))
    unfolding serve_plain Keeps
    serve_plain-IsSame-some keeps p m n ok mb h =
        Always-if _ ok _ _
          (Always-then _ _ _ (λ r.
            Always-map {A = Bool × Meter} _ _ _ (λ a k. IsSame-trans m n a.1 h k) (keeps r n)))
          (Always-ok {A = Bool × Meter} (λ r. IsSame m r.1) (false, n) h)

    serve_plain-IsSame :
        Keeps
        → (p : Packet) (m : Meter) (x : Option (Bool × MessageBlock × Meter))
        → Always (λ r. IsSame m r.2) x
        → Always (λ r. IsSame m r.1) (serve_plain c scan host serve p x)
    unfolding Always serve_plain
    serve_plain-IsSame keeps p m none h = tt
    serve_plain-IsSame keeps p m (some (ok, mb, n)) h = serve_plain-IsSame-some keeps p m n ok mb h

    dispatch-IsRest :
        Keeps
        → (challenge : List ℕ) (mb : MessageBlock) (p : Packet) (m : Meter) → at_rest m ≡ true
        → Always IsRest (dispatch c scan host serve challenge mb p m)
    unfolding dispatch Keeps IsSame IsRest at_rest rest_of
    dispatch-IsRest keeps challenge mb p m h =
        Always-if _
          (leb 200 (p.mem p.data_off) && (leb (p.mem p.data_off) 207 && is_data m.handler_state)) _
          _
          (Always-map _ _ _ (λ r k. IsRest-same m r h k)
            (serve_plain-IsSame keeps p m _ (
              Always-map _ _ _ (λ a k. k)
                (call_decrypt-IsSame mb _ (record m { is_cipher = true })))))
          (Always-if _ (p.mem p.data_off == 96) _ _
            (Always-map _ _ _ (λ r k. IsRest-connected r k)
              (process_cosem_connect-IsConnected c scan host challenge p m))
            (Always-test _ (p.mem p.data_off == 98) _ _
              (λ e.
                Always-map _ _ _ (λ r k. ap (λ x. rest_of x r.1.handler_state) k.0)
                  (process_cosem_disconnect-IsClosed c scan host challenge p m (ground arith)))
              (λ e.
                Always-if _ (is_data m.handler_state) _ _
                  (Always-map _ _ _ (λ r k. IsRest-same m r h k) (keeps p m))
                  (Always-if _ (is_connecting m.handler_state) _ _
                    (Always-map _ _ _ (λ r k. IsRest-connected r k)
                      (process_cosem_connect-IsConnected c scan host challenge p m))
                    (Always-ok IsRest (false, m) h)))))

    handle_response-IsRest :
        Keeps
        → (challenge : List ℕ) (mb : MessageBlock) (m : Meter) → at_rest m ≡ true
        → Always IsRest (handle_response c scan host serve challenge mb m)
    unfolding handle_response IsRest at_rest
    handle_response-IsRest keeps challenge mb m h = Always-then _ _ _ (λ p0.
        Always-if _ (is_positive (parse_packet p0).1) _ _
          (dispatch-IsRest keeps challenge mb (parse_packet p0).0
            (record m { client_host_id = get_host_id (parse_packet p0).0; is_cipher = false }) h)
          (Always-ok {A = Bool × Meter} IsRest (false, m) h))

    -- The messages that a meter received, one after the other, and where they took it.
    pub data Run (m : Meter) : Meter → Type 0 where
      started : Run m m
      received :
          {n k : Meter} (challenge : List ℕ) (mb : MessageBlock) (r : Bool)
          → Run m n
          → handle_response c scan host serve challenge mb n ≡ some (r, k)
          → Run m k

    -- A session that begins at rest is at rest after any sequence of messages that it handles: the access
    -- state is INIT, or PASS_2 while the handler is in mhs_cosem_connect. The hypothesis is on the answers
    -- to requests for data: they leave both states alone.
    pub Run-at_rest : Keeps → (m n : Meter) → at_rest m ≡ true → Run m n → at_rest n ≡ true
    unfolding IsRest
    Run-at_rest keeps m n h started = h
    Run-at_rest keeps m n h (received {n = k} challenge mb r run e) =
        Always-some IsRest _ _
          (handle_response-IsRest keeps challenge mb k (Run-at_rest keeps m k h run)) e
