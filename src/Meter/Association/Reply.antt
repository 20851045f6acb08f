-- ===== src/Meter/Association/Reply.antt =====
-- simulator_meter/fee/meter_simulator/access_security.cpp: what the meter answers while an
-- association is opened or released (`build_init_response`, `proc_request` and the four `get_…`).
-- `c` is the library of ciphers, `scan` the conversion of two digits by the C library, `host` the
-- member `host_id_` of the protocol module, `challenge` the random text that the meter draws.
-- A result `none` is an access outside an array.
use test.Prelude.{
  ℕ, ◌+◌, ◌%◌, ◌^◌, List, [], ◌∷◌, ◌++◌, Option, none, some, ◌&&◌, leb, ◌==◌, if◌then◌else◌, length,
}
use test.Prelude.Int.{ℤ, pos}
use test.Packet.{Packet, data_bytes}
use test.Packet.Dlms47
use test.Security.{Crypto, set_security_control, set_init_vector, word_bytes, encrypt}
use test.Meter.{Meter, AccessState, init, pass_2, pass_4, lls_aare, rlre, request_next_client_ic}
use test.Meter.Apdu.{
  format_packet_lls_aare_ln, format_packet_hls_aare_ln, format_packet_rlre, format_packet_pass4,
  format_packet_glo,
}

abbrev pub init_response : List ℕ
init_response =
    0x08 ∷ 0x00 ∷ 0x06 ∷ 0x5f ∷ 0x1f ∷ 0x04 ∷ 0x00 ∷ 0x00 ∷ 0x50 ∷ 0x1f ∷ 0x01 ∷ 0xf4 ∷ 0x00 ∷ 0x07
    ∷ []

-- `result` in the AARE.
abbrev pub result_code : Meter → ℕ
result_code m = if m.access.association_result then 0 else 1

-- The answer is made, and the state of the access set.
unfoldable pub answer : AccessState → Meter → Option Packet → Option (Packet × Meter)
answer st m none = none
answer st m (some q) = some (q, record m { access = record m.access { state = st } })

module _ (c : Crypto) where
  open c use {hex_encode, hex_decode}

  -- The next counter, and the encryption under it, with the control byte `sc` of the call and that of
  -- the members.
  unfoldable pub seal_next : ℕ → List ℕ → Meter → Option (ℕ × Option (List ℕ × List ℕ) × Meter)
  seal_next sc plain m =
      let (ic, m1) = request_next_client_ic m in
      let d =
        set_init_vector m1.server_systitle ic (set_security_control m1.access.sc m1.security) in
      elim (encrypt c (hex_encode plain) sc (m1.server_systitle ++ word_bytes ic) d) [
        | none ↦ none
        | some (r, d') ↦ some (ic, r, record m1 { security = d' })
      ]

  -- The arrays have 256, 64 and, for the result, 256 bytes.
  unfoldable pub ciphered_response : ℕ → ℕ → Option (List ℕ × List ℕ) → Option (List ℕ)
  ciphered_response sc ic none = some []
  ciphered_response sc ic (some (text, tag_text)) =
      let cipher = hex_decode text in
      let tag = hex_decode tag_text in
      let n = length cipher + length tag in
      if leb (length cipher) 256 && (leb (length tag) 64 && leb (7 + n) 256)
      then some (0x28 ∷ (5 + n) % 2 ^ 8 ∷ sc ∷ (word_bytes ic ++ (cipher ++ tag)))
      else none

  -- The bytes written to `out_irq`, as many as the result says.
  unfoldable pub build_init_response : Meter → Option (List ℕ × Meter)
  build_init_response m =
      if m.access.cipher_flag
      then elim (seal_next m.access.sc init_response m) [
        | none ↦ none
        | some (ic, r, m') ↦ elim (ciphered_response m.access.sc ic r) [
          | none ↦ none
          | some bs ↦ some (bs, m')
        ]
      ]
      else some (init_response, m)

  unfoldable pub get_lls_aare : Packet → Meter → Option (Packet × Meter)
  unfolding answer
  get_lls_aare p m = elim (build_init_response m) [
    | none ↦ none
    | some (response, m') ↦ answer rlre m' (
        format_packet_lls_aare_ln m'.access.client_id m'.access.cipher_flag m'.server_systitle
          response (result_code m') p)
  ]

  -- Without a response of its own the meter leaves the packet as it is.
  unfoldable pub get_hls_aare_pass2 : List ℕ → Packet → Meter → Option (Packet × Meter)
  unfolding answer
  get_hls_aare_pass2 challenge p m =
      let m1 = record m { access = record m.access { challenge_stoc = challenge } } in
      elim (build_init_response m1) [
        | none ↦ none
        | some (response, m') ↦
            let q =
              format_packet_hls_aare_ln m'.access.client_id m'.access.cipher_flag
                m'.access.authen_mech_id m'.server_systitle response (result_code m') challenge p in
            if length response == 0 then some (p, m') else answer m'.access.state m' q
      ]

  -- Cipher text and tag; both texts stay empty where the encryption failed.
  joined : Option (List ℕ × List ℕ) → List ℕ
  joined none = []
  joined (some (text, tag)) = text ++ tag

  module _ (scan : ℕ → ℕ → Option ℕ) (host : ℕ) where
    -- The answer to the client's challenge, protected with the control byte 0x30.
    unfoldable pub get_hls_aare_pass4 : Packet → Meter → Option (Packet × Meter)
    unfolding answer joined
    get_hls_aare_pass4 p m =
        let id = m.access.client_id in
        elim (format_packet_pass4 scan id 0 m.access.invoke_id m.access.fctos
          (test.Packet.Dlms47.new 1)) [
            | none ↦ none
            | some request ↦ elim (seal_next 0x30 (data_bytes request) m) [
              | none ↦ none
              | some (ic, r, m') ↦
                  answer m'.access.state m'
                    (format_packet_glo scan host 0xcf 0x30 ic (joined r) id p)
            ]
          ]

    unfoldable pub get_rlre : Packet → Meter → Option (Packet × Meter)
    unfolding answer
    get_rlre p m = elim (build_init_response m) [
      | none ↦ none
      | some (response, m') ↦ answer init m' (format_packet_rlre m'.access.client_id 3 0 response p)
    ]

    unfoldable pub returned : ℤ → Option (Packet × Meter) → Option (ℤ × Packet × Meter)
    returned r none = none
    returned r (some (q, m)) = some (r, q, m)

    -- The `switch` on the state. Only the answer with the meter's challenge gives 2.
    unfoldable pub request_in : AccessState → List ℕ → Packet → Meter → Option (ℤ × Packet × Meter)
    request_in pass_2 challenge p m = returned (pos 2) (get_hls_aare_pass2 challenge p m)
    request_in pass_4 challenge p m = returned (pos 1) (get_hls_aare_pass4 p m)
    request_in lls_aare challenge p m = returned (pos 1) (get_lls_aare p m)
    request_in rlre challenge p m = returned (pos 1) (get_rlre p m)
    request_in _ challenge p m = some (pos 1, p, m)

    unfoldable pub proc_request : List ℕ → Packet → Meter → Option (ℤ × Packet × Meter)
    unfolding request_in
    proc_request challenge p m = request_in m.access.state challenge p m
