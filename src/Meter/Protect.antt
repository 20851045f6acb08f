-- ===== src/Meter/Protect.antt =====
-- simulator_meter/fee/meter_simulator/meter_handler.cpp: `call_encrypt` and `call_decrypt`, which turn
-- a wrapper frame with a plain message into one with a protected message, and back.
-- A result `none` is an access outside an array, or an exception that nothing catches.
pub mod RoundTrip
pub mod Sealed
pub mod Opened
pub mod Agreement
pub mod Messages
mod Tests
use test.Prelude.{
  ℕ, zero, suc, ◌+◌, ◌-◌, ◌*◌, ◌/◌, ◌%◌, ◌^◌, List, [], ◌∷◌, ◌++◌, Option, none, some, Bool, true,
  false, ◌&&◌, ◌||◌, leb, ltb, ◌==◌, ◌!=◌, if◌then◌else◌, length, take, drop,
}
use test.Memory.{Memory, bytes}
use test.MessageBlock.{MessageBlock, max_data_length, data_length, length_base, copy, reset}
use test.Security.{
  Crypto, DataSecurity, Plain, authentication_flag, encryption_flag, set_security_control,
  set_init_vector, word_bytes, encrypt, decrypt,
}
use test.Meter.{Meter, request_next_client_ic}

-- `DEFAULT_TAG_LEN`, `APDU_MAX_LEN`
abbrev default_tag_len : ℕ
default_tag_len = 12

abbrev apdu_max_len : ℕ
apdu_max_len = 1024

-- `out_Tag` for the tag of the plain message; `none` is the default branch.
unfoldable pub glo_tag : ℕ → Option ℕ
glo_tag tag =
    if tag == 192
    then some 200
    else if tag == 193
    then some 201
    else if tag == 195
    then some 203
    else if tag == 196
    then some 204
    else if tag == 197
    then some 205
    else if tag == 199
    then some 207
    else none

-- The bytes of the length in front of the control byte, for a content of `n` bytes.
unfoldable pub length_bytes : ℕ → List ℕ
length_bytes n =
    if leb (n + 6) 127
    then (n + 5) % 2 ^ 8 ∷ []
    else if leb (n + 6) 255
    then 0x81 ∷ (n + 5) % 2 ^ 8 ∷ []
    else if leb (n + 6) 65535
    then 0x82 ∷ (n + 5) / 2 ^ 8 % 2 ^ 8 ∷ (n + 5) % 2 ^ 8 ∷ []
    else []

-- The array of 1536 bytes is the block's; the caller's copy answers nothing that is looked at.
unfoldable pub put_block : List ℕ → MessageBlock → Option MessageBlock
put_block bs mb = elim (copy bs (length bs) mb) [ none ↦ none | some (_, mb') ↦ some mb' ]

-- The bytes of `buffer`, as many as `pos` counts; `none` where they exceed its 1024.
unfoldable pub protected_frame : Memory → ℕ → ℕ → ℕ → ℕ → List ℕ → Option (List ℕ)
protected_frame base rd out_tag sc ic content =
    let tail = out_tag ∷ (length_bytes (length content) ++ (sc ∷ (word_bytes ic ++ content))) in
    let n = length tail in
    if leb (8 + n) 1024
    then some (bytes base rd 6 ++ (n / 2 ^ 8 % 2 ^ 8 ∷ n % 2 ^ 8 ∷ tail))
    else none

-- The control byte is constant, with both flags, so of the source's cases on it the first is taken.
abbrev pub both_flags : ℕ
both_flags = 0x30

module _ (c : Crypto) where
  open c use {hex_encode, hex_decode}

  -- What follows a successful encryption: `bytes_ciphertext` and `bytes_authen_tag` have 1024 bytes.
  unfoldable pub finish_encrypt :
      MessageBlock
      → ℕ
      → ℕ
      → List ℕ
      → List ℕ
      → Meter
      → MessageBlock
      → Option (Bool × MessageBlock × Meter)
  finish_encrypt orig service_tag ic oct_cipher oct_tag m out = elim (glo_tag service_tag) [
    | none ↦ some (false, out, m)
    | some out_tag ↦
        if leb (length (hex_decode oct_cipher)) 1024 && leb (length (hex_decode oct_tag)) 1024
        then elim (protected_frame orig.base orig.rd_ptr out_tag both_flags ic
            (hex_decode oct_cipher ++ hex_decode oct_tag)) [
              | none ↦ none
              | some frame ↦ elim (put_block frame (reset out)) [
                | none ↦ none
                | some out' ↦ some (true, out', m)
              ]
            ]
        else none
  ]

  unfoldable pub after_encrypt :
      MessageBlock
      → ℕ
      → ℕ
      → Option (Option (List ℕ × List ℕ) × DataSecurity)
      → Meter
      → MessageBlock
      → Option (Bool × MessageBlock × Meter)
  unfolding finish_encrypt
  after_encrypt orig tag ic none m out = none
  after_encrypt orig tag ic (some (none, d)) m out = some (false, out, record m { security = d })
  after_encrypt orig tag ic (some (some (cipher, auth), d)) m out =
      finish_encrypt orig tag ic cipher auth (record m { security = d }) out

  -- `orig` and `out` may be the same block in the source: `orig` is not read after `out` is written.
  unfoldable pub call_encrypt :
      MessageBlock → MessageBlock → Meter → Option (Bool × MessageBlock × Meter)
  unfolding after_encrypt
  call_encrypt orig out m =
      let (ic, m1) = request_next_client_ic m in
      let data_len = data_length orig - 8 in
      let tag = orig.base (orig.rd_ptr + 8) in
      let d = set_init_vector m1.server_systitle ic (set_security_control both_flags m1.security) in
      let iv = m1.server_systitle ++ word_bytes ic in
      let plain = hex_encode (bytes orig.base (orig.rd_ptr + 8) data_len) in
      if leb (data_length orig) 8
      then some (false, out, m)
      else if m.is_cipher
      then if ltb max_data_length (orig.rd_ptr + data_length orig)
        then none
        else after_encrypt orig tag ic (encrypt c plain both_flags iv d) m1 out
      else elim (put_block (bytes orig.base 0 (length_base orig)) out) [
        | none ↦ none
        | some out' ↦ some (true, out', m)
      ]

  -- The offset behind the length, and the length; the form is told by the size of the message.
  unfoldable pub read_length : Memory → ℕ → ℕ → ℕ × ℕ
  read_length base at apdu_len =
      if leb apdu_len 127
      then (2, base (at + 1))
      else if leb apdu_len 255
      then (3, base (at + 2))
      else if leb apdu_len 65535
      then (4, base (at + 2) * 2 ^ 8 + base (at + 3))
      else (1, 0)

  -- Cipher text and tag of a payload in digits, by the flags of the control byte. `none` is the
  -- exception of `substr`.
  unfoldable pub split_payload : ℕ → ℕ → List ℕ → Option (List ℕ × List ℕ)
  split_payload sc n payload =
      let cut = 2 * n - 2 * default_tag_len in
      let two = if ltb n default_tag_len then none else some (take cut payload, drop cut payload) in
      if authentication_flag sc
      then two
      else if encryption_flag sc
      then some (payload, [])
      else some ([], [])

  -- A plain text of more than 1024 bytes is written behind `apdu` before its length is looked at.
  unfoldable pub accept_plain :
      MessageBlock → List ℕ → Meter → MessageBlock → Option (Bool × MessageBlock × Meter)
  accept_plain orig plain m out =
      let n = length plain in
      if ltb apdu_max_len n
      then none
      else elim (put_block
          (bytes orig.base orig.rd_ptr 6 ++ (n / 2 ^ 8 % 2 ^ 8 ∷ n % 2 ^ 8 ∷ plain)) (reset out)) [
            | none ↦ none
            | some out' ↦ some (true, out', m)
          ]

  unfoldable pub after_decrypt :
      MessageBlock
      → Option (Plain × DataSecurity)
      → Meter
      → MessageBlock
      → Option (Bool × MessageBlock × Meter)
  unfolding accept_plain
  after_decrypt orig none m out = none
  after_decrypt orig (some (r, d)) m out =
      let m1 = record m { security = d } in
      if r.ret && r.authen_result
      then accept_plain orig (hex_decode r.plain_text) m1 out
      else some (false, out, m1)

  -- From the control byte on, which stands at `at`.
  unfoldable pub decrypt_from :
      MessageBlock → ℕ → ℕ → Meter → MessageBlock → Option (Bool × MessageBlock × Meter)
  unfolding after_decrypt
  decrypt_from orig at len m out =
      let base = orig.base in
      let sc = base at in
      let ic = bytes base (at + 1) 4 in
      let n = len - 5 in
      let iv = m.client_systitle ++ ic in
      let d = record (set_security_control sc m.security) { init_vector = iv } in
      if ltb len 5
      then none
      else if leb (at + 5 + n) 1536
      then elim (split_payload sc n (hex_encode (bytes base (at + 5) n))) [
        | none ↦ none
        | some (cipher, tag) ↦ after_decrypt orig (decrypt c cipher tag sc iv d) m out
      ]
      else none

  unfoldable pub call_decrypt :
      MessageBlock → MessageBlock → Meter → Option (Bool × MessageBlock × Meter)
  call_decrypt orig out m =
      let at = orig.rd_ptr + 8 in
      let (k, len) = read_length orig.base at (data_length orig - 9) in
      if leb (data_length orig) 15
      then some (false, out, m)
      else if m.is_cipher
      then decrypt_from orig (at + k) len m out
      else elim (put_block (bytes orig.base 0 (length_base orig)) out) [
        | none ↦ none
        | some out' ↦ some (true, out', m)
      ]
