-- ===== src/Meter/Protect/Sealed.antt =====
-- What `call_encrypt` hands out.
use test.Prelude.{
  ltb, false, ℕ, ◌+◌, ◌-◌, ◌/◌, ◌%◌, ◌^◌, ◌≤◌, ◌≡◌, List, ◌∷◌, ◌++◌, some, true, arith, length,
  length-append,
}
use test.Memory.{Memory, bytes}
use test.Memory.Block.{length-bytes}
use test.MessageBlock.{MessageBlock, data_length}
use test.Security.{
  Crypto, IsSound, DataSecurity, word_bytes, encrypt, set_security_control, set_init_vector,
}
use test.Meter.{Meter, request_next_client_ic}
use test.Meter.Protect.{
  glo_tag, length_bytes, protected_frame, both_flags, finish_encrypt, after_encrypt, call_encrypt,
}
use test.Meter.Protect.RoundTrip.{loaded, put_block-loaded}

pub next_ic : Meter → ℕ
next_ic s = (s.client_cur_use_ic + 1) % 2 ^ 32

-- The message behind the wrapper's header, and the whole frame.
abbrev pub tail : ℕ → ℕ → List ℕ → List ℕ
tail out_tag ic content =
    out_tag ∷ (length_bytes (length content) ++ (both_flags ∷ (word_bytes ic ++ content)))

abbrev pub frame : Memory → ℕ → ℕ → ℕ → List ℕ → List ℕ
frame base rd out_tag ic content =
    let n = length (tail out_tag ic content) in
    bytes base rd 6 ++ (n / 2 ^ 8 % 2 ^ 8 ∷ n % 2 ^ 8 ∷ tail out_tag ic content)

length-length_bytes : (n : ℕ) → length (length_bytes n) ≤ 3
unfolding length_bytes
length-length_bytes n = ground arith

pub length-tail :
    (out_tag ic : ℕ) (content : List ℕ) → length (tail out_tag ic content) ≤ length content + 9
unfolding word_bytes
length-tail out_tag ic content =
    let a =
      length-append (length_bytes (length content)) (both_flags ∷ (word_bytes ic ++ content)) in
    let b = length-length_bytes (length content) in omega (arith, a, b)

pub length-frame :
    (base : Memory) (rd out_tag ic : ℕ) (content : List ℕ)
    → length (frame base rd out_tag ic content) ≡ 8 + length (tail out_tag ic content)
length-frame base rd out_tag ic content =
    let n = length (tail out_tag ic content) in
    let a =
      length-append (bytes base rd 6) (n / 2 ^ 8 % 2 ^ 8 ∷ n % 2 ^ 8 ∷ tail out_tag ic content) in
    let b = length-bytes 6 base rd in omega (arith, a, b)

module _ (c : Crypto) (v : IsSound c) where
  open c use {hex_encode}

  finish_encrypt-loaded :
      (orig out : MessageBlock) (tag_in ic out_tag : ℕ) (cipher tag : List ℕ) (m : Meter)
      → glo_tag tag_in ≡ some out_tag
      → length cipher ≤ 995
      → length tag ≡ 12
      → finish_encrypt c orig tag_in ic (hex_encode cipher) (hex_encode tag) m out
        ≡ some (true, loaded (frame orig.base orig.rd_ptr out_tag ic (cipher ++ tag)) out, m)
  unfolding finish_encrypt protected_frame
  finish_encrypt-loaded orig out tag_in ic out_tag cipher tag m g hc ht =
      let l = length-append cipher tag in
      let t = length-tail out_tag ic (cipher ++ tag) in
      let f = length-frame orig.base orig.rd_ptr out_tag ic (cipher ++ tag) in
      let p =
        put_block-loaded (frame orig.base orig.rd_ptr out_tag ic (cipher ++ tag)) out
          (omega (arith, l, t, f)) in
      ground (arith, g, v.hex_round cipher, v.hex_round tag, l, t, p)

  -- With protection on, a message of 1 to 995 bytes under one of the six tags is framed: the invocation
  -- counter goes up by one, modulo 2^32, and stands in the frame.
  pub call_encrypt-sealed :
      (orig out : MessageBlock) (n out_tag : ℕ) (s : Meter) (cipher tag : List ℕ) (d : DataSecurity)
      → s.is_cipher ≡ true
      → data_length orig ≡ n + 8
      → orig.rd_ptr + (n + 8) ≤ 1536
      → 1 ≤ n
      → n ≤ 995
      → glo_tag (orig.base (orig.rd_ptr + 8)) ≡ some out_tag
      → length cipher ≡ n
      → length tag ≡ 12
      → encrypt c
          (hex_encode (bytes orig.base (orig.rd_ptr + 8) n))
          both_flags
          (s.server_systitle ++ word_bytes (next_ic s))
          (set_init_vector s.server_systitle
            (next_ic s)
            (set_security_control both_flags s.security))
        ≡ some (some (hex_encode cipher, hex_encode tag), d)
      → call_encrypt c orig out s
        ≡ some (
          true,
          loaded (frame orig.base orig.rd_ptr out_tag (next_ic s) (cipher ++ tag)) out,
          record s { client_cur_use_ic = next_ic s; security = d },
        )
  unfolding call_encrypt after_encrypt request_next_client_ic next_ic
  call_encrypt-sealed orig out n out_tag s cipher tag d on size inside lo hi g lc lt sealed =
      let m = record s { client_cur_use_ic = (s.client_cur_use_ic + 1) % 2 ^ 32; security = d } in
      let f =
        finish_encrypt-loaded orig out (orig.base (orig.rd_ptr + 8)) (next_ic s) out_tag cipher tag
          m g (omega arith) lt in
      let e : n + 8 - 8 ≡ n = omega arith in
      let all_read : ltb 1536 (orig.rd_ptr + (n + 8)) ≡ false = ground arith in
      rw (size, e, on, all_read, sealed) (ground (arith, f))
