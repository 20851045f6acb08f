-- ===== src/Meter/Protect/Messages.antt =====
-- Whole messages: protected by one meter, opened by a peer.
use test.Prelude.{
  ℕ, ◌+◌, ◌/◌, ◌%◌, ◌^◌, ◌≤◌, ◌≡◌, ◌≢◌, refl, ap, ◌∙◌, List, [], ◌∷◌, ◌++◌, none, some, true, arith,
  length, take, length-append,
}
use test.Memory.{Memory, bytes, copy_to}
use test.Memory.Block.{length-bytes, bytes-copy_to}
use test.MessageBlock.{MessageBlock, data_length, contents}
use test.Security.{
  Crypto, IsSound, DataSecurity, word_bytes, set_security_control, set_init_vector, reset,
}
use test.Security.Laws.{decrypt-encrypt}
use test.Meter.{Meter}
use test.Meter.Protect.{
  glo_tag, length_bytes, both_flags, read_length, decrypt_from, call_encrypt, call_decrypt,
}
use test.Meter.Protect.RoundTrip.{loaded, plain_frame, contents-loaded}
use test.Meter.Protect.Sealed.{next_ic, frame, call_encrypt-sealed}
use test.Meter.Protect.Opened.{framed, two_bytes}
use test.Meter.Protect.Agreement.{ArePeers, open_any}

front :
    (base k : Memory) (rd out_tag ic : ℕ) (content : List ℕ)
    → bytes (copy_to k 0 (frame base rd out_tag ic content)) 0 6 ≡ bytes base rd 6
unfolding bytes
front base k rd out_tag ic content =
    ap (take 6) (bytes-copy_to (frame base rd out_tag ic content) k 0)

module _ (c : Crypto) (v : IsSound c) where
  open c use {hex_encode}

  -- A wrapper frame inside its block, with a message of 1 to 995 bytes, but not of 237, under one of the six tags, that
  -- one meter protects, is opened by a peer, and gives the same message with its length in the header.
  pub call_decrypt-call_encrypt :
      (orig out out' : MessageBlock) (n out_tag : ℕ) (s r : Meter)
      → ArePeers s r
      → data_length orig ≡ n + 8
      → orig.rd_ptr + (n + 8) ≤ 1536
      → 1 ≤ n
      → n ≤ 995
      → n ≢ 237
      → glo_tag (orig.base (orig.rd_ptr + 8)) ≡ some out_tag
      → (sealed : MessageBlock) × (fin : MessageBlock) × (s' : Meter) × (r' : Meter) × (call_encrypt
            c orig out s
          ≡ some (true, sealed, s'))
        × (call_decrypt c sealed out' r ≡ some (true, fin, r'))
        × (contents fin
            ≡ bytes orig.base orig.rd_ptr 6
              ++ (n / 2 ^ 8 % 2 ^ 8 ∷ n % 2 ^ 8 ∷ bytes orig.base (orig.rd_ptr + 8) n))
  unfolding set_init_vector word_bytes
  call_decrypt-call_encrypt orig out out' n out_tag s r p size inside lo hi other g =
      let ic = next_ic s in
      let iv = s.server_systitle ++ word_bytes ic in
      let plain = bytes orig.base (orig.rd_ptr + 8) n in
      let lp = length-bytes n orig.base (orig.rd_ptr + 8) in
      let d = set_init_vector s.server_systitle ic (set_security_control both_flags s.security) in
      let e : DataSecurity = record (set_security_control both_flags r.security) {
        init_vector = iv;
      } in
      let li : length iv ≡ 12 =
        omega (arith, length-append s.server_systitle (word_bytes ic), p.title) in
      let (cipher, tag, sealed, lc, lt, opened) =
        decrypt-encrypt c v plain iv both_flags d e (omega (arith, lp)) li p.e_key_size p.a_key_size
          refl refl refl p.same_e_key p.same_a_key in
      let lc' : length cipher ≡ n = omega (arith, lc, lp) in
      let sent =
        call_encrypt-sealed c v orig out n out_tag s cipher tag (reset d) p.sender_on size inside lo
          hi g lc' lt sealed in
      let got =
        open_any c v out.base orig.base orig.rd_ptr out_tag ic n cipher tag plain out' r (reset e)
          p.receiver_on lc' lt lp (rw p.known opened) lo hi other in
      let f = front orig.base out.base orig.rd_ptr out_tag ic (cipher ++ tag) in
      let sealed_frame = frame orig.base orig.rd_ptr out_tag ic (cipher ++ tag) in
      let built = plain_frame (loaded sealed_frame out) plain in
      let lb =
        length-append (bytes (loaded sealed_frame out).base 0 6)
          (length plain / 2 ^ 8 % 2 ^ 8 ∷ length plain % 2 ^ 8 ∷ plain) in
      let la = length-bytes 6 (loaded sealed_frame out).base 0 in
      (
        loaded sealed_frame out,
        loaded (plain_frame (loaded sealed_frame out) plain) out',
        record s { client_cur_use_ic = ic; security = reset d },
        record r { security = reset e },
        sent,
        got,
        contents-loaded built out' (omega (arith, lb, la, lp))
            ∙ ap (λ h. h ++ (length plain / 2 ^ 8 % 2 ^ 8 ∷ length plain % 2 ^ 8 ∷ plain)) f
            ∙ ap (λ k. bytes orig.base orig.rd_ptr 6 ++ (k / 2 ^ 8 % 2 ^ 8 ∷ k % 2 ^ 8 ∷ plain)) lp,
      )

  -- The two-byte form of 254, which the receiver takes for the three-byte form.
  mistaken :
      (k base : Memory) (rd out_tag ic : ℕ) (content : List ℕ) (out : MessageBlock) (m : Meter)
      → length content ≡ 249
      → m.is_cipher ≡ true
      → let f = framed base rd out_tag ic content (0x81 ∷ 254 ∷ []) in
        call_decrypt c (record { base = copy_to k 0 f; rd_ptr = 0; wr_ptr = length f }) out m ≡ none
  unfolding call_decrypt read_length decrypt_from bytes word_bytes
  mistaken k base rd out_tag ic content out m size on =
      let (x0, x1, b0, b1, b5) = two_bytes k base rd out_tag ic content 0x81 254 in
      ground (arith, size, on, x1, b0)

  -- A message of 237 bytes, in a wrapper frame inside its block, that one meter protects makes a peer read outside its block: the receiver
  -- tells the form of the length by the size of the frame, not by its first byte, and takes the form of
  -- two bytes for that of three.
  pub length_form_mistaken :
      (orig out out' : MessageBlock) (out_tag : ℕ) (s r : Meter)
      → ArePeers s r
      → data_length orig ≡ 245
      → orig.rd_ptr + 245 ≤ 1536
      → glo_tag (orig.base (orig.rd_ptr + 8)) ≡ some out_tag
      → (sealed : MessageBlock) × (s' : Meter) × (call_encrypt c orig out s
          ≡ some (true, sealed, s'))
        × (call_decrypt c sealed out' r ≡ none)
  unfolding set_init_vector word_bytes length_bytes
  length_form_mistaken orig out out' out_tag s r p size inside g =
      let ic = next_ic s in
      let iv = s.server_systitle ++ word_bytes ic in
      let plain = bytes orig.base (orig.rd_ptr + 8) 237 in
      let lp = length-bytes 237 orig.base (orig.rd_ptr + 8) in
      let d = set_init_vector s.server_systitle ic (set_security_control both_flags s.security) in
      let li : length iv ≡ 12 =
        omega (arith, length-append s.server_systitle (word_bytes ic), p.title) in
      let (cipher, tag, sealed, lc, lt, opened) =
        decrypt-encrypt c v plain iv both_flags d d (omega (arith, lp)) li p.e_key_size p.a_key_size
          refl refl refl refl refl in
      let lc' : length cipher ≡ 237 = omega (arith, lc, lp) in
      let content : length (cipher ++ tag) ≡ 249 = omega (arith, length-append cipher tag) in
      let form : length_bytes (length (cipher ++ tag)) ≡ 0x81 ∷ 254 ∷ [] =
        ground (arith, content) in
      let sent =
        call_encrypt-sealed c v orig out 237 out_tag s cipher tag (reset d) p.sender_on size inside
          (omega arith) (omega arith) g lc' lt sealed in
      let fail =
        mistaken out.base orig.base orig.rd_ptr out_tag ic (cipher ++ tag) out' r content
          p.receiver_on in
      (
        loaded (frame orig.base orig.rd_ptr out_tag ic (cipher ++ tag)) out,
        record s { client_cur_use_ic = ic; security = reset d },
        sent,
        rw form fail,
      )
