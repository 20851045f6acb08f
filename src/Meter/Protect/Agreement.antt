-- ===== src/Meter/Protect/Agreement.antt =====
-- A message protected by one meter and opened by a peer.
use test.Prelude.{
  ℕ, ◌+◌, ◌-◌, ◌/◌, ◌%◌, ◌^◌, ◌≤◌, ◌<◌, ◌≡◌, ◌≢◌, ap, sym, ◌∙◌, List, [], ◌∷◌, ◌++◌, some, true,
  arith, length, length-append,
}
use native.Mathlib.Decide.{dec_le}
use test.Memory.{Memory, bytes, copy_to}
use test.MessageBlock.{MessageBlock, data_length}
use test.Security.{Crypto, IsSound, DataSecurity, word_bytes, decrypt, set_security_control}
use test.Meter.{Meter}
use test.Meter.Protect.{length_bytes, both_flags, read_length, call_decrypt}
use test.Meter.Protect.RoundTrip.{loaded, plain_frame, decrypt_from-sealed}
use test.Meter.Protect.Opened.{framed, one_byte, two_bytes, three_bytes}

-- Two ends of one session: the receiver knows the sender's title, and they hold the same keys.
pub record ArePeers (s r : Meter) : Type 0 where
  pub sender_on : s.is_cipher ≡ true
  pub receiver_on : r.is_cipher ≡ true
  pub title : length s.server_systitle ≡ 8
  pub known : r.client_systitle ≡ s.server_systitle
  pub e_key_size : length s.security.e_key ≡ 16
  pub a_key_size : length s.security.a_key ≡ 16
  pub same_e_key : r.security.e_key ≡ s.security.e_key
  pub same_a_key : r.security.a_key ≡ s.security.a_key

module _ (c : Crypto) (v : IsSound c) where
  open c use {hex_encode}

  -- The receiver's side, where the length is read as `n + 17`, in `j - 1` bytes.
  call_decrypt-sealed :
      (b : Memory) (w : ℕ) (out : MessageBlock) (j n ic : ℕ) (cipher tag plain : List ℕ) (m : Meter)
      (d : DataSecurity)
      → m.is_cipher ≡ true
      → 16 ≤ w
      → w ≤ 1536
      → read_length c b 8 (w - 9) ≡ (j, n + 17)
      → b (8 + j) ≡ both_flags
      → bytes b (8 + j + 1) 4 ≡ word_bytes ic
      → bytes b (8 + j + 5) (n + 12) ≡ cipher ++ tag
      → length cipher ≡ n
      → length tag ≡ 12
      → length plain ≡ n
      → j ≤ 4
      → n ≤ 995
      → decrypt c
          (hex_encode cipher)
          (hex_encode tag)
          both_flags
          (m.client_systitle ++ word_bytes ic)
          (record (set_security_control both_flags m.security) {
            init_vector = m.client_systitle ++ word_bytes ic;
          })
        ≡ some (record { ret = true; authen_result = true; plain_text = hex_encode plain }, d)
      → call_decrypt c (record { base = b; rd_ptr = 0; wr_ptr = w }) out m
        ≡ some (
          true,
          loaded (plain_frame (record { base = b; rd_ptr = 0; wr_ptr = w }) plain) out,
          record m { security = d },
        )
  unfolding call_decrypt
  call_decrypt-sealed b w out j n ic cipher tag plain m d on long short read b0 b1 b5 lc lt lp hj hn
        opened =
      let mid : MessageBlock = record { base = b; rd_ptr = 0; wr_ptr = w } in
      let size : data_length mid ≡ w = omega arith in
      let f =
        decrypt_from-sealed c v mid out (8 + j) n ic cipher tag plain m d b0 b1 b5 lc lt lp
          (omega arith) (omega arith) opened in
      rw (size, read, on) (ground (arith, f))

  -- The protected frame of `n` bytes, opened, for each form of the length that fits.
  module _ (k base : Memory) (rd out_tag ic n : ℕ) (cipher tag plain : List ℕ) (out : MessageBlock)
      (m : Meter) (d : DataSecurity) (on : m.is_cipher ≡ true) (lc : length cipher ≡ n)
      (lt : length tag ≡ 12) (lp : length plain ≡ n)
      (opened : decrypt c
          (hex_encode cipher)
          (hex_encode tag)
          both_flags
          (m.client_systitle ++ word_bytes ic)
          (record (set_security_control both_flags m.security) {
            init_vector = m.client_systitle ++ word_bytes ic;
          })
        ≡ some
            (record { ret = true; authen_result = true; plain_text = hex_encode plain }, d)) where
    abbrev pub mid : List ℕ → MessageBlock
    mid form = record {
      base = copy_to k 0 (framed base rd out_tag ic (cipher ++ tag) form);
      rd_ptr = 0;
      wr_ptr = length (framed base rd out_tag ic (cipher ++ tag) form);
    }

    content_size : length (cipher ++ tag) ≡ n + 12
    content_size = omega (arith, length-append cipher tag)

    open_one :
        n + 18 ≤ 127
        → 1 ≤ n
        → n ≤ 995
        → call_decrypt c (mid ((n + 17) ∷ [])) out m
          ≡ some (
            true,
            loaded (plain_frame (mid ((n + 17) ∷ [])) plain) out,
            record m { security = d },
          )
    unfolding bytes word_bytes read_length
    open_one h h2 hn =
        let (x0, b0, b1, b5) = one_byte k base rd out_tag ic (cipher ++ tag) (n + 17) in
        let size : length (framed base rd out_tag ic (cipher ++ tag) ((n + 17) ∷ [])) ≡ n + 27 =
          omega (arith, content_size) in
        call_decrypt-sealed (mid ((n + 17) ∷ [])).base
          (length (framed base rd out_tag ic (cipher ++ tag) ((n + 17) ∷ []))) out 2 n ic cipher tag
          plain m d on (omega (arith, size)) (omega (arith, size)) (ground (arith, size, x0)) b0 b1
          (ap (bytes (mid ((n + 17) ∷ [])).base 15) (sym content_size) ∙ b5) lc lt lp (omega arith)
          hn opened

    open_two :
        127 < n + 18
        → n + 19 ≤ 255
        → n ≤ 995
        → call_decrypt c (mid (0x81 ∷ (n + 17) ∷ [])) out m
          ≡ some (
            true,
            loaded (plain_frame (mid (0x81 ∷ (n + 17) ∷ [])) plain) out,
            record m { security = d },
          )
    unfolding bytes word_bytes read_length
    open_two h h2 hn =
        let (x0, x1, b0, b1, b5) = two_bytes k base rd out_tag ic (cipher ++ tag) (0x81) (n + 17) in
        let size : length (framed base rd out_tag ic (cipher ++ tag) (0x81 ∷ (n + 17) ∷ []))
            ≡ n + 28 =
          omega (arith, content_size) in
        call_decrypt-sealed
          (copy_to k 0 (framed base rd out_tag ic (cipher ++ tag) (0x81 ∷ (n + 17) ∷ [])))
          (length (framed base rd out_tag ic (cipher ++ tag) (0x81 ∷ (n + 17) ∷ []))) out 3 n ic
          cipher tag plain m d on (omega (arith, size)) (omega (arith, size))
          (ground (arith, size, x0, x1)) b0 b1
          (ap (bytes (mid (0x81 ∷ (n + 17) ∷ [])).base 16) (sym content_size) ∙ b5) lc lt lp
          (omega arith) hn opened

    open_three :
        255 < n + 18
        → 1 ≤ n
        → n ≤ 995
        → call_decrypt c (mid (0x82 ∷ (n + 17) / 2 ^ 8 % 2 ^ 8 ∷ (n + 17) % 2 ^ 8 ∷ [])) out m
          ≡ some (
            true,
            loaded
                (plain_frame (mid (0x82 ∷ (n + 17) / 2 ^ 8 % 2 ^ 8 ∷ (n + 17) % 2 ^ 8 ∷ [])) plain)
                out,
            record m { security = d },
          )
    unfolding bytes word_bytes read_length
    open_three h h2 hn =
        let (x0, x1, x2, b0, b1, b5) =
          three_bytes k base rd out_tag ic (cipher ++ tag) (0x82) ((n + 17) / 2 ^ 8 % 2 ^ 8)
            ((n + 17) % 2 ^ 8) in
        let size : length (
              framed base rd out_tag ic (cipher ++ tag)
                (0x82 ∷ (n + 17) / 2 ^ 8 % 2 ^ 8 ∷ (n + 17) % 2 ^ 8 ∷ []))
            ≡ n + 29 =
          omega (arith, content_size) in
        call_decrypt-sealed
          (copy_to k 0 (
            framed base rd out_tag ic (cipher ++ tag)
              (0x82 ∷ (n + 17) / 2 ^ 8 % 2 ^ 8 ∷ (n + 17) % 2 ^ 8 ∷ [])))
          (length (
            framed base rd out_tag ic (cipher ++ tag)
              (0x82 ∷ (n + 17) / 2 ^ 8 % 2 ^ 8 ∷ (n + 17) % 2 ^ 8 ∷ [])))
          out 4 n ic cipher tag plain m d on (omega (arith, size)) (omega (arith, size))
          (ground (arith, size, x0, x1, x2)) b0 b1
          (ap (bytes (mid (0x82 ∷ (n + 17) / 2 ^ 8 % 2 ^ 8 ∷ (n + 17) % 2 ^ 8 ∷ [])).base 17)
              (sym content_size)
            ∙ b5)
          lc lt lp (omega arith) hn opened

    -- Every length but the one for which the receiver mistakes the form.
    pub open_any :
        1 ≤ n
        → n ≤ 995
        → n ≢ 237
        → let form = length_bytes (length (cipher ++ tag)) in
          call_decrypt c (mid form) out m
          ≡ some (true, loaded (plain_frame (mid form) plain) out, record m { security = d })
    unfolding length_bytes
    open_any lo hi other = elim (dec_le (n + 18) 127) [
      | yes short ↦
          let e : length_bytes (length (cipher ++ tag)) ≡ (n + 17) ∷ [] =
            ground (arith, content_size) in
          rw e (open_one short lo hi)
      | no long ↦ elim (dec_le (n + 18) 255) [
        | yes middle ↦
            let e : length_bytes (length (cipher ++ tag)) ≡ 0x81 ∷ (n + 17) ∷ [] =
              ground (arith, content_size) in
            rw e (open_two (omega arith) (omega arith) hi)
        | no large ↦
            let e : length_bytes (length (cipher ++ tag))
                ≡ 0x82 ∷ (n + 17) / 2 ^ 8 % 2 ^ 8 ∷ (n + 17) % 2 ^ 8 ∷ [] =
              ground (arith, content_size) in
            rw e (open_three (omega arith) lo hi)
      ]
    ]
