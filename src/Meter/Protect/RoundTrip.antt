-- ===== src/Meter/Protect/RoundTrip.antt =====
-- A protected message, from the meter that builds it to a peer that holds the same keys.
use test.Prelude.{
  ℕ, ◌+◌, ◌-◌, ◌*◌, ◌/◌, ◌%◌, ◌^◌, ◌≤◌, ◌≡◌, List, ◌∷◌, ◌++◌, some, true, arith, length,
  length-append, take-all,
}
use test.Memory.{bytes, copy_to}
use test.Memory.Block.{bytes-copy_to, length-bytes}
use test.MessageBlock.{MessageBlock, copy, reset, contents, data_length}
use test.Security.{Crypto, IsSound, DataSecurity, word_bytes, decrypt, set_security_control}
use test.Security.Laws.{take-hex, drop-hex}
use test.Meter.{Meter}
use test.Meter.Protect.{
  put_block, both_flags, split_payload, accept_plain, after_decrypt, decrypt_from,
}

-- A block that was reset and then filled.
abbrev pub loaded : List ℕ → MessageBlock → MessageBlock
loaded bs mb = record mb { base = copy_to mb.base 0 bs; rd_ptr = 0; wr_ptr = length bs }

pub put_block-loaded :
    (bs : List ℕ) (mb : MessageBlock)
    → length bs ≤ 1536
    → put_block bs (reset mb) ≡ some (loaded bs mb)
unfolding put_block copy reset
put_block-loaded bs mb h = ground (arith, take-all (length bs) bs (omega arith))

pub contents-loaded :
    (bs : List ℕ) (mb : MessageBlock) → length bs ≤ 1536 → contents (loaded bs mb) ≡ bs
contents-loaded bs mb h =
    let e : data_length (loaded bs mb) ≡ length bs = omega arith in
    rw e (bytes-copy_to bs mb.base 0)

-- The frame that the receiver puts together.
abbrev pub plain_frame : MessageBlock → List ℕ → List ℕ
plain_frame orig plain =
    let n = length plain in bytes orig.base orig.rd_ptr 6 ++ (n / 2 ^ 8 % 2 ^ 8 ∷ n % 2 ^ 8 ∷ plain)

module _ (c : Crypto) (v : IsSound c) where
  open c use {hex_encode, hex_decode}

  split_payload-hex :
      (cipher tag : List ℕ) (n : ℕ)
      → length cipher ≡ n
      → length tag ≡ 12
      → split_payload c both_flags (n + 12) (hex_encode (cipher ++ tag))
        ≡ some (hex_encode cipher, hex_encode tag)
  unfolding split_payload
  split_payload-hex cipher tag n hc ht =
      let l = v.hex_length (cipher ++ tag) in
      let a = length-append cipher tag in
      let e : length (hex_encode (cipher ++ tag)) - 2 * length tag ≡ 2 * (n + 12) - 24 =
        omega (arith, l, a) in
      let t = rw e at (take-hex c v cipher tag) in
      let d = rw e at (drop-hex c v cipher tag) in ground (arith, t, d)

  accept_plain-loaded :
      (orig : MessageBlock) (plain : List ℕ) (m : Meter) (out : MessageBlock)
      → length plain ≤ 1024
      → accept_plain c orig plain m out ≡ some (true, loaded (plain_frame orig plain) out, m)
  unfolding accept_plain
  accept_plain-loaded orig plain m out h =
      let n = length plain in
      let a =
        length-append (bytes orig.base orig.rd_ptr 6) (n / 2 ^ 8 % 2 ^ 8 ∷ n % 2 ^ 8 ∷ plain) in
      let b = length-bytes 6 orig.base orig.rd_ptr in
      let p = put_block-loaded (plain_frame orig plain) out (omega (arith, a, b)) in
      ground (arith, p)

  -- From the control byte on, where everything stands in its place.
  pub decrypt_from-sealed :
      (orig out : MessageBlock) (at n ic : ℕ) (cipher tag plain : List ℕ) (m : Meter)
      (d : DataSecurity)
      → orig.base at ≡ both_flags
      → bytes orig.base (at + 1) 4 ≡ word_bytes ic
      → bytes orig.base (at + 5) (n + 12) ≡ cipher ++ tag
      → length cipher ≡ n
      → length tag ≡ 12
      → length plain ≡ n
      → at + 17 + n ≤ 1536
      → n ≤ 1024
      → decrypt c
          (hex_encode cipher)
          (hex_encode tag)
          both_flags
          (m.client_systitle ++ word_bytes ic)
          (record (set_security_control both_flags m.security) {
            init_vector = m.client_systitle ++ word_bytes ic;
          })
        ≡ some (record { ret = true; authen_result = true; plain_text = hex_encode plain }, d)
      → decrypt_from c orig at (n + 17) m out
        ≡ some (true, loaded (plain_frame orig plain) out, record m { security = d })
  unfolding decrypt_from after_decrypt
  decrypt_from-sealed orig out at n ic cipher tag plain m d b0 b1 b5 lc lt lp fits small opened =
      let s = split_payload-hex cipher tag n lc lt in
      let e : n + 17 - 5 ≡ n + 12 = omega arith in
      let a = accept_plain-loaded orig plain (record m { security = d }) out (omega arith) in
      let h = v.hex_round plain in rw (e, b5, b0, s, b1, b0, opened, h) (ground (arith, a))
