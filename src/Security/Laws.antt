-- ===== src/Security/Laws.antt =====
-- What is sealed is opened again.
use test.Prelude.{
  ℕ, ◌-◌, ◌*◌, ◌≤◌, ◌≡◌, List, [], ◌∷◌, ◌++◌, some, true, arith, length, take, drop, replicate,
  length-append, length-take, length-replicate, take-append, drop-append,
}
use test.Security.{
  Crypto, IsSound, DataSecurity, buffer, split, gcm_aes_encrypt, gcm_aes_decrypt, encrypt, decrypt,
  reset, authentication_flag, encryption_flag, of_decrypted,
}

pub length-buffer : (n : ℕ) (bs : List ℕ) → length (buffer n bs) ≡ n
unfolding buffer
length-buffer n bs =
    let a = length-take n (bs ++ replicate n 0) in
    let b = length-append bs (replicate n 0) in
    let e = length-replicate {A = ℕ} n 0 in omega (arith, a, b, e)

module _ (c : Crypto) (v : IsSound c) where
  open c use {hex_encode, hex_decode}

  -- Texts of digits: cut where the bytes are cut.
  pub take-hex :
      (xs ys : List ℕ)
      → take (length (hex_encode (xs ++ ys)) - 2 * length ys) (hex_encode (xs ++ ys))
        ≡ hex_encode xs
  take-hex xs ys =
      let a = v.hex_append xs ys in
      let l = v.hex_length xs in
      let m = v.hex_length ys in
      let n = length-append (hex_encode xs) (hex_encode ys) in
      let e : length (hex_encode xs ++ hex_encode ys) - 2 * length ys ≡ length (hex_encode xs) =
        omega (arith, l, m, n) in
      rw (a, e) (take-append (hex_encode xs) (hex_encode ys))

  pub drop-hex :
      (xs ys : List ℕ)
      → drop (length (hex_encode (xs ++ ys)) - 2 * length ys) (hex_encode (xs ++ ys))
        ≡ hex_encode ys
  drop-hex xs ys =
      let a = v.hex_append xs ys in
      let l = v.hex_length xs in
      let m = v.hex_length ys in
      let n = length-append (hex_encode xs) (hex_encode ys) in
      let e : length (hex_encode xs ++ hex_encode ys) - 2 * length ys ≡ length (hex_encode xs) =
        omega (arith, l, m, n) in
      rw (a, e) (drop-append (hex_encode xs) (hex_encode ys))

  split-hex :
      (cipher tag : List ℕ)
      → split c (length tag) (some (cipher ++ tag))
        ≡ some (some (hex_encode cipher, hex_encode tag))
  unfolding split
  split-hex cipher tag =
      let l = v.hex_length (cipher ++ tag) in
      let n = length-append cipher tag in
      ground (arith, l, n, take-hex cipher tag, drop-hex cipher tag)

  seal_known :
      (key iv aad plain cipher tag : List ℕ) (n : ℕ)
      → length tag ≡ n
      → length key ≤ 1024
      → length iv ≤ 1024
      → length aad ≤ 1024
      → length plain ≤ 1024
      → c.seal (buffer 16 key) (buffer 12 iv) aad plain n ≡ some (cipher ++ tag)
      → gcm_aes_encrypt c (hex_encode key) (hex_encode iv) (hex_encode plain) (hex_encode aad) n
        ≡ some (some (hex_encode cipher, hex_encode tag))
  unfolding gcm_aes_encrypt
  seal_known key iv aad plain cipher tag n lt hk hi ha hp sealed =
      rw (v.hex_round key, v.hex_round iv, v.hex_round aad, v.hex_round plain, sealed)
        (ground (arith, rw lt at (split-hex cipher tag)))

  unseal_known :
      (key iv aad plain cipher tag : List ℕ) (n : ℕ)
      → length tag ≡ n
      → length key ≤ 1024
      → length iv ≤ 1024
      → length aad ≤ 1024
      → length cipher ≤ 1024
      → length tag ≤ 1024
      → c.unseal (buffer 16 key) (buffer 12 iv) aad tag cipher n ≡ some plain
      → gcm_aes_decrypt c
          (hex_encode key)
          (hex_encode iv)
          (hex_encode (cipher ++ tag))
          (hex_encode aad)
          n
        ≡ some (some (hex_encode plain))
  unfolding gcm_aes_decrypt
  unseal_known key iv aad plain cipher tag n lt hk hi ha hc ht unsealed =
      let l = v.hex_length (cipher ++ tag) in
      let m = length-append cipher tag in
      rw
        (
          rw lt at (take-hex cipher tag),
          rw lt at (drop-hex cipher tag),
          v.hex_round key,
          v.hex_round iv,
          v.hex_round aad,
          v.hex_round cipher,
          v.hex_round tag,
          unsealed,
        )
        (ground (arith, l, m))

  -- With both flags set, in the member as in the argument, `encrypt` gives a cipher text as long as the
  -- plain text, of at most 1024 bytes, and a tag of 12 bytes; `decrypt` under the same keys, control
  -- byte and initial vector gives the plain text back. Both reset the machine.
  pub decrypt-encrypt :
      (plain in_iv : List ℕ) (sc : ℕ) (d e : DataSecurity)
      → length plain ≤ 1024
      → length in_iv ≡ 12
      → length d.e_key ≡ 16
      → length d.a_key ≡ 16
      → authentication_flag sc ≡ true
      → encryption_flag sc ≡ true
      → encryption_flag d.security_control ≡ true
      → e.e_key ≡ d.e_key
      → e.a_key ≡ d.a_key
      → (cipher tag : List ℕ) × (encrypt c (hex_encode plain) sc in_iv d
          ≡ some (some (hex_encode cipher, hex_encode tag), reset d))
        × (length cipher ≡ length plain)
        × (length tag ≡ 12)
        × (decrypt c (hex_encode cipher) (hex_encode tag) sc in_iv e
            ≡ some (
              record { ret = true; authen_result = true; plain_text = hex_encode plain },
              reset e,
            ))
  unfolding encrypt decrypt of_decrypted
  decrypt-encrypt plain in_iv sc d e hp hi hk ha auth enc member ke ka =
      let aad = sc ∷ d.a_key in
      let (cipher, tag, sealed, lc, lt, unsealed) =
        v.seals (buffer 16 d.e_key) (buffer 12 in_iv) aad plain 12 (length-buffer 16 d.e_key)
          (length-buffer 12 in_iv) in
      let a = v.hex_append (sc ∷ []) d.a_key in
      let b = v.hex_append cipher tag in
      let s : gcm_aes_encrypt c (hex_encode d.e_key) (hex_encode in_iv) (hex_encode plain)
            (hex_encode (sc ∷ []) ++ hex_encode d.a_key) 12
          ≡ some (some (hex_encode cipher, hex_encode tag)) =
        rw (← a) (
          seal_known d.e_key in_iv aad plain cipher tag 12 lt (omega arith) (omega arith)
            (omega arith) hp sealed) in
      let u : gcm_aes_decrypt c (hex_encode d.e_key) (hex_encode in_iv)
            (hex_encode cipher ++ hex_encode tag) (hex_encode (sc ∷ []) ++ hex_encode d.a_key) 12
          ≡ some (some (hex_encode plain)) =
        rw (← a, ← b)
          (unseal_known d.e_key in_iv aad plain cipher tag 12 lt (omega arith) (omega arith)
            (omega arith) (omega arith) (omega arith) unsealed) in
      (cipher, tag, ground (arith, s), lc, lt, ground (arith, u))
