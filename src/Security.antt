-- ===== src/Security.antt =====
-- The protection of messages: the Crypto++ wrappers of simulator_meter/fee/meter_simulator/common.cpp
-- and the class of data_security.cpp beside it. Crypto++ is the parameter `Crypto`; its documented
-- behaviour, as far as the program relies on it, is `IsSound`.
-- An "octet string" of the source is text in hexadecimal digits.
-- A result `none` is a write behind an array, or an exception of the standard library, which nothing
-- catches. An exception of Crypto++ is caught, and becomes the result false.
pub mod Laws
pub mod Toy
use test.Prelude.{
  ℕ, zero, suc, ◌+◌, ◌-◌, ◌*◌, ◌/◌, ◌%◌, ◌^◌, ◌≡◌, List, [], ◌∷◌, ◌++◌, Option, none, some, Bool,
  true, false, ◌&&◌, ◌||◌, leb, ltb, ◌==◌, ◌!=◌, if◌then◌else◌, length, take, drop, replicate,
}

-- `hex_encode`, `hex_decode`: HexEncoder and HexDecoder. `seal`: key, initial vector, associated data,
-- plain text and size of the tag give cipher text and tag in one (AuthenticatedEncryptionFilter on
-- GCM<AES>); `unseal`: key, initial vector, associated data, tag, cipher text and size of the tag.
-- `none` is an exception of the library, or a failed verification.
pub record Crypto : Type 0 where
  pub hex_encode : List ℕ → List ℕ
  pub hex_decode : List ℕ → List ℕ
  pub seal : List ℕ → List ℕ → List ℕ → List ℕ → ℕ → Option (List ℕ)
  pub unseal : List ℕ → List ℕ → List ℕ → List ℕ → List ℕ → ℕ → Option (List ℕ)

pub record IsSound (c : Crypto) : Type 0 where
  pub hex_round : (bs : List ℕ) → c.hex_decode (c.hex_encode bs) ≡ bs
  pub hex_append : (xs ys : List ℕ) → c.hex_encode (xs ++ ys) ≡ c.hex_encode xs ++ c.hex_encode ys
  pub hex_length : (bs : List ℕ) → length (c.hex_encode bs) ≡ 2 * length bs
  -- With a key of 16 bytes and an initial vector of 12 it gives the cipher text, which is as long as
  -- the plain text, and then the tag.
  pub seals :
      (key iv aad plain : List ℕ) (n : ℕ)
      → length key ≡ 16
      → length iv ≡ 12
      → (cipher tag : List ℕ) × (c.seal key iv aad plain n ≡ some (cipher ++ tag))
        × (length cipher ≡ length plain)
        × (length tag ≡ n)
        × (c.unseal key iv aad tag cipher n ≡ some plain)

-- The flags of a security control byte.
abbrev pub authentication_flag : ℕ → Bool
authentication_flag sc = sc / 16 % 2 == 1

abbrev pub encryption_flag : ℕ → Bool
encryption_flag sc = sc / 32 % 2 == 1

abbrev pub systitle_len : ℕ
systitle_len = 8

-- The first `n` bytes of an array that was zero and holds the bytes.
unfoldable pub buffer : ℕ → List ℕ → List ℕ
buffer n bs = take n (bs ++ replicate n 0)

pub record DataSecurity : Type 0 where
  pub security_control : ℕ
  pub init_vector : List ℕ
  pub security_suite_id : ℕ
  pub e_key : List ℕ
  pub a_key : List ℕ

abbrev pub set_security_control : ℕ → DataSecurity → DataSecurity
set_security_control sc d = record d { security_control = sc }

abbrev pub set_security_suite : ℕ → DataSecurity → DataSecurity
set_security_suite id d = record d { security_suite_id = id }

-- The four bytes of a word, highest first: the bytes of `reverse_value(ic)` in memory.
unfoldable pub word_bytes : ℕ → List ℕ
word_bytes ic = ic / 2 ^ 24 % 2 ^ 8 ∷ ic / 2 ^ 16 % 2 ^ 8 ∷ ic / 2 ^ 8 % 2 ^ 8 ∷ ic % 2 ^ 8 ∷ []

unfoldable pub set_init_vector : List ℕ → ℕ → DataSecurity → DataSecurity
set_init_vector systitle ic d = record d { init_vector = systitle ++ word_bytes ic }

unfoldable pub reset : DataSecurity → DataSecurity
reset d = record d { init_vector = replicate 12 0; security_control = 0 }

-- `==` on texts.
unfoldable pub same_text : List ℕ → List ℕ → Bool
same_text [] [] = true
same_text [] (y ∷ ys) = false
same_text (x ∷ xs) [] = false
same_text (x ∷ xs) (y ∷ ys) = let rest = same_text xs ys in if x == y then rest else false

-- What `decrypt` returns and assigns.
pub record Plain : Type 0 where
  pub ret : Bool
  pub authen_result : Bool
  pub plain_text : List ℕ

-- With decryption: `authen_result` is set before the outcome is known.
of_decrypted : Option (List ℕ) → Plain
of_decrypted none = record { ret = false; authen_result = true; plain_text = [] }
of_decrypted (some p) = record { ret = true; authen_result = true; plain_text = p }

-- With authentication alone: the tag is computed again and compared.
of_compared : List ℕ → List ℕ → Option (List ℕ × List ℕ) → Plain
of_compared cipher tag none =
    let same = same_text [] tag in
    record { ret = false; authen_result = same; plain_text = if same then cipher else [] }
of_compared cipher tag (some (_, expected)) =
    let same = same_text expected tag in
    record { ret = true; authen_result = same; plain_text = if same then cipher else [] }

module _ (c : Crypto) where
  open c use {hex_encode, hex_decode, seal, unseal}

  -- The constructor; `ek` and `ak` are the texts of the configuration, decoded into arrays of 32 bytes.
  unfoldable pub new : List ℕ → List ℕ → Option DataSecurity
  unfolding buffer
  new ek ak =
      if leb (length (hex_decode ak)) 32 && leb (length (hex_decode ek)) 32
      then some (record {
        security_control = 0;
        init_vector = replicate 12 0;
        security_suite_id = 0;
        e_key = buffer 16 (hex_decode ek);
        a_key = buffer 16 (hex_decode ak);
      })
      else none

  -- `hex_to_bytes` into an array of 1024 bytes.
  abbrev fits : List ℕ → Bool
  fits text = leb (length (hex_decode text)) 1024

  -- Cipher text and tag of what the filter gave.
  unfoldable pub split : ℕ → Option (List ℕ) → Option (Option (List ℕ × List ℕ))
  split tag_size none = some none
  split tag_size (some all) =
      let text = hex_encode all in
      if ltb (length text) (2 * tag_size)
      then none
      else some
          (some (take (length text - 2 * tag_size) text, drop (length text - 2 * tag_size) text))

  unfoldable pub gcm_aes_encrypt :
      List ℕ → List ℕ → List ℕ → List ℕ → ℕ → Option (Option (List ℕ × List ℕ))
  gcm_aes_encrypt key iv plain aad tag_size =
      if fits key && (fits iv && (fits aad && fits plain))
      then split tag_size (
          seal (buffer 16 (hex_decode key)) (buffer 12 (hex_decode iv)) (hex_decode aad)
            (hex_decode plain) tag_size)
      else none

  opened : Option (List ℕ) → Option (List ℕ)
  opened none = none
  opened (some plain) = some (hex_encode plain)

  -- The decrypted text in digits.
  unfoldable pub gcm_aes_decrypt : List ℕ → List ℕ → List ℕ → List ℕ → ℕ → Option (Option (List ℕ))
  unfolding opened
  gcm_aes_decrypt key iv cipher aad tag_size =
      let n = length cipher - 2 * tag_size in
      if ltb (length cipher) (2 * tag_size)
      then none
      else if fits key && (fits iv && (fits (drop n cipher) && (fits (take n cipher) && fits aad)))
      then some (
          opened (
            unseal (buffer 16 (hex_decode key)) (buffer 12 (hex_decode iv)) (hex_decode aad)
              (hex_decode (drop n cipher)) (hex_decode (take n cipher)) tag_size))
      else none

  -- The result is false where `some none` stands. The first test reads the flag of the member
  -- `security_control_`, the others those of the argument `sc`. `in_iv` has 12 bytes.
  unfoldable pub encrypt :
      List ℕ → ℕ → List ℕ → DataSecurity → Option (Option (List ℕ × List ℕ) × DataSecurity)
  unfolding reset
  encrypt plain sc in_iv d =
      let ek = hex_encode d.e_key in
      let iv = hex_encode in_iv in
      let aad = hex_encode (sc ∷ []) ++ hex_encode d.a_key in
      let both = gcm_aes_encrypt ek iv plain aad 12 in
      let only_tag = gcm_aes_encrypt ek iv [] (aad ++ plain) 12 in
      let only_cipher = gcm_aes_encrypt ek iv plain [] 12 in
      let result =
        if authentication_flag sc && encryption_flag d.security_control
        then both
        else if authentication_flag sc
        then only_tag
        else if encryption_flag sc
        then only_cipher
        else some none in
      elim result [ none ↦ none | some r ↦ some (r, reset d) ]

  -- Only the tag is handed out.
  unfoldable pub hls5authen :
      List ℕ → ℕ → List ℕ → DataSecurity → Option (Option (List ℕ × List ℕ) × DataSecurity)
  unfolding reset
  hls5authen plain sc in_iv d =
      let aad = hex_encode (sc ∷ []) ++ (hex_encode d.a_key ++ plain) in
      elim (gcm_aes_encrypt (hex_encode d.e_key) (hex_encode in_iv) [] aad 12) [
        | none ↦ none
        | some r ↦ some (r, reset d)
      ]

  unfoldable pub decrypt :
      List ℕ → List ℕ → ℕ → List ℕ → DataSecurity → Option (Plain × DataSecurity)
  unfolding reset of_decrypted of_compared
  decrypt cipher tag sc in_iv d =
      let ek = hex_encode d.e_key in
      let iv = hex_encode in_iv in
      let aad = hex_encode (sc ∷ []) ++ hex_encode d.a_key in
      if authentication_flag sc && encryption_flag sc
      then elim (gcm_aes_decrypt ek iv (cipher ++ tag) aad 12) [
        | none ↦ none
        | some r ↦ some (of_decrypted r, reset d)
      ]
      else if authentication_flag sc
      then elim (gcm_aes_encrypt ek iv [] (aad ++ cipher) 12) [
        | none ↦ none
        | some r ↦ some (of_compared cipher tag r, reset d)
      ]
      else if encryption_flag sc
      then elim (gcm_aes_decrypt ek iv cipher [] 0) [
        | none ↦ none
        | some r ↦ some (of_decrypted r, reset d)
      ]
      else some (record { ret = false; authen_result = false; plain_text = [] }, reset d)
