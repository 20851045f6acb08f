-- ===== src/Meter/Protect/Tests.antt =====
-- Protected messages with concrete bytes, under the toy cipher.
use test.Prelude.{
  ℕ, ◌+◌, ◌/◌, ◌%◌, ◌≡◌, refl, List, [], ◌∷◌, ◌++◌, some, none, true, arith, length, replicate,
}
use test.Memory.{zeroes, copy_to, bytes, store}
use test.MessageBlock.{MessageBlock, contents}
use test.Security.{DataSecurity, encrypt, decrypt, reset}
use test.Security.Toy.{toy, toy-IsSound}
use test.Security.Laws.{decrypt-encrypt}
use test.Meter.{Meter, new}
use test.Meter.Protect.{call_encrypt, call_decrypt, glo_tag}
use test.Meter.Protect.Agreement.{ArePeers}
use test.Meter.Protect.Messages.{call_decrypt-call_encrypt, length_form_mistaken}

abbrev security : DataSecurity
security = record {
  security_control = 0;
  init_vector = replicate 12 0;
  security_suite_id = 0;
  e_key = replicate 16 7;
  a_key = replicate 16 9;
}

abbrev title : List ℕ
title = 0x4d ∷ 0x4d ∷ 0x4d ∷ 0 ∷ 0 ∷ 0 ∷ 0 ∷ 1 ∷ []

abbrev sender : Meter
sender = record (new title security) { is_cipher = true }

abbrev receiver : Meter
receiver = record (new (replicate 8 0) security) { is_cipher = true; client_systitle = title }

-- A wrapper frame with a get-response of `n` bytes.
abbrev answer : ℕ → MessageBlock
answer n = record {
  base = store (copy_to zeroes 0 (0 ∷ 1 ∷ 0 ∷ 1 ∷ 0 ∷ 1 ∷ n / 256 ∷ n % 256 ∷ [])) 8 196;
  rd_ptr = 0;
  wr_ptr = n + 8;
}

abbrev empty_block : MessageBlock
empty_block = record { base = zeroes; rd_ptr = 0; wr_ptr = 0 }

peers : ArePeers sender receiver
unfolding new
peers = record {
  sender_on = refl;
  receiver_on = refl;
  title = refl;
  known = refl;
  e_key_size = refl;
  a_key_size = refl;
  same_e_key = refl;
  same_a_key = refl;
}

answer_tag : (n : ℕ) → glo_tag ((answer n).base 8) ≡ some 204
unfolding glo_tag store
answer_tag n = refl

decrypt-encrypt_example :
    (cipher : List ℕ) × (tag : List ℕ) × (encrypt toy
        (toy.hex_encode (1 ∷ 2 ∷ []))
        0x30
        (replicate 12 5)
        (record security { security_control = 0x20 })
      ≡ some (
        some (toy.hex_encode cipher, toy.hex_encode tag),
        reset (record security { security_control = 0x20 }),
      ))
    × (length cipher ≡ 2)
    × (length tag ≡ 12)
    × (decrypt toy (toy.hex_encode cipher) (toy.hex_encode tag) 0x30 (replicate 12 5) security
        ≡ some (
          record { ret = true; authen_result = true; plain_text = toy.hex_encode (1 ∷ 2 ∷ []) },
          reset security,
        ))
decrypt-encrypt_example =
    decrypt-encrypt toy toy-IsSound (1 ∷ 2 ∷ []) (replicate 12 5) 0x30
      (record security { security_control = 0x20 }) security (omega arith) refl refl refl refl refl
      refl refl refl

call_decrypt-call_encrypt_example :
    (sealed : MessageBlock) × (fin : MessageBlock) × (s' : Meter) × (r' : Meter) × (call_encrypt toy
        (answer 40)
        empty_block
        sender
      ≡ some (true, sealed, s'))
    × (call_decrypt toy sealed empty_block receiver ≡ some (true, fin, r'))
    × (contents fin ≡ bytes (answer 40).base 0 6 ++ (0 ∷ 40 ∷ bytes (answer 40).base 8 40))
call_decrypt-call_encrypt_example =
    call_decrypt-call_encrypt toy toy-IsSound (answer 40) empty_block empty_block 40 204 sender
      receiver peers refl (omega arith) (omega arith) (omega arith) (omega arith) (answer_tag 40)

length_form_mistaken_example :
    (sealed : MessageBlock) × (s' : Meter) × (call_encrypt toy (answer 237) empty_block sender
      ≡ some (true, sealed, s'))
    × (call_decrypt toy sealed empty_block receiver ≡ none)
length_form_mistaken_example =
    length_form_mistaken toy toy-IsSound (answer 237) empty_block empty_block 204 sender receiver
      peers refl (omega arith) (answer_tag 237)
