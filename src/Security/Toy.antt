-- ===== src/Security/Toy.antt =====
-- A concrete library of the kind that `Crypto` describes: true hexadecimal digits, and a cipher that
-- hides nothing, with a tag that depends on the associated data. It shows that `IsSound` can hold, and
-- the tests run on it.
use test.Prelude.{
  ℕ, ◌+◌, ◌-◌, ◌*◌, ◌/◌, ◌%◌, ◌≡◌, refl, List, [], ◌∷◌, ◌++◌, Option, none, some, true, arith,
  length, replicate, ltb, if◌then◌else◌, length-replicate,
}
use test.Asn.{hex_digit}
use test.Security.{Crypto, IsSound, same_text}

unfoldable pub encode : List ℕ → List ℕ
encode [] = []
encode (b ∷ bs) = hex_digit (b / 16) ∷ hex_digit (b % 16) ∷ encode bs

abbrev digit_value : ℕ → ℕ
digit_value c = if ltb c 0x41 then c - 0x30 else c - 0x37

unfoldable pub decode : List ℕ → List ℕ
decode (x ∷ y ∷ rest) = (digit_value x * 16 + digit_value y) ∷ decode rest
decode _ = []

abbrev pub seal : List ℕ → List ℕ → List ℕ → List ℕ → ℕ → Option (List ℕ)
seal key iv aad plain n = some (plain ++ replicate n (length aad % 256))

abbrev pub unseal : List ℕ → List ℕ → List ℕ → List ℕ → List ℕ → ℕ → Option (List ℕ)
unseal key iv aad tag enc n =
    if same_text tag (replicate n (length aad % 256)) then some enc else none

abbrev pub toy : Crypto
toy = record { hex_encode = encode; hex_decode = decode; seal = seal; unseal = unseal }

decode-encode : (bs : List ℕ) → decode (encode bs) ≡ bs
unfolding decode encode
decode-encode [] = refl
decode-encode (b ∷ bs) = ground (arith, decode-encode bs)

encode-append : (xs ys : List ℕ) → encode (xs ++ ys) ≡ encode xs ++ encode ys
unfolding encode
encode-append [] ys = refl
encode-append (x ∷ xs) ys = rw (encode-append xs ys)

length-encode : (bs : List ℕ) → length (encode bs) ≡ 2 * length bs
unfolding encode
length-encode [] = refl
length-encode (b ∷ bs) = omega (arith, length-encode bs)

same_text_refl : (xs : List ℕ) → same_text xs xs ≡ true
unfolding same_text
same_text_refl [] = refl
same_text_refl (x ∷ xs) = ground (arith, same_text_refl xs)

pub toy-IsSound : IsSound toy
toy-IsSound = record {
  hex_round = decode-encode;
  hex_append = encode-append;
  hex_length = length-encode;
  seals = λ key iv aad plain n hk hi. (
    plain,
    replicate n (length aad % 256),
    refl,
    refl,
    length-replicate n (length aad % 256),
    rw (same_text_refl (replicate n (length aad % 256))) refl,
  );
}
