-- ===== src/Meter/Protect/Opened.antt =====
-- What `call_decrypt` finds in a frame of `call_encrypt`, in each of the three forms of the length.
use test.Prelude.{ℕ, ◌/◌, ◌%◌, ◌^◌, ◌≡◌, ap, List, [], ◌∷◌, ◌++◌, length, take, drop, get_or}
use test.Memory.{Memory, bytes, copy_to}
use test.Memory.Block.{bytes-copy_to_behind}
use test.Security.{word_bytes}
use test.Meter.Protect.{both_flags}

-- A frame whose length area is `form`.
abbrev pub framed : Memory → ℕ → ℕ → ℕ → List ℕ → List ℕ → List ℕ
framed base rd out_tag ic content form =
    let tail = out_tag ∷ (form ++ (both_flags ∷ (word_bytes ic ++ content))) in
    let n = length tail in bytes base rd 6 ++ (n / 2 ^ 8 % 2 ^ 8 ∷ n % 2 ^ 8 ∷ tail)

-- The first nine bytes.
abbrev prefix : Memory → ℕ → ℕ → ℕ → List ℕ
prefix base rd out_tag n = bytes base rd 6 ++ (n / 2 ^ 8 % 2 ^ 8 ∷ n % 2 ^ 8 ∷ out_tag ∷ [])

module _ (k base : Memory) (rd out_tag ic : ℕ) (content : List ℕ) where
  pub one_byte :
      (x : ℕ)
      → let b = copy_to k 0 (framed base rd out_tag ic content (x ∷ [])) in
        (b 9 ≡ x)
        × (b 10 ≡ both_flags)
        × (bytes b 11 4 ≡ word_bytes ic)
        × (bytes b 15 (length content) ≡ content)
  unfolding bytes word_bytes
  one_byte x =
      let rest = x ∷ both_flags ∷ (word_bytes ic ++ content) in
      let e = bytes-copy_to_behind (prefix base rd out_tag (length (out_tag ∷ rest))) rest k 0 in
      (
        ap (λ l. get_or l 0 0) e,
        ap (λ l. get_or l 1 0) e,
        ap (λ l. take 4 (drop 2 l)) e,
        ap (λ l. drop 6 l) e,
      )

  pub two_bytes :
      (x y : ℕ)
      → let b = copy_to k 0 (framed base rd out_tag ic content (x ∷ y ∷ [])) in
        (b 9 ≡ x)
        × (b 10 ≡ y)
        × (b 11 ≡ both_flags)
        × (bytes b 12 4 ≡ word_bytes ic)
        × (bytes b 16 (length content) ≡ content)
  unfolding bytes word_bytes
  two_bytes x y =
      let rest = x ∷ y ∷ both_flags ∷ (word_bytes ic ++ content) in
      let e = bytes-copy_to_behind (prefix base rd out_tag (length (out_tag ∷ rest))) rest k 0 in
      (
        ap (λ l. get_or l 0 0) e,
        ap (λ l. get_or l 1 0) e,
        ap (λ l. get_or l 2 0) e,
        ap (λ l. take 4 (drop 3 l)) e,
        ap (λ l. drop 7 l) e,
      )

  pub three_bytes :
      (x y z : ℕ)
      → let b = copy_to k 0 (framed base rd out_tag ic content (x ∷ y ∷ z ∷ [])) in
        (b 9 ≡ x)
        × (b 10 ≡ y)
        × (b 11 ≡ z)
        × (b 12 ≡ both_flags)
        × (bytes b 13 4 ≡ word_bytes ic)
        × (bytes b 17 (length content) ≡ content)
  unfolding bytes word_bytes
  three_bytes x y z =
      let rest = x ∷ y ∷ z ∷ both_flags ∷ (word_bytes ic ++ content) in
      let e = bytes-copy_to_behind (prefix base rd out_tag (length (out_tag ∷ rest))) rest k 0 in
      (
        ap (λ l. get_or l 0 0) e,
        ap (λ l. get_or l 1 0) e,
        ap (λ l. get_or l 2 0) e,
        ap (λ l. get_or l 3 0) e,
        ap (λ l. take 4 (drop 4 l)) e,
        ap (λ l. drop 8 l) e,
      )
