-- ===== src/Meter/Association/Layout.antt =====
-- simulator_meter/fee/meter_simulator/access_security.cpp: the layout of one component of an AARQ, and
-- the `switch` of `parse_aarq` on its tag.
use test.Prelude.{
  ℕ, ◌+◌, ◌≤◌, ◌<◌, ◌≡◌, ◌≢◌, ◌↔◌, refl, sym, ◌∙◌, arith, Bool, true, false, ltb, ◌==◌, ◌⊎◌, inl,
  inr, Bool-cases, if◌then◌else◌,
}
use test.Memory.{Memory, bytes, load32}
use test.Meter.Association.{Aarq, Component, read, fault, parse_component}

-- Tags of components that say nothing here: the sender's requirements, 0xa2 to 0xa9 but for the title, and 0x9d.
abbrev pub IsOther : ℕ → Type 0
IsOther t = (t ≡ 0x8a) ⊎ ((t ≡ 0x9d) ⊎ ((0xa2 ≤ t) × (t ≤ 0xa9) × (t ≢ 0xa6)))

-- A component at `at`, tag first, whose value takes `a` to `b`, with all that is read of it in the buffer:
-- of the application context the last byte of its name, which is 3 for ciphering; of the mechanism the ninth
-- byte; of the title its eight bytes, and of the authentication value its bytes, at most 64, with their number in
-- the fourth byte; of a ciphered initiate request, with tag 0x21, the control byte and the counter.
pub data IsComponent (m : Memory) (at : ℕ) (a b : Aarq) : Type 0 where
  context_name :
      m at ≡ 0xa1
      → at + 3 + m (at + 3) < 1536
      → b ≡ record a { cipher_flag = m (at + 3 + m (at + 3)) == 3 }
      → IsComponent m at a b
  mechanism_name :
      m at ≡ 0x8b
      → at + 8 < 1536
      → b ≡ record a { mechanism_id = m (at + 8) }
      → IsComponent m at a b
  calling_title :
      m at ≡ 0xa6
      → m (at + 3) ≡ 8
      → at + 11 < 1536
      → b ≡ record a { ap_title = bytes m (at + 4) 8 }
      → IsComponent m at a b
  authentication_value :
      m at ≡ 0xac
      → m (at + 3) ≤ 64
      → at + 3 + m (at + 3) < 1536
      → b ≡ record a { authen_value = bytes m (at + 4) (m (at + 3)) }
      → IsComponent m at a b
  ciphered_request :
      m at ≡ 0xbe
      → m (at + 4) ≡ 0x21
      → at + 10 < 1536
      → b ≡ record a { sc = m (at + 6); ic = load32 m (at + 7) }
      → IsComponent m at a b
  plain_request : m at ≡ 0xbe → m (at + 4) ≢ 0x21 → at + 4 < 1536 → b ≡ a → IsComponent m at a b
  other : IsOther (m at) → at + 1 < 1536 → b ≡ a → IsComponent m at a b

-- What is read of a component, where its last byte lies in the buffer.
abbrev readable : ℕ → Aarq → Component
readable last x = if ltb last 1536 then read x else fault

test-read : (t : Bool) (x b : Aarq) → (if t then read x else fault) ≡ read b → (t ≡ true) × (b ≡ x)
test-read true x b h = (refl, cc)
test-read false x b h = absurd (cc)

readable-read : (last : ℕ) (x b : Aarq) → readable last x ≡ read b → (last < 1536) × (b ≡ x)
readable-read last x b h =
    let (inside, same) = test-read (ltb last 1536) x b h in (ground (arith, inside), same)

read-readable : (last : ℕ) (x b : Aarq) → last < 1536 → b ≡ x → readable last x ≡ read b
read-readable last x b h e = let t : ltb last 1536 ≡ true = ground arith in rw (t, e) refl

module _ (m : Memory) (at : ℕ) (a : Aarq) where
  at_context :
      m at ≡ 0xa1
      → parse_component m at a
        ≡ readable (at + 3 + m (at + 3)) (record a { cipher_flag = m (at + 3 + m (at + 3)) == 3 })
  unfolding parse_component
  at_context h = rw (h) refl

  at_mechanism :
      m at ≡ 0x8b
      → parse_component m at a ≡ readable (at + 8) (record a { mechanism_id = m (at + 8) })
  unfolding parse_component
  at_mechanism h = rw (h) refl

  at_title :
      m at ≡ 0xa6
      → m (at + 3) ≡ 8
      → parse_component m at a ≡ readable (at + 11) (record a { ap_title = bytes m (at + 4) 8 })
  unfolding parse_component
  at_title h k = rw (h, k) refl

  at_value :
      m at ≡ 0xac
      → m (at + 3) ≤ 64
      → parse_component m at a
        ≡ readable (at + 3 + m (at + 3)) (record a { authen_value = bytes m (at + 4) (m (at + 3)) })
  unfolding parse_component
  at_value h k = let s : ltb 64 (m (at + 3)) ≡ false = ground arith in rw (h, s) refl

  at_ciphered :
      m at ≡ 0xbe
      → m (at + 4) ≡ 0x21
      → parse_component m at a
        ≡ readable (at + 10) (record a { sc = m (at + 6); ic = load32 m (at + 7) })
  unfolding parse_component
  at_ciphered h k = rw (h, k) refl

  at_plain : m at ≡ 0xbe → m (at + 4) ≢ 0x21 → parse_component m at a ≡ readable (at + 4) a
  unfolding parse_component
  at_plain h k = let s : (m (at + 4) == 0x21) ≡ false = ground arith in rw (h, s) refl

  at_other : IsOther (m at) → parse_component m at a ≡ readable (at + 1) a
  unfolding parse_component
  at_other h = ground (arith, h)

  -- The tag, and what else decides, of a component that is read.
  known :
      (b : Aarq)
      → parse_component m at a ≡ read b
      → (m at ≡ 0xa1)
        ⊎ ((m at ≡ 0x8b)
            ⊎ (((m at ≡ 0xa6) × (m (at + 3) ≡ 8))
                ⊎ (((m at ≡ 0xac) × (m (at + 3) ≤ 64)) ⊎ ((m at ≡ 0xbe) ⊎ IsOther (m at)))))
  unfolding parse_component
  known b h = ground (arith, h)

  request_read : (b : Aarq) → m at ≡ 0xbe → parse_component m at a ≡ read b → IsComponent m at a b
  request_read b t h = elim (Bool-cases (m (at + 4) == 0x21)) [
    | inl y ↦
        let k : m (at + 4) ≡ 0x21 = ground arith in
        let (i, e) = readable-read _ _ b (sym (at_ciphered t k) ∙ h) in ciphered_request t k i e
    | inr y ↦
        let k : m (at + 4) ≢ 0x21 = ground arith in
        let (i, e) = readable-read _ _ b (sym (at_plain t k) ∙ h) in plain_request t k i e
  ]

  read_of : (b : Aarq) → IsComponent m at a b → parse_component m at a ≡ read b
  read_of b (context_name t i e) = at_context t ∙ read-readable _ _ b i e
  read_of b (mechanism_name t i e) = at_mechanism t ∙ read-readable _ _ b i e
  read_of b (calling_title t n i e) = at_title t n ∙ read-readable _ _ b i e
  read_of b (authentication_value t n i e) = at_value t n ∙ read-readable _ _ b i e
  read_of b (ciphered_request t k i e) = at_ciphered t k ∙ read-readable _ _ b i e
  read_of b (plain_request t k i e) = at_plain t k ∙ read-readable _ _ b i e
  read_of b (other t i e) = at_other t ∙ read-readable _ _ b i e

  -- The `switch` reads a component exactly where it has this layout.
  pub parse_component-IsComponent :
      (b : Aarq) → (parse_component m at a ≡ read b) ↔ IsComponent m at a b
  parse_component-IsComponent b = (
    λ h. elim (known b h) [
      | inl t ↦ let (i, e) = readable-read _ _ b (sym (at_context t) ∙ h) in context_name t i e
      | inr (inl t) ↦
          let (i, e) = readable-read _ _ b (sym (at_mechanism t) ∙ h) in mechanism_name t i e
      | inr (inr (inl (t, n))) ↦
          let (i, e) = readable-read _ _ b (sym (at_title t n) ∙ h) in calling_title t n i e
      | inr (inr (inr (inl (t, n)))) ↦
          let (i, e) = readable-read _ _ b (sym (at_value t n) ∙ h) in authentication_value t n i e
      | inr (inr (inr (inr (inl t)))) ↦ request_read b t h
      | inr (inr (inr (inr (inr t)))) ↦
          let (i, e) = readable-read _ _ b (sym (at_other t) ∙ h) in other t i e
    ],
    λ c. read_of b c,
  )
