-- ===== src/Client/Components.antt =====
-- simulator_meter/fee/meter_simulator/access_security.cpp: what the meter reads of the components that the
-- AARQ of simulator_meter/common/ptcl_codec/ptcl_module_dlms47.cpp has.
use test.Prelude.{
  ℕ, suc, ◌+◌, ◌≤◌, ◌<◌, ◌≡◌, ◌≢◌, refl, ap, sym, subst, ◌∙◌, arith, List, [], ◌∷◌, ◌++◌, Bool,
  true, false, ltb, ◌==◌, if◌then◌else◌, length, length-append, get_or, drop, take,
}
use test.Memory.{Memory, bytes}
use test.Meter.Association.{Aarq, read, parse_component}
use test.Meter.Association.Reading.{Reads, one_more, nothing_left}
use test.Meter.Apdu.{context_name}

-- A list that stands in a memory in two parts.
bytes-parts :
    (xs ys : List ℕ) (m : Memory) (off : ℕ)
    → bytes m off (length (xs ++ ys)) ≡ xs ++ ys
    → (bytes m off (length xs) ≡ xs) × (bytes m (off + length xs) (length ys) ≡ ys)
unfolding bytes
bytes-parts [] ys m off h = let e : off + 0 ≡ off = omega arith in (refl, rw (e) h)
bytes-parts (x ∷ xs) ys m off h =
    let t : bytes m (off + 1) (length (xs ++ ys)) ≡ xs ++ ys = cc in
    let f : m off ≡ x = cc in
    let (a, b) = bytes-parts xs ys m (off + 1) t in
    let e : off + suc (length xs) ≡ off + 1 + length xs = omega arith in (rw (f, a) refl, rw (e) b)

-- The components from a place on, and those behind the first one.
Reads-step :
    {m : Memory} {start content : ℕ} {a b c : Aarq}
    → (n at size next : ℕ) → content ≢ n
    → at ≡ start + n
    → parse_component m at a ≡ read b
    → m (at + 1) ≡ size
    → next ≡ n + 2 + size
    → Reads m start content next b c
    → Reads m start content n a c
Reads-step {m} {start} {content} {a} {b} {c} n at size next d e k l f r =
    one_more d (subst (λ x. parse_component m x a ≡ read b) e k) (
      subst (λ x. Reads m start content x b c)
        (f ∙ (ap (λ s. n + 2 + s) (sym l) ∙ ap (λ x. n + 2 + m (x + 1)) e)) r)

module _ (m : Memory) (at : ℕ) (a : Aarq) (inside : at + 100 < 1536) where
  context_read :
      (v : ℕ)
      → m at ≡ 0xa1
      → m (at + 3) ≡ 7
      → m (at + 10) ≡ v
      → parse_component m at a ≡ read (record a { cipher_flag = v == 3 })
  unfolding parse_component
  context_read v h k l =
      let e : at + 3 + 7 ≡ at + 10 = omega arith in
      let t : ltb (at + 10) 1536 ≡ true = ground arith in rw (h, k, e, t, l) refl

  title_read :
      (title : List ℕ)
      → m at ≡ 0xa6
      → m (at + 3) ≡ 8
      → bytes m (at + 4) 8 ≡ title
      → parse_component m at a ≡ read (record a { ap_title = title })
  unfolding parse_component
  title_read title h k l = let t : ltb (at + 11) 1536 ≡ true = ground arith in rw (h, k, t, l) refl

  acse_read : m at ≡ 0x8a → parse_component m at a ≡ read a
  unfolding parse_component
  acse_read h = let t : ltb (at + 1) 1536 ≡ true = ground arith in rw (h, t) refl

  mechanism_read :
      (mech : ℕ)
      → m at ≡ 0x8b
      → m (at + 8) ≡ mech
      → parse_component m at a ≡ read (record a { mechanism_id = mech })
  unfolding parse_component
  mechanism_read mech h k = let t : ltb (at + 8) 1536 ≡ true = ground arith in rw (h, t, k) refl

  value_read :
      (value : List ℕ)
      → length value ≤ 64
      → m at ≡ 0xac
      → m (at + 3) ≡ length value
      → bytes m (at + 4) (length value) ≡ value
      → parse_component m at a ≡ read (record a { authen_value = value })
  unfolding parse_component
  value_read value small h k l =
      let s : ltb 64 (length value) ≡ false = ground arith in
      let t : ltb (at + 3 + length value) 1536 ≡ true = ground arith in rw (h, k, s, t, l) refl

  information_read :
      (i : ℕ) → m at ≡ 0xbe → m (at + 4) ≡ i → i ≢ 0x21 → parse_component m at a ≡ read a
  unfolding parse_component
  information_read i h k n =
      let s : (i == 0x21) ≡ false = ground arith in
      let t : ltb (at + 4) 1536 ≡ true = ground arith in rw (h, k, s, t) refl

-- The components of the AARQ, the title as its eight bytes, with `rest` behind the length of the value.
abbrev pub front : Bool → List ℕ → ℕ → ℕ → List ℕ → List ℕ
front b title mech n rest =
    context_name b
    ++ (0xa6
        ∷ 0x0a
        ∷ 4
        ∷ 8
        ∷ (title
            ++ (0x8a
                ∷ 2
                ∷ 7
                ∷ 0x80
                ∷ 0x8b
                ∷ 7
                ∷ 0x60
                ∷ 0x85
                ∷ 0x74
                ∷ 5
                ∷ 8
                ∷ 2
                ∷ mech
                ∷ 0xac
                ∷ suc (suc n)
                ∷ 0x80
                ∷ n
                ∷ rest)))

abbrev pub information : ℕ → List ℕ → List ℕ
information i init = 0xbe ∷ suc (suc (suc (length init))) ∷ 4 ∷ suc (length init) ∷ i ∷ init

abbrev pub eight : ℕ → ℕ → ℕ → ℕ → ℕ → ℕ → ℕ → ℕ → List ℕ
eight t0 t1 t2 t3 t4 t5 t6 t7 = t0 ∷ t1 ∷ t2 ∷ t3 ∷ t4 ∷ t5 ∷ t6 ∷ t7 ∷ []

flag : (b : Bool) → ((if b then 3 else 1) == 3) ≡ b
flag true = refl
flag false = refl

-- What the meter takes of it.
abbrev pub taken : Aarq → Bool → List ℕ → ℕ → List ℕ → Aarq
taken a b title mech value = record a {
  mechanism_id = mech;
  ap_title = title;
  authen_value = value;
  cipher_flag = b;
}

-- The content of the AARQ.
unfoldable pub aarq_body : Bool → List ℕ → ℕ → ℕ → List ℕ → List ℕ → List ℕ
aarq_body b title mech i value init =
    front b title mech (length value) (value ++ information i init)

module _ (b : Bool) (t0 t1 t2 t3 t4 t5 t6 t7 mech i : ℕ) (value init : List ℕ)
    (small : length value ≤ 64) (plain : i ≢ 0x21) (short : length value + length init ≤ 80) where
  abbrev title : List ℕ
  title = eight t0 t1 t2 t3 t4 t5 t6 t7

  abbrev body : List ℕ
  body = aarq_body b title mech i value init

  module _ (m : Memory) (a : Aarq)
      (h : bytes m 8 (
          length (
            0x60
            ∷ length (aarq_body b (eight t0 t1 t2 t3 t4 t5 t6 t7) mech i value init)
            ∷ aarq_body b (eight t0 t1 t2 t3 t4 t5 t6 t7) mech i value init))
        ≡ 0x60
          ∷ length (aarq_body b (eight t0 t1 t2 t3 t4 t5 t6 t7) mech i value init)
          ∷ aarq_body b (eight t0 t1 t2 t3 t4 t5 t6 t7) mech i value init) where
    size : length body ≡ 45 + length value + length init
    unfolding aarq_body
    size = omega (arith, length-append value (information i init))

    byte_at :
        (k : ℕ)
        → get_or (bytes m 8 (length (0x60 ∷ length body ∷ body))) k 0
          ≡ get_or (0x60 ∷ length body ∷ body) k 0
    byte_at k = ap (λ l. get_or l k 0) h

    behind : bytes m 50 (length (value ++ information i init)) ≡ value ++ information i init
    unfolding aarq_body bytes
    behind = ap (λ (l : List ℕ). drop 42 l) h

    information_at : bytes m (50 + length value) (length (information i init)) ≡ information i init
    information_at = (bytes-parts value (information i init) m 50 behind).1

    pub components :
        Reads m 10
          (length (aarq_body b (eight t0 t1 t2 t3 t4 t5 t6 t7) mech i value init))
          0
          a
          (taken a b (eight t0 t1 t2 t3 t4 t5 t6 t7) mech value)
    unfolding aarq_body bytes
    components =
        let v = (bytes-parts value (information i init) m 50 behind).0 in
        let n = length value in
        let i0 = ap (λ (l : List ℕ). get_or l 0 0) information_at in
        let i1 = ap (λ (l : List ℕ). get_or l 1 0) information_at in
        let i4 = ap (λ (l : List ℕ). get_or l 4 0) information_at in
        let p = λ (k : ℕ). ap (λ (l : List ℕ). get_or l k 0) h in
        let ts = ap (λ (l : List ℕ). take 8 (drop 17 l)) h in
        let c1 : ℕ = if b then 3 else 1 in
        let a1 = record a { cipher_flag = c1 == 3 } in
        let a2 = record a1 { ap_title = eight t0 t1 t2 t3 t4 t5 t6 t7 } in
        let a3 = record a2 { mechanism_id = mech } in
        let a4 = record a3 { authen_value = value } in
        let z = size in
        let two : m (50 + n + 4) ≡ i =
          let e : 50 + n + 1 + 1 + 1 + 1 ≡ 50 + n + 4 = omega arith in rw (sym e) i4 in
        let last : Reads m 10 (length body) (length body) a4 a4 = nothing_left refl in
        let r6 =
          Reads-step (40 + n) (50 + n) (suc (suc (suc (length init)))) (length body) (omega arith)
            (omega arith) (information_read m (50 + n) a4 (omega arith) i i0 two plain) i1
            (omega arith) last in
        let r5 =
          Reads-step 36 46 (suc (suc n)) (40 + n) (omega arith) refl
            (value_read m 46 a3 (omega arith) value small (p 38) (p 41) v) (p 39) (omega arith)
            r6 in
        let r4 =
          Reads-step 27 37 7 36 (omega arith) refl
            (mechanism_read m 37 a2 (omega arith) mech (p 29) (p 37)) (p 30) refl r5 in
        let r3 =
          Reads-step 23 33 2 27 (omega arith) refl (acse_read m 33 a2 (omega arith) (p 25)) (p 26)
            refl r4 in
        let r2 =
          Reads-step 11 21 10 23 (omega arith) refl
            (title_read m 21 a1 (omega arith) (eight t0 t1 t2 t3 t4 t5 t6 t7) (p 13) (p 16) ts)
            (p 14) refl r3 in
        let r1 =
          Reads-step 0 10 9 11 (omega arith) refl
            (context_read m 10 a (omega arith) c1 (p 2) (p 5) (p 12)) (p 3) refl r2 in
        subst
          (λ f. Reads m 10 (length body) 0 a (taken a f (eight t0 t1 t2 t3 t4 t5 t6 t7) mech value))
          (flag b) r1
