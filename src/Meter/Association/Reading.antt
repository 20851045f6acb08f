-- ===== src/Meter/Association/Reading.antt =====
-- The loop of `parse_aarq` of simulator_meter/fee/meter_simulator/access_security.cpp: that it ends,
-- and its steps without fuel.
use test.Prelude.{
  ℕ, zero, suc, ◌+◌, ◌≤◌, ◌≡◌, ◌≢◌, refl, ap, sym, ◌∙◌, arith, Bool, true, false, ltb, ◌==◌, ◌⊎◌,
  inl, inr, subst, if◌then◌else◌,
}
use test.Memory.{Memory}
use test.Packet.{Packet}
use test.Meter.Association.{
  Aarq, Component, read, refused, fault, parse_component, Outcome, ended, out_of_fuel, then_read,
  parse_loop, parse_aarq,
}

-- A component that is read lies in the buffer with its first two bytes.
read_inside :
    (m : Memory) (off : ℕ) (a b : Aarq)
    → parse_component m off a ≡ read b
    → ltb (off + 1) 1536 ≡ true
unfolding parse_component
read_inside m off a b h = ground arith

is_done : Outcome → Bool
is_done out_of_fuel = false
is_done _ = true

-- A step of the loop once the components before it are read.
is_done-if :
    (stop : Bool) (a : Aarq) (k : Component) (next : Aarq → Outcome)
    → ((b : Aarq) → k ≡ read b → is_done (next b) ≡ true)
    → is_done (if stop then ended a else then_read k next) ≡ true
unfolding is_done then_read
is_done-if true a k next h = refl
is_done-if false a fault next h = refl
is_done-if false a (refused b) next h = refl
is_done-if false a (read b) next h = h b refl

parse_loop-suc :
    (fuel : ℕ) (m : Memory) (start content n : ℕ) (a : Aarq)
    → parse_loop (suc fuel) m start content n a ≡ (
        if content == n
        then ended a
        else then_read
            (parse_component m (start + n) a)
            (λ b. parse_loop fuel m start content (n + 2 + m (start + n + 1)) b))
unfolding parse_loop
parse_loop-suc fuel m start content n a = refl

is_done-parse_loop :
    (fuel : ℕ) (m : Memory) (start content n : ℕ) (a : Aarq)
    → 1536 ≤ start + n + fuel
    → is_done (parse_loop (suc fuel) m start content n a) ≡ true
is_done-parse_loop zero m start content n a h =
    ap is_done (parse_loop-suc zero m start content n a)
    ∙ is_done-if (content == n) a (parse_component m (start + n) a) _
        (λ b e. let i = read_inside m (start + n) a b e in ground arith)
is_done-parse_loop (suc fuel) m start content n a h =
    ap is_done (parse_loop-suc (suc fuel) m start content n a)
    ∙ is_done-if (content == n) a (parse_component m (start + n) a) _ (λ b e.
      let i = read_inside m (start + n) a b e in
      is_done-parse_loop fuel m start content (n + 2 + m (start + n + 1)) b (omega arith))

is_done-parse_aarq : (p : Packet) (a : Aarq) → is_done (parse_aarq p a) ≡ true
unfolding parse_aarq is_done
is_done-parse_aarq p a =
    let inner =
      is_done-parse_loop 1599 p.mem (p.data_off + 2) (p.mem (p.data_off + 1)) 0 a (omega arith) in
    ground arith

-- The fuel of the model is enough for every packet, whatever the values at the start.
pub parse_aarq-terminates : (p : Packet) (a : Aarq) → parse_aarq p a ≢ out_of_fuel
unfolding is_done
parse_aarq-terminates p a h = let e = is_done-parse_aarq p a in ground (arith, e, h)

-- The components from offset `n` to `content`, each of them read, take `a` to `c`.
pub data Reads (m : Memory) (start content : ℕ) : ℕ → Aarq → Aarq → Type 0 where
  nothing_left : {n : ℕ} {a : Aarq} → content ≡ n → Reads m start content n a a
  one_more :
      {n : ℕ} {a b c : Aarq}
      → content ≢ n
      → parse_component m (start + n) a ≡ read b
      → Reads m start content (n + 2 + m (start + n + 1)) b c
      → Reads m start content n a c

-- The offsets grow, so that nothing is accepted past the end.
pub Reads-bound :
    {m : Memory} {start content n : ℕ} {a c : Aarq} → Reads m start content n a c → n ≤ content
Reads-bound (nothing_left e) = omega arith
Reads-bound (one_more d e r) = let i = Reads-bound r in omega arith

-- How a step of the loop comes to accept.
Accepts : Bool → Aarq → Component → (Aarq → Outcome) → Aarq → Type 0
Accepts stop a k next c =
    ((stop ≡ true) × (a ≡ c)) ⊎ ((b : Aarq) × (stop ≡ false) × (k ≡ read b) × (next b ≡ ended c))

accepted : Aarq → Outcome → Aarq
accepted a (ended c) = c
accepted a _ = a

step-Accepts :
    (stop : Bool) (a : Aarq) (k : Component) (next : Aarq → Outcome) (c : Aarq)
    → (if stop then ended a else then_read k next) ≡ ended c
    → Accepts stop a k next c
unfolding Accepts accepted then_read is_done
step-Accepts true a k next c h = inl (refl, ap (accepted a) h)
step-Accepts false a fault next c h = ground arith
step-Accepts false a (refused b) next c h = ground arith
step-Accepts false a (read b) next c h = inr (b, refl, refl, h)

pub parse_loop-Reads :
    (fuel : ℕ) (m : Memory) (start content n : ℕ) (a c : Aarq)
    → parse_loop fuel m start content n a ≡ ended c
    → Reads m start content n a c
unfolding Accepts parse_loop is_done
parse_loop-Reads zero m start content n a c h = ground arith
parse_loop-Reads (suc fuel) m start content n a c h =
    elim (step-Accepts (content == n) a (parse_component m (start + n) a) _ c
      (sym (parse_loop-suc fuel m start content n a) ∙ h)) [
        | inl (e, same) ↦
            subst (λ b. Reads m start content n a b) same (nothing_left (ground arith))
        | inr (b, d, e, later) ↦
            one_more (ground arith) e (parse_loop-Reads fuel m start content _ b c later)
      ]

parse_loop_more :
    (fuel : ℕ) (m : Memory) (start content n : ℕ) (a b : Aarq)
    → content ≢ n
    → parse_component m (start + n) a ≡ read b
    → parse_loop (suc fuel) m start content n a
      ≡ parse_loop fuel m start content (n + 2 + m (start + n + 1)) b
unfolding then_read
parse_loop_more fuel m start content n a b d e =
    let e0 : (content == n) ≡ false = ground arith in
    parse_loop-suc fuel m start content n a ∙ rw (e0, e) refl

Reads-parse_loop :
    {m : Memory} {start content n : ℕ} {a c : Aarq}
    → Reads m start content n a c
    → (fuel : ℕ) → 1536 ≤ start + n + fuel
    → parse_loop (suc fuel) m start content n a ≡ ended c
unfolding parse_loop
Reads-parse_loop {n} (nothing_left e) fuel h = ground arith
Reads-parse_loop {m} {start} {content} {n} {a} (one_more {b = b} d e r) zero h =
    let i = read_inside m (start + n) a b e in ground arith
Reads-parse_loop {m} {start} {content} {n} {a} (one_more {b = b} d e r) (suc fuel) h =
    let i = read_inside m (start + n) a b e in
    parse_loop_more (suc fuel) m start content n a b d e ∙ Reads-parse_loop r fuel (omega arith)

pub parse_aarq-loop :
    (p : Packet) (a : Aarq)
    → (p.mem p.data_off ≡ 0x60)
    → (29 ≤ p.mem (p.data_off + 1))
    → parse_aarq p a ≡ parse_loop 1600 p.mem (p.data_off + 2) (p.mem (p.data_off + 1)) 0 a
unfolding parse_aarq
parse_aarq-loop p a tag size = ground arith

-- Components that are read from the first one to the last are the whole of a message.
pub Reads-parse_aarq :
    (p : Packet) (a c : Aarq)
    → (p.mem p.data_off ≡ 0x60)
    → (29 ≤ p.mem (p.data_off + 1))
    → Reads p.mem (p.data_off + 2) (p.mem (p.data_off + 1)) 0 a c
    → parse_aarq p a ≡ ended c
Reads-parse_aarq p a c tag size r =
    parse_aarq-loop p a tag size ∙ Reads-parse_loop r 1599 (omega arith)
