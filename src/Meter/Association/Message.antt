-- ===== src/Meter/Association/Message.antt =====
-- simulator_meter/fee/meter_simulator/access_security.cpp: which messages `parse_aarq` accepts, and what it
-- takes from them.
use test.Prelude.{ℕ, ◌+◌, ◌-◌, ◌≤◌, ◌≡◌, ◌↔◌, sym, subst, ◌∙◌, arith}
use test.Memory.{Memory}
use test.Packet.{Packet}
use test.Meter.Association.{Aarq, read, parse_component, ended, parse_aarq}
use test.Meter.Association.Layout.{IsComponent, parse_component-IsComponent}
use test.Meter.Association.Reading.{
  Reads, one_more, nothing_left, Reads-bound, parse_loop-Reads, parse_aarq-loop, Reads-parse_aarq,
}

-- The `left` bytes from `at` on are components, one behind the other, each with two bytes and as many more as its
-- second byte says; together they take `a` to `c`.
pub data AreComponents (m : Memory) : ℕ → ℕ → Aarq → Aarq → Type 0 where
  none_left : {at : ℕ} {a : Aarq} → AreComponents m at 0 a a
  first_of :
      {at left : ℕ} {a b c : Aarq}
      → IsComponent m at a b
      → AreComponents m (at + (2 + m (at + 1))) left b c
      → AreComponents m at (2 + m (at + 1) + left) a c

-- A message of tag 0x60, whose second byte is 29 at least and the number of bytes behind it, which are components.
unfoldable pub IsAarq : Packet → Aarq → Aarq → Type 0
IsAarq p a c =
    (p.mem p.data_off ≡ 0x60)
    × (29 ≤ p.mem (p.data_off + 1))
    × AreComponents p.mem (p.data_off + 2) (p.mem (p.data_off + 1)) a c

module _ {m : Memory} {start content : ℕ} where
  Reads-AreComponents :
      {n : ℕ} {a c : Aarq}
      → Reads m start content n a c
      → AreComponents m (start + n) (content - n) a c
  Reads-AreComponents {n} {a} (nothing_left e) =
      let z : 0 ≡ content - n = omega arith in
      subst (λ k. AreComponents m (start + n) k a a) z none_left
  Reads-AreComponents {n} {a} {c} (one_more {b = b} d e r) =
      let i = Reads-bound r in
      let size = m (start + n + 1) in
      let there : start + (n + 2 + size) ≡ start + n + (2 + size) = omega arith in
      let all : 2 + size + (content - (n + 2 + size)) ≡ content - n = omega arith in
      subst (λ k. AreComponents m (start + n) k a c) all
        (first_of ((parse_component-IsComponent m (start + n) a b).0 e) (
          subst (λ k. AreComponents m k (content - (n + 2 + size)) b c) there
            (Reads-AreComponents r)))

  AreComponents-Reads :
      {at left : ℕ} {a c : Aarq}
      → AreComponents m at left a c
      → (n : ℕ) → at ≡ start + n
      → content ≡ n + left
      → Reads m start content n a c
  AreComponents-Reads none_left n e f = nothing_left (omega arith)
  AreComponents-Reads {at} {a = a} {c = c} (first_of {left = left} {b = b} k r) n e f =
      let size = m (at + 1) in
      let next = AreComponents-Reads r (n + 2 + size) (omega arith) (omega arith) in
      one_more (omega arith)
        (subst (λ x. parse_component m x a ≡ read b) e ((parse_component-IsComponent m at a b).1 k))
        (subst (λ x. Reads m start content (n + 2 + m (x + 1)) b c) e next)

from_first :
    {m : Memory} {start content : ℕ} {a c : Aarq}
    → AreComponents m (start + 0) (content - 0) a c
    → AreComponents m start content a c
from_first {m} {start} {content} {a} {c} r =
    let e : start + 0 ≡ start = omega arith in
    let f : content - 0 ≡ content = omega arith in
    subst (λ k. AreComponents m start k a c) f
      (subst (λ k. AreComponents m k (content - 0) a c) e r)

head_of_accepted :
    (p : Packet) (a c : Aarq)
    → parse_aarq p a ≡ ended c
    → (p.mem p.data_off ≡ 0x60) × (29 ≤ p.mem (p.data_off + 1))
unfolding parse_aarq
head_of_accepted p a c h = (ground arith, ground arith)

-- `parse_aarq` accepts a message, and has the values `c` from it, exactly where it is an AARQ: tag 0x60, a length
-- of 29 at least, and components that fill it, each laid out as its tag asks, inside the buffer, which take the
-- values at the start to `c`.
pub parse_aarq-IsAarq : (p : Packet) (a c : Aarq) → (parse_aarq p a ≡ ended c) ↔ IsAarq p a c
unfolding IsAarq
parse_aarq-IsAarq p a c = (
  λ h.
      let (tag, size) = head_of_accepted p a c h in
      let reads = parse_loop-Reads 1600 _ _ _ 0 a c (sym (parse_aarq-loop p a tag size) ∙ h) in
      (tag, size, from_first (Reads-AreComponents reads)),
  λ r. Reads-parse_aarq p a c r.0 r.1 (AreComponents-Reads r.2 0 (omega arith) (omega arith)),
)
