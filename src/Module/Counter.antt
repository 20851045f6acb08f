-- ===== src/Module/Counter.antt =====
-- The frame counters: how the numbers of one address follow each other.
use test.Prelude.{
  ℕ, zero, suc, ◌+◌, ◌%◌, ◌<◌, ◌≡◌, ◌≢◌, refl, ap, ◌∙◌, List, [], ◌∷◌, none, some, arith, ◌==◌,
  if◌then◌else◌, Option-cases, inl, inr,
}
use test.Module.{Module, lookup, insert, next_seq, get_frame_seq, reset_frame_seq}

pub lookup-insert :
    (addr seq a : ℕ) (m : List (ℕ × ℕ))
    → lookup a (insert addr seq m) ≡ (if addr == a then some seq else lookup a m)
unfolding lookup insert
lookup-insert addr seq a [] = refl
lookup-insert addr seq a ((b, s) ∷ rest) = ground (arith, lookup-insert addr seq a rest)

-- `n + 1` calls in a row; the number of the last one.
pub calls : ℕ → ℕ → Module → ℕ × Module
calls zero addr m = get_frame_seq addr m
calls (suc n) addr m = get_frame_seq addr (calls n addr m).1

-- Where an address has the counter `s`, the next number is `(s + 1) % 128`, it is stored, and the
-- counters of the other addresses stay.
get_frame_seq-some :
    (addr s : ℕ) (m : Module)
    → addr ≢ 0
    → s < 128
    → lookup addr m.map_seq ≡ some s
    → ((get_frame_seq addr m).0 ≡ (s + 1) % 128)
      × (lookup addr (get_frame_seq addr m).1.map_seq ≡ some ((s + 1) % 128))
unfolding get_frame_seq
get_frame_seq-some addr s m h small e =
    ground (arith, lookup-insert addr (next_seq s) addr m.map_seq)

get_frame_seq-none :
    (addr : ℕ) (m : Module)
    → addr ≢ 0
    → lookup addr m.map_seq ≡ none
    → ((get_frame_seq addr m).0 ≡ 0) × (lookup addr (get_frame_seq addr m).1.map_seq ≡ some 0)
unfolding get_frame_seq
get_frame_seq-none addr m h e = ground (arith, lookup-insert addr 0 addr m.map_seq)

calls_lem :
    (n addr : ℕ) (m : Module)
    → addr ≢ 0
    → lookup addr m.map_seq ≡ none
    → ((calls n addr m).0 ≡ n % 128) × (lookup addr (calls n addr m).1.map_seq ≡ some (n % 128))
unfolding calls
calls_lem zero addr m h e = get_frame_seq-none addr m h e
calls_lem (suc n) addr m h e =
    let (p, q) = calls_lem n addr m h e in
    let (r, s) = get_frame_seq-some addr (n % 128) (calls n addr m).1 h (omega arith) q in
    let w : (n % 128 + 1) % 128 ≡ suc n % 128 = omega arith in (r ∙ w, s ∙ ap some w)

-- For an address other than 0 that has no counter, the call number `n`, from 0 on, gives `n % 128`.
pub calls-eq-mod :
    (n addr : ℕ) (m : Module)
    → addr ≢ 0
    → lookup addr m.map_seq ≡ none
    → (calls n addr m).0 ≡ n % 128
calls-eq-mod n addr m h e = (calls_lem n addr m h e).0

-- A call for one address leaves the counter of every other one alone, and so does a reset.
pub counters_apart :
    (addr other : ℕ) (m : Module)
    → addr ≢ other
    → (lookup other (get_frame_seq addr m).1.map_seq ≡ lookup other m.map_seq)
      × (lookup other (reset_frame_seq addr m).map_seq ≡ lookup other m.map_seq)
unfolding get_frame_seq reset_frame_seq
counters_apart addr other m h = (
  elim (Option-cases (lookup addr m.map_seq)) [
    | inl e ↦ ground (arith, e, lookup-insert addr 0 other m.map_seq)
    | inr (s, e) ↦ ground (arith, e, lookup-insert addr (next_seq s) other m.map_seq)
  ],
  ground (arith, lookup-insert addr 0 other m.map_seq),
)

-- After `reset_frame_seq` the next number of an address is 1, where the first one of a new address
-- is 0.
pub get_frame_seq-reset_frame_seq :
    (addr : ℕ) (m : Module) → addr ≢ 0 → (get_frame_seq addr (reset_frame_seq addr m)).0 ≡ 1
unfolding reset_frame_seq
get_frame_seq-reset_frame_seq addr m h =
    let p =
      get_frame_seq-some addr 0 (record m { map_seq = insert addr 0 m.map_seq }) h (omega arith) in
    ground (arith, p, lookup-insert addr 0 addr m.map_seq)
