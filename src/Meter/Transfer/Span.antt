-- ===== src/Meter/Transfer/Span.antt =====
-- simulator_meter/fee/meter_simulator/object_transfer.cpp: the points of a span of time, where the period
-- is shorter than a day.
use test.Prelude.{
  ℕ, suc, ◌+◌, ◌-◌, ◌*◌, ◌/◌, ◌%◌, ◌^◌, ◌≤◌, ◌<◌, ◌≡◌, ◌≢◌, ap, arith, ◌==◌, inl, inr, Bool-cases,
}
use native.Mathlib.Nat.{
  mod-lt, mod-eq_of_lt, div-add-mod', div-mul-le_self, mul-le-mul_right, mul_comm, suc-mul, add-mul,
  lt_of_mul-lt-mul_right,
}
use test.Meter.Transfer.{Ambience}
use test.Meter.Transfer.Rows.{points_of, get_next_period_time}

-- How many points there are.
points_most :
    (a : Ambience) (p start end e i : ℕ) → p < 86400 → i < points_of a p start end e → i ≤ e / p
unfolding points_of
points_most a p start end e i short h = ground arith

points_inside :
    (a : Ambience) (p start end e i : ℕ)
    → p < 86400
    → start % p ≢ 0
    → end % p ≢ 0
    → i < points_of a p start end e
    → i + 1 ≤ e / p
unfolding points_of
points_inside a p start end e i short u v h = ground arith

pub points_at_most : (a : Ambience) (p start end e : ℕ) → points_of a p start end e ≤ 32
unfolding points_of
points_at_most a p start end e = ground arith

-- Numbers with their parts: `start` is `q * p + r` and `end` is `q2 * p + r2`, and `w * p` lies between.
module _ (p q r q2 r2 w i : ℕ) (between : w * p + (q * p + r) ≤ q2 * p + r2)
    (positive : 0 < p) where
  from_aligned : r ≡ 0 → i ≤ w → q * p + r + p * i ≤ q2 * p + r2
  from_aligned e h = let m = mul-le-mul_right p h in let c = mul_comm p i in omega arith

  inside_both : r2 < p → i + 1 ≤ w → q * p + p + p * i ≤ q2 * p + r2
  inside_both small h =
      let m = mul-le-mul_right p h in
      let c = mul_comm p i in
      let d = suc-mul i p in
      let e : i + 1 ≡ suc i = omega arith in
      let f : (i + 1) * p ≡ suc i * p = ap (λ k. k * p) e in omega arith

  to_aligned : r ≢ 0 → r2 ≡ 0 → i ≤ w → q * p + p + p * i ≤ q2 * p + r2
  to_aligned some_r e h =
      let m = mul-le-mul_right p h in
      let c = mul_comm p i in
      let s1 = add-mul q w p in
      let s2 = suc-mul (q + w) p in
      let s3 = suc-mul q2 p in
      let less : suc (q + w) * p < suc q2 * p = omega arith in
      let fewer : suc (q + w) < suc q2 = lt_of_mul-lt-mul_right p less in
      let whole = mul-le-mul_right p (let l : suc (q + w) ≤ q2 = omega arith in l) in omega arith

next_aligned : (a : Ambience) (start p : ℕ) → start % p ≡ 0 → get_next_period_time a start p ≡ start
unfolding get_next_period_time
next_aligned a start p e = ground arith

next_between :
    (a : Ambience) (start p : ℕ)
    → start % p ≢ 0
    → p < 86400
    → start / p * p + p < 2 ^ 32
    → get_next_period_time a start p ≡ start / p * p + p
unfolding get_next_period_time
next_between a start p e short small =
    let whole : (start / p * p + p) % 2 ^ 32 ≡ start / p * p + p = mod-eq_of_lt small in
    ground (arith, whole)

-- A point of a span lies in it.
module _ (a : Ambience) (p start end i : ℕ) (positive : 0 < p) (short : p < 86400)
    (ordered : start ≤ end) (room : end + p < 2 ^ 32)
    (h : i < points_of a p start end (end - start)) where
  between : (end - start) / p * p + (start / p * p + start % p) ≤ end / p * p + end % p
  between =
      let d1 = div-add-mod' start p in
      let d2 = div-add-mod' end p in let d3 = div-mul-le_self (end - start) p in omega arith

  pub last_inside : get_next_period_time a start p + p * i ≤ end
  last_inside =
      let d1 = div-add-mod' start p in
      let d2 = div-add-mod' end p in
      let most = points_most a p start end (end - start) i short h in
      elim (Bool-cases (start % p == 0)) [
        | inl e ↦
            let zero_r : start % p ≡ 0 = ground arith in
            let n = next_aligned a start p zero_r in
            let k =
              from_aligned p (start / p) (start % p) (end / p) (end % p) ((end - start) / p) i
                between positive zero_r most in
            omega arith
        | inr e ↦
            let some_r : start % p ≢ 0 = ground arith in
            let n = next_between a start p some_r short (omega arith) in
            elim (Bool-cases (end % p == 0)) [
              | inl f ↦
                  let k =
                    to_aligned p (start / p) (start % p) (end / p) (end % p) ((end - start) / p) i
                      between positive some_r (ground arith) most in
                  omega arith
              | inr f ↦
                  let some_r2 : end % p ≢ 0 = ground arith in
                  let k =
                    inside_both p (start / p) (start % p) (end / p) (end % p) ((end - start) / p) i
                      between positive (mod-lt end positive)
                      (points_inside a p start end (end - start) i short some_r some_r2 h) in
                  omega arith
            ]
      ]

  pub first_inside : start ≤ get_next_period_time a start p + p * i
  first_inside =
      let d1 = div-add-mod' start p in
      let l = mod-lt start positive in
      elim (Bool-cases (start % p == 0)) [
        | inl e ↦ let n = next_aligned a start p (ground arith) in omega arith
        | inr e ↦ let n = next_between a start p (ground arith) short (omega arith) in omega arith
      ]
