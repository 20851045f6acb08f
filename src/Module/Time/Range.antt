-- ===== src/Module/Time/Range.antt =====
-- The fields that `bcd_to_time` leaves behind are in range, whatever the bytes are.
use test.Prelude.{
  subst, ℕ, suc, ◌≤◌, ◌≡◌, refl, some, ◌||◌, ltb, arith, Bool-cases, Option-cases, inl, inr,
}
use test.Prelude.Int.{ℤ, pos, negsuc, lt_int}
use test.Memory.{Memory}
use test.Module.Time.{Tm, TimeType, len_parse, clamp, clamp_fields, bcd_to_time, read_fields}

abbrev pub Between : ℕ → ℕ → ℤ → Type 0
Between lo hi z = (n : ℕ) × (z ≡ pos n) × (lo ≤ n) × (n ≤ hi)

pub record InRange (t : Tm) : Type 0 where
  pub mon_in : Between 0 11 t.mon
  pub mday_in : Between 1 31 t.mday
  pub hour_in : Between 0 23 t.hour
  pub min_in : Between 0 59 t.min
  pub sec_in : Between 0 59 t.sec

clamp_range :
    (lo hi fallback : ℕ) (z : ℤ)
    → lo ≤ fallback
    → fallback ≤ hi
    → Between lo hi (clamp lo hi fallback z)
unfolding clamp
clamp_range lo hi fallback (negsuc n) a b = (fallback, refl, a, b)
clamp_range lo hi fallback (pos n) a b = elim (Bool-cases (ltb n lo || ltb hi n)) [
  | inl e ↦ (fallback, rw e, a, b)
  | inr e ↦ (n, rw e, ground arith, ground arith)
]

clamp_fields-InRange : (t : Tm) → InRange (clamp_fields t)
unfolding clamp_fields
clamp_fields-InRange t = record {
  mon_in = clamp_range 0 11 0 t.mon (omega arith) (omega arith);
  mday_in = clamp_range 1 31 1 t.mday (omega arith) (omega arith);
  hour_in = clamp_range 0 23 0 t.hour (omega arith) (omega arith);
  min_in = clamp_range 0 59 0 t.min (omega arith) (omega arith);
  sec_in = clamp_range 0 59 0 t.sec (omega arith) (omega arith);
}

-- Where `bcd_to_time` reports that it read bytes, the time that it leaves behind is in range: the
-- month is 0 to 11, the day 1 to 31, the hour at most 23, minute and second at most 59.
pub bcd_to_time-InRange :
    (buf : Memory) (len : ℤ) (type : TimeType) (t t' : Tm) (k : ℕ)
    → bcd_to_time (some buf) len type (some t) ≡ (pos (suc k), some t')
    → InRange t'
unfolding bcd_to_time
bcd_to_time-InRange buf len type t t' k h = elim (Option-cases (len_parse type)) [
  | inl e ↦ absurd (ground (arith, h, e))
  | inr (n, e) ↦ elim (Bool-cases (lt_int len (pos n))) [
    | inl short ↦ absurd (ground (arith, h, e, short))
    | inr long ↦
        let p : clamp_fields (read_fields type buf t) ≡ t' = ground (arith, h, e, long) in
        subst InRange p (clamp_fields-InRange (read_fields type buf t))
  ]
]
