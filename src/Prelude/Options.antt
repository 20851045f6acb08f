-- ===== src/Prelude/Options.antt =====
-- What holds of every result of a fallible computation.
use mathlib.Core.Path.{◌≡◌, refl, subst, sym}
use mathlib.Core.Option.{Option, none, some}
use mathlib.Core.Bool.{Bool, true, false}
use test.Prelude.Tests.{if◌then◌else◌}

unfoldable pub Always {ℓ κ} : {A : Type ℓ} → (A → Type κ) → Option A → Type κ
Always P none = Unit {κ}
Always P (some a) = P a

pub Always-bind {ℓ κ} :
    {A B : Type ℓ} (P : A → Type κ) (Q : B → Type κ) (x : Option A) (f : A → Option B)
    → Always P x
    → ((a : A) → P a → Always Q (f a))
    → Always Q (elim x [ none ↦ none | some a ↦ f a ])
unfolding Always
Always-bind P Q none f h g = tt
Always-bind P Q (some a) f h g = g a h

-- Where nothing is known of the first result.
pub Always-then {ℓ κ} :
    {A B : Type ℓ} (Q : B → Type κ) (x : Option A) (f : A → Option B)
    → ((a : A) → Always Q (f a))
    → Always Q (elim x [ none ↦ none | some a ↦ f a ])
unfolding Always
Always-then Q none f g = tt
Always-then Q (some a) f g = g a

pub Always-some {ℓ κ} :
    {A : Type ℓ} (P : A → Type κ) (x : Option A) (a : A) → Always P x → x ≡ some a → P a
unfolding Always
Always-some P x a h e = subst (Always P) e h

pub Always-ok {ℓ κ} : {A : Type ℓ} (P : A → Type κ) (a : A) → P a → Always P (some a)
unfolding Always
Always-ok P a h = h

pub Always-none {ℓ κ} : {A : Type ℓ} (P : A → Type κ) → Always P none
unfolding Always
Always-none P = tt

pub Always-if {ℓ κ} :
    {A : Type ℓ} (P : A → Type κ) (b : Bool) (x y : Option A)
    → Always P x
    → Always P y
    → Always P (if b then x else y)
Always-if P true x y h k = h
Always-if P false x y h k = k

pub Always-map {ℓ κ} :
    {A : Type ℓ} (P Q : A → Type κ) (x : Option A) → ((a : A) → P a → Q a) → Always P x → Always Q x
unfolding Always
Always-map P Q none f h = tt
Always-map P Q (some a) f h = f a h

-- Where the first result is known.
pub Always-at {ℓ κ} :
    {A B : Type ℓ} (Q : B → Type κ) (x : Option A) (a : A) (f : A → Option B)
    → x ≡ some a
    → Always Q (f a)
    → Always Q (elim x [ none ↦ none | some a ↦ f a ])
Always-at Q x a f e h = subst (λ y. Always Q (elim y [ none ↦ none | some a ↦ f a ])) (sym e) h

-- A test whose outcome the branches use.
pub Always-test {ℓ κ} :
    {A : Type ℓ} (P : A → Type κ) (b : Bool) (x y : Option A)
    → (b ≡ true → Always P x)
    → (b ≡ false → Always P y)
    → Always P (if b then x else y)
Always-test P true x y h k = h refl
Always-test P false x y h k = k refl

-- A result in both cases.
pub Always-option {ℓ κ} :
    {A B : Type ℓ} (P : B → Type κ) (x : Option A) (b : Option B) (f : A → Option B)
    → Always P b
    → ((a : A) → Always P (f a))
    → Always P (elim x [ none ↦ b | some a ↦ f a ])
Always-option P none b f h g = h
Always-option P (some a) b f h g = g a
