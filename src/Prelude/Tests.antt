-- ===== src/Prelude/Tests.antt =====
-- Boolean tests on numbers, the conditional, and case lemmas that keep the equation.
use Prim.Native.Nat.{ℕ, ◌≤◌, ◌<◌, compare, Ordering}
use mathlib.Core.Path.{◌≡◌, refl}
use mathlib.Core.Logic.{◌⊎◌, inl, inr}
use mathlib.Core.Bool.{Bool, true, false}
use mathlib.Core.Option.{Option, none, some}
use native.Mathlib.Omega.{arith}

infix 1 if◌then◌else◌
abbrev pub if◌then◌else◌ {ℓ} : {A : Type ℓ} → Bool → A → A → A
if true then a else b = a
if false then a else b = b

infix 50 ◌==◌
abbrev pub ◌==◌ : ℕ → ℕ → Bool
n == m = elim (compare n m) [ Ordering.eq ↦ true | _ ↦ false ]

abbrev pub ltb : ℕ → ℕ → Bool
ltb n m = elim (compare n m) [ Ordering.lt ↦ true | _ ↦ false ]

abbrev pub leb : ℕ → ℕ → Bool
leb n m = elim (compare n m) [ Ordering.gt ↦ false | _ ↦ true ]

pub lt→ltb : (n m : ℕ) → n < m → ltb n m ≡ true
lt→ltb n m h = ground arith

pub ltb→lt : (n m : ℕ) → ltb n m ≡ true → n < m
ltb→lt n m h = ground arith

pub leb→le : (n m : ℕ) → leb n m ≡ true → n ≤ m
leb→le n m h = ground arith

pub le→leb : (n m : ℕ) → n ≤ m → leb n m ≡ true
le→leb n m h = ground arith

pub Bool-cases : (b : Bool) → (b ≡ true) ⊎ (b ≡ false)
Bool-cases false = inr refl
Bool-cases true = inl refl

pub Option-cases {ℓ} : {A : Type ℓ} (o : Option A) → (o ≡ none) ⊎ ((a : A) × (o ≡ some a))
Option-cases (some a) = inr (a, refl)
Option-cases none = inl refl
