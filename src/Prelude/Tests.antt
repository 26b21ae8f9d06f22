-- ===== src/Prelude/Tests.antt =====
-- Boolean tests on the native numbers, and the conditional.
use Prim.Native.Nat.{ℕ, ◌≤◌, ◌<◌, compare, Ordering}
use mathlib.Core.Path.{◌≡◌, refl, subst}
use mathlib.Core.Logic.{◌≢◌, ◌↔◌, ◌⊎◌, inl, inr}
use mathlib.Core.Bool.{Bool, true, false}
use mathlib.Core.Option.{Option, none, some}
use native.Mathlib.Omega.{arith}
use native.Mathlib.Decide.{ℕ_discrete}

-- These compute to `compare`, which `ground` and `grind` read with no lemma listed.
abbrev pub ltb : ℕ → ℕ → Bool
ltb a b = elim (compare a b) [ Ordering.lt ↦ true | _ ↦ false ]

abbrev pub leb : ℕ → ℕ → Bool
leb a b = elim (compare a b) [ Ordering.gt ↦ false | _ ↦ true ]

infix 50 ◌==◌
abbrev pub ◌==◌ : ℕ → ℕ → Bool
a == b = elim (compare a b) [ Ordering.eq ↦ true | _ ↦ false ]

infix 1 if◌then◌else◌
abbrev pub if◌then◌else◌ {ℓ} : {A : Type ℓ} → Bool → A → A → A
if true then x else y = x
if false then x else y = y

-- `omega` reads a test through such lemmas.
pub ltb→lt : (a b : ℕ) → ltb a b ≡ true → a < b
ltb→lt a b h = ground arith

pub lt→ltb : (a b : ℕ) → a < b → ltb a b ≡ true
lt→ltb a b h = ground arith

pub leb→le : (a b : ℕ) → leb a b ≡ true → a ≤ b
leb→le a b h = ground arith

pub ==_iff : (a b : ℕ) → ((a == b) ≡ true) ↔ (a ≡ b)
==_iff a b = ground arith

pub ruleset tests = (arith, ltb→lt, lt→ltb, leb→le)

-- To split on a computed value and keep the equation.
pub Bool-cases : (b : Bool) → (b ≡ true) ⊎ (b ≡ false)
Bool-cases true = inl refl
Bool-cases false = inr refl

pub Option-cases {ℓ} : {A : Type ℓ} (o : Option A) → (o ≡ none) ⊎ ((a : A) × (o ≡ some a))
Option-cases none = inl refl
Option-cases (some a) = inr (a, refl)

-- What holds of the result, when there is one.
abbrev pub OnSome : {A : Type 0} → (A → Type 0) → Option A → Type 0
OnSome P none = Unit {0}
OnSome P (some a) = P a

pub result_of : {A : Type 0} (P : A → Type 0) (o : Option A) (a : A) → OnSome P o → o ≡ some a → P a
result_of P o a h e = subst (OnSome P) e h

-- A function changed at one place.
abbrev pub update_at : {A : Type 0} → (ℕ → A) → ℕ → A → ℕ → A
update_at f i a j = if i == j then a else f j

pub update_at-cases :
    {A : Type 0} (f : ℕ → A) (i : ℕ) (a : A) (j : ℕ)
    → ((i ≡ j) × (update_at f i a j ≡ a)) ⊎ ((i ≢ j) × (update_at f i a j ≡ f j))
update_at-cases f i a j = elim (ℕ_discrete i j) [
  | yes e ↦ let h : (i == j) ≡ true = ground arith in inl (e, rw h refl)
  | no ne ↦ let h : (i == j) ≡ false = ground arith in inr (ne, rw h refl)
]

-- A property of both ways of a conditional.
pub either_way :
    {A : Type 0} (P : A → Type 0) (b : Bool) (x y : A)
    → (b ≡ true → P x)
    → (b ≡ false → P y)
    → P (if b then x else y)
either_way P true x y h k = h refl
either_way P false x y h k = k refl
