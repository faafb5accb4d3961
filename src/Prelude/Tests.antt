-- ===== src/Prelude/Tests.antt =====
-- Boolean tests on the native numbers, the conditional, and case splits that keep an equation.
use Prim.Native.Nat.{ℕ, ◌≤◌, ◌<◌, compare, Ordering}
use mathlib.Core.Path.{◌≡◌, refl, ap, ap₂, fun_ext, subst}
use mathlib.Core.Logic.{◌↔◌, ◌⊎◌, inl, inr}
use mathlib.Core.Bool.{Bool, true, false, ◌&&◌}
use mathlib.Core.Option.{Option, none, some}
use native.Mathlib.Omega.{arith}

abbrev pub ltb : ℕ → ℕ → Bool
ltb a b = elim (compare a b) [ Ordering.lt ↦ true | _ ↦ false ]

abbrev pub leb : ℕ → ℕ → Bool
leb a b = elim (compare a b) [ Ordering.gt ↦ false | _ ↦ true ]

infix 50 ◌==◌
abbrev pub ◌==◌ : ℕ → ℕ → Bool
a == b = elim (compare a b) [ Ordering.eq ↦ true | _ ↦ false ]

infix 1 if◌then◌else◌
abbrev pub if◌then◌else◌ {ℓ} : {A : Type ℓ} → Bool → A → A → A
if true then x else y = x
if false then x else y = y

pub ltb→lt : (a b : ℕ) → ltb a b ≡ true → a < b
ltb→lt a b h = ground arith

pub leb→le : (a b : ℕ) → leb a b ≡ true → a ≤ b
leb→le a b h = ground arith

pub le→leb : (a b : ℕ) → a ≤ b → leb a b ≡ true
le→leb a b h = ground arith

pub ==_iff : (a b : ℕ) → ((a == b) ≡ true) ↔ (a ≡ b)
==_iff a b = ground arith

-- How `omega` reads a Boolean test.
pub ruleset tests = (arith, ltb→lt, leb→le, le→leb)

pub Bool-cases : (b : Bool) → (b ≡ true) ⊎ (b ≡ false)
Bool-cases true = inl refl
Bool-cases false = inr refl

pub Option-cases {ℓ} : {A : Type ℓ} (o : Option A) → (o ≡ none) ⊎ ((a : A) × (o ≡ some a))
Option-cases none = inl refl
Option-cases (some a) = inr (a, refl)

pub &&_parts : (a b : Bool) → (a && b) ≡ true → (a ≡ true) × (b ≡ true)
&&_parts a b h = ground arith

-- `ok = ok && step`: the step is made only where all went well so far, and what was done before a
-- failure stays done.
abbrev pub and_then {ℓ} : {S : Type ℓ} → S × Bool → (S → S × Bool) → S × Bool
and_then (s, true) k = k s
and_then (s, false) k = (s, false)

pub and_then-cong {ℓ} :
    {S : Type ℓ} {r r' : S × Bool} {k k' : S → S × Bool}
    → r ≡ r'
    → ((s : S) → k s ≡ k' s)
    → and_then r k ≡ and_then r' k'
and_then-cong p h = ap₂ and_then p (fun_ext h)

pub and_then-ext {ℓ} :
    {S : Type ℓ} (r : S × Bool) {k k' : S → S × Bool}
    → ((s : S) → k s ≡ k' s)
    → and_then r k ≡ and_then r k'
and_then-ext r h = ap (and_then r) (fun_ext h)

pub and_then_assoc {ℓ} :
    {S : Type ℓ} (r : S × Bool) (f g : S → S × Bool)
    → and_then r (λ s. and_then (f s) g) ≡ and_then (and_then r f) g
and_then_assoc (s, true) f g = refl
and_then_assoc (s, false) f g = refl

-- What holds of one number and of all others holds of all.
pub by_number : (Q : ℕ → Type 0) (k : ℕ) → Q k → ((h : ℕ) → (h == k) ≡ false → Q h) → (h : ℕ) → Q h
by_number Q k here there h = elim (Bool-cases (h == k)) [
  | inl e ↦ subst Q (ground arith) here
  | inr e ↦ there h e
]
