-- ===== src/Base/Tests.antt =====
-- Boolean tests on the native numbers, the conditional, and equality tests as an interface.
use Prim.Native.Nat.{ℕ, ◌≤◌, ◌<◌, compare, Ordering}
use mathlib.Core.Path.{◌≡◌, refl}
use mathlib.Core.Logic.{◌≢◌, ◌↔◌, ◌⊎◌, inl, inr}
use mathlib.Core.Bool.{Bool, true, false, not, ◌&&◌, ◌||◌}
use mathlib.Core.Option.{Option, none, some}
use native.Mathlib.Omega.{arith}

abbrev pub ltb : ℕ → ℕ → Bool
ltb a b = elim (compare a b) [ Ordering.lt ↦ true | _ ↦ false ]

abbrev pub leb : ℕ → ℕ → Bool
leb a b = elim (compare a b) [ Ordering.gt ↦ false | _ ↦ true ]

infix 50 ◌==◌
abbrev pub ◌==◌ : ℕ → ℕ → Bool
a == b = elim (compare a b) [ Ordering.eq ↦ true | _ ↦ false ]

infix 1 if◌then◌else◌
abbrev pub if◌then◌else◌ {ℓ} : {A : Type ℓ} → Bool → A → A → A
if true then x else y = x
if false then x else y = y

pub ltb→lt : (a b : ℕ) → ltb a b ≡ true → a < b
ltb→lt a b h = ground arith

pub lt→ltb : (a b : ℕ) → a < b → ltb a b ≡ true
lt→ltb a b h = ground arith

pub ltb-false : (a b : ℕ) → ltb a b ≡ false → b ≤ a
ltb-false a b h = ground arith

pub leb→le : (a b : ℕ) → leb a b ≡ true → a ≤ b
leb→le a b h = ground arith

pub leb-false : (a b : ℕ) → leb a b ≡ false → b < a
leb-false a b h = ground arith

pub ==_iff : (a b : ℕ) → ((a == b) ≡ true) ↔ (a ≡ b)
==_iff a b = ground arith

pub ==_refl : (a : ℕ) → (a == a) ≡ true
==_refl a = ground arith

pub Bool-cases : (b : Bool) → (b ≡ true) ⊎ (b ≡ false)
Bool-cases true = inl refl
Bool-cases false = inr refl

-- What a test of several parts says of them.
pub both_false : (b c : Bool) → (b || c) ≡ false → (b ≡ false) × (c ≡ false)
both_false true c h = cc
both_false false c h = (refl, h)

pub both_true : (b c : Bool) → (b && c) ≡ true → (b ≡ true) × (c ≡ true)
both_true true true h = (refl, refl)
both_true true false h = cc
both_true false c h = cc

pub negated_true : (b : Bool) → not b ≡ false → b ≡ true
negated_true true h = refl
negated_true false h = cc

pub negated_false : (b : Bool) → not b ≡ true → b ≡ false
negated_false true h = cc
negated_false false h = refl

pub if_true {ℓ} : {A : Type ℓ} (b : Bool) (x y : A) → b ≡ true → (if b then x else y) ≡ x
if_true true x y h = refl
if_true false x y h = cc

pub if_false {ℓ} : {A : Type ℓ} (b : Bool) (x y : A) → b ≡ false → (if b then x else y) ≡ y
if_false false x y h = refl
if_false true x y h = cc

pub bools_differ : true ≢ false
bools_differ h = cc

pub Option-cases {ℓ} : {A : Type ℓ} (o : Option A) → (o ≡ none) ⊎ ((a : A) × (o ≡ some a))
Option-cases none = inl refl
Option-cases (some a) = inr (a, refl)

abbrev pub is_some {ℓ} : {A : Type ℓ} → Option A → Bool
is_some none = false
is_some (some a) = true

abbrev pub or_default {ℓ} : {A : Type ℓ} → A → Option A → A
or_default a none = a
or_default a (some b) = b

-- `==` of a type whose values the program compares.
pub record Eq {ℓ} (A : Type ℓ) : Type ℓ where
  pub beq : A → A → Bool
  pub beq_iff : (a b : A) → (beq a b ≡ true) ↔ (a ≡ b)

instance abbrev pub nat_eq : Eq ℕ
nat_eq = record { beq = ◌==◌; beq_iff = ==_iff }

module _ {ℓ} {A : Type ℓ} ⦃e : Eq A⦄ where
  abbrev pub same : A → A → Bool
  same = e.beq

  pub same_refl : (a : A) → same a a ≡ true
  same_refl a = (e.beq_iff a a).1 refl

  pub same→eq : (a b : A) → same a b ≡ true → a ≡ b
  same→eq a b h = (e.beq_iff a b).0 h

  pub same_sym : (a b : A) → same a b ≡ same b a
  same_sym a b = elim (Bool-cases (same a b)) [
    | inl h ↦ ground (arith, same→eq a b, same_refl a, same_refl b)
    | inr h ↦ elim (Bool-cases (same b a)) [
      | inl k ↦ ground (arith, same→eq b a, same_refl a, same_refl b)
      | inr k ↦ ground arith
    ]
  ]

-- A guarded optional value that is there: the guard held.
pub if-eq-some {ℓ} :
    {A : Type ℓ} (b : Bool) (o : Option A) {a : A}
    → (if b then o else none) ≡ some a
    → (b ≡ true) × (o ≡ some a)
if-eq-some true o h = (refl, h)
if-eq-some false o h = cc

pub unless-eq-some {ℓ} :
    {A : Type ℓ} (b : Bool) (o : Option A) {a : A}
    → (if b then none else o) ≡ some a
    → (b ≡ false) × (o ≡ some a)
unless-eq-some true o h = cc
unless-eq-some false o h = (refl, h)

pub is_some-false {ℓ} : {A : Type ℓ} (o : Option A) → is_some o ≡ false → o ≡ none
is_some-false none h = refl
is_some-false (some a) h = cc
