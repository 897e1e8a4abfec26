-- ===== src/Base/Equality.antt =====
-- `==` of Booleans, of optional values, of lists and of pairs, from that of their parts.
use Prim.Native.String.{String}
use text.Mathlib.Text.{◌==◌ as str_eq}
use text.Mathlib.TextEquality.{eq_iff}
use mathlib.Core.Path.{◌≡◌, refl, ap}
use mathlib.Core.Logic.{◌↔◌}
use mathlib.Core.Bool.{Bool, true, false, not, ◌&&◌}
use mathlib.Core.Option.{Option, none, some}
use mathlib.Core.List.{List, [], ◌∷◌}
use native.Mathlib.Omega.{arith}
use llmmaxxing.Base.Tests.{Eq, same, same_refl, same→eq}

abbrev bool_beq : Bool → Bool → Bool
bool_beq true b = b
bool_beq false b = not b

pub bool_beq_iff : (a b : Bool) → (bool_beq a b ≡ true) ↔ (a ≡ b)
bool_beq_iff a b = ground arith

instance abbrev pub bool_eq : Eq Bool
bool_eq = record { beq = bool_beq; beq_iff = bool_beq_iff }

module _ {A : Type 0} ⦃e : Eq A⦄ where
  abbrev option_beq : Option A → Option A → Bool
  option_beq none none = true
  option_beq (some a) (some b) = same a b
  option_beq _ _ = false

  option_beq_to : (a b : Option A) → option_beq a b ≡ true → a ≡ b
  option_beq_to none none h = refl
  option_beq_to (some a) (some b) h = ap some (same→eq a b h)
  option_beq_to none (some b) h = cc
  option_beq_to (some a) none h = cc

  option_beq_self : (a : Option A) → option_beq a a ≡ true
  option_beq_self none = refl
  option_beq_self (some a) = same_refl a

  pub option_beq_iff : (a b : Option A) → (option_beq a b ≡ true) ↔ (a ≡ b)
  option_beq_iff a b = (option_beq_to a b, λ h. rw (← h) (option_beq_self a))

  instance abbrev pub option_eq : Eq (Option A)
  option_eq = record { beq = option_beq; beq_iff = option_beq_iff }

  abbrev list_beq : List A → List A → Bool
  list_beq [] [] = true
  list_beq (a ∷ as') (b ∷ bs) = same a b && list_beq as' bs
  list_beq _ _ = false

  list_beq_to : (a b : List A) → list_beq a b ≡ true → a ≡ b
  list_beq_to [] [] h = refl
  list_beq_to (a ∷ as') (b ∷ bs) h = ground (arith, same→eq a b, list_beq_to as' bs)
  list_beq_to [] (b ∷ bs) h = cc
  list_beq_to (a ∷ as') [] h = cc

  list_beq_self : (a : List A) → list_beq a a ≡ true
  list_beq_self [] = refl
  list_beq_self (a ∷ as') = ground (arith, same_refl a, list_beq_self as')

  pub list_beq_iff : (a b : List A) → (list_beq a b ≡ true) ↔ (a ≡ b)
  list_beq_iff a b = (list_beq_to a b, λ h. rw (← h) (list_beq_self a))

  instance abbrev pub list_eq : Eq (List A)
  list_eq = record { beq = list_beq; beq_iff = list_beq_iff }

module _ {A B : Type 0} ⦃e : Eq A⦄ ⦃f : Eq B⦄ where
  abbrev pair_beq : A × B → A × B → Bool
  pair_beq (a, b) (c, d) = same a c && same b d

  pair_beq_to : (p q : A × B) → pair_beq p q ≡ true → p ≡ q
  pair_beq_to (a, b) (c, d) h = ground (arith, same→eq a c, same→eq b d)

  pair_beq_self : (p : A × B) → pair_beq p p ≡ true
  pair_beq_self (a, b) = ground (arith, same_refl a, same_refl b)

  pub pair_beq_iff : (p q : A × B) → (pair_beq p q ≡ true) ↔ (p ≡ q)
  pair_beq_iff p q = (pair_beq_to p q, λ h. rw (← h) (pair_beq_self p))

  instance abbrev pub pair_eq : Eq (A × B)
  pair_eq = record { beq = pair_beq; beq_iff = pair_beq_iff }

instance abbrev pub string_eq : Eq String
string_eq = record { beq = str_eq; beq_iff = eq_iff }
