-- ===== src/Base/Lists.antt =====
-- Lists over the native numbers: lengths, sums, tests of all elements, and filters by a test.
use Prim.Native.Nat.{ℕ, suc, ◌+◌, ◌≤◌, min}
use mathlib.Core.Path.{◌≡◌, refl, sym, ap}
use mathlib.Core.Logic.{◌⊎◌, inl, inr}
use mathlib.Core.Bool.{Bool, true, false, not, ◌&&◌, ◌||◌}
use mathlib.Core.Option.{Option, none, some}
use mathlib.Core.List.{List, [], ◌∷◌, ◌++◌, map}
use native.Mathlib.Omega.{arith}
use llmmaxxing.Base.Tests.{if◌then◌else◌, Bool-cases, Eq, same, same_refl, same→eq}

-- `x in xs`, as a proposition that computes.
abbrev pub Has : {A : Type 0} → A → List A → Type 0
Has x [] = ⊥
Has x (y ∷ ys) = (x ≡ y) ⊎ Has x ys

abbrev pub All {ℓ κ} : {A : Type ℓ} → (A → Type κ) → List A → Type κ
All P [] = Unit
All P (x ∷ xs) = P x × All P xs

module _ {ℓ} {A : Type ℓ} where
  abbrev pub length : List A → ℕ
  length [] = 0
  length (x ∷ xs) = suc (length xs)

  abbrev pub any : (A → Bool) → List A → Bool
  any p [] = false
  any p (x ∷ xs) = p x || any p xs

  abbrev pub all : (A → Bool) → List A → Bool
  all p [] = true
  all p (x ∷ xs) = p x && all p xs

  -- `[x for x in xs if p(x)]`
  abbrev pub keep : (A → Bool) → List A → List A
  keep p [] = []
  keep p (x ∷ xs) = let rest = keep p xs in if p x then x ∷ rest else rest

  -- `next((x for x in xs if p(x)), None)`
  abbrev pub find : (A → Bool) → List A → Option A
  find p [] = none
  find p (x ∷ xs) = let rest = find p xs in if p x then some x else rest

  abbrev pub sum_of : (A → ℕ) → List A → ℕ
  sum_of f [] = 0
  sum_of f (x ∷ xs) = f x + sum_of f xs

  abbrev pub count_of : (A → Bool) → List A → ℕ
  count_of p [] = 0
  count_of p (x ∷ xs) = (if p x then 1 else 0) + count_of p xs

  -- `not xs`
  abbrev pub null : List A → Bool
  null [] = true
  null (x ∷ xs) = false

  -- `sorted(xs, key=...)`, the key's order given as a test.
  abbrev pub insert_by : (A → A → Bool) → A → List A → List A
  insert_by before x [] = x ∷ []
  insert_by before x (y ∷ ys) =
      let rest = insert_by before x ys in if before y x then y ∷ rest else x ∷ y ∷ ys

  abbrev pub sort_by : (A → A → Bool) → List A → List A
  sort_by before [] = []
  sort_by before (x ∷ xs) = insert_by before x (sort_by before xs)

  -- `min(f(x) for x in x ∷ xs)`
  abbrev pub least : (A → ℕ) → A → List A → ℕ
  least f x [] = f x
  least f x (y ∷ ys) = min (f x) (least f y ys)

  pub length-append : (xs ys : List A) → length (xs ++ ys) ≡ length xs + length ys
  length-append [] ys = omega arith
  length-append (x ∷ xs) ys = omega (arith, length-append xs ys)

  pub sum_of-append : (f : A → ℕ) (xs ys : List A) → sum_of f (xs ++ ys) ≡ sum_of f xs + sum_of f ys
  sum_of-append f [] ys = omega arith
  sum_of-append f (x ∷ xs) ys = omega (arith, sum_of-append f xs ys)

  pub length-keep-le : (p : A → Bool) (xs : List A) → length (keep p xs) ≤ length xs
  length-keep-le p [] = omega arith
  length-keep-le p (x ∷ xs) = ground (arith, length-keep-le p xs)

  pub length-keep_snoc-le :
      (p : A → Bool) (xs : List A) (x : A) → length (keep p (xs ++ x ∷ [])) ≤ length (keep p xs) + 1
  length-keep_snoc-le p [] x = ground arith
  length-keep_snoc-le p (y ∷ ys) x = ground (arith, length-keep_snoc-le p ys x)

  pub sum_of-keep_snoc-le :
      (p : A → Bool) (f : A → ℕ) (xs : List A) (x : A)
      → sum_of f (keep p (xs ++ x ∷ [])) ≤ sum_of f (keep p xs) + f x
  sum_of-keep_snoc-le p f [] x = ground arith
  sum_of-keep_snoc-le p f (y ∷ ys) x = ground (arith, sum_of-keep_snoc-le p f ys x)

  pub length-keep_snoc_out :
      (p : A → Bool) (xs : List A) (x : A)
      → p x ≡ false
      → length (keep p (xs ++ x ∷ [])) ≡ length (keep p xs)
  length-keep_snoc_out p [] x h = ground arith
  length-keep_snoc_out p (y ∷ ys) x h = ground (arith, length-keep_snoc_out p ys x)

  pub sum_of-keep_snoc_zero :
      (p : A → Bool) (f : A → ℕ) (xs : List A) (x : A)
      → f x ≡ 0
      → sum_of f (keep p (xs ++ x ∷ [])) ≡ sum_of f (keep p xs)
  sum_of-keep_snoc_zero p f [] x h = ground arith
  sum_of-keep_snoc_zero p f (y ∷ ys) x h = ground (arith, sum_of-keep_snoc_zero p f ys x)

module _ {A : Type 0} where
  pub Has-insert_by :
      (before : A → A → Bool) {z : A} (x : A) (xs : List A)
      → Has z (insert_by before x xs)
      → Has z (x ∷ xs)
  Has-insert_by before x [] h = h
  Has-insert_by before {z} x (y ∷ ys) h = ground (arith, Has-insert_by before {z = z} x ys)

  pub insert_by-Has :
      (before : A → A → Bool) {z : A} (x : A) (xs : List A)
      → Has z (x ∷ xs)
      → Has z (insert_by before x xs)
  insert_by-Has before x [] h = h
  insert_by-Has before {z} x (y ∷ ys) h = ground (arith, insert_by-Has before {z = z} x ys)

  pub Has-sort_by :
      (before : A → A → Bool) (z : A) (xs : List A) → Has z (sort_by before xs) → Has z xs
  Has-sort_by before z [] h = h
  Has-sort_by before z (x ∷ xs) h =
      ground (arith, Has-insert_by before {z = z} x (sort_by before xs), Has-sort_by before z xs)

  pub sort_by-Has :
      (before : A → A → Bool) (z : A) (xs : List A) → Has z xs → Has z (sort_by before xs)
  sort_by-Has before z [] h = h
  sort_by-Has before z (x ∷ xs) h =
      ground (arith, insert_by-Has before {z = z} x (sort_by before xs), sort_by-Has before z xs)

  pub Has-keep : (p : A → Bool) {x : A} (xs : List A) → Has x (keep p xs) → Has x xs × (p x ≡ true)
  Has-keep p [] h = absurd h
  Has-keep p {x} (y ∷ ys) h = ground (arith, Has-keep p {x = x} ys)

  pub keep-Has : (p : A → Bool) {x : A} (xs : List A) → Has x xs → p x ≡ true → Has x (keep p xs)
  keep-Has p [] h k = h
  keep-Has p {x} (y ∷ ys) h k = ground (arith, keep-Has p {x = x} ys)

  pub Has-map :
      {B : Type 0} (f : A → B) {y : B} (xs : List A)
      → Has y (map f xs)
      → (x : A) × Has x xs × (f x ≡ y)
  Has-map f [] h = absurd h
  Has-map f (x ∷ xs) (inl e) = (x, inl refl, sym e)
  Has-map f {y} (x ∷ xs) (inr h) = let (z, m, e) = Has-map f xs h in (z, inr m, e)

  pub map-Has : {B : Type 0} (f : A → B) (x : A) (xs : List A) → Has x xs → Has (f x) (map f xs)
  map-Has f x [] h = absurd h
  map-Has f x (y ∷ ys) (inl e) = inl (ap f e)
  map-Has f x (y ∷ ys) (inr h) = inr (map-Has f x ys h)

  pub Has-nonempty : (x : A) (xs : List A) → Has x xs → null xs ≡ false
  Has-nonempty x [] h = absurd h
  Has-nonempty x (y ∷ ys) h = refl

  pub find-Has : (p : A → Bool) {x : A} (xs : List A) → find p xs ≡ some x → Has x xs × (p x ≡ true)
  find-Has p [] h = cc
  find-Has p {x} (y ∷ ys) h = ground (arith, find-Has p {x = x} ys)

  pub any-Has : (p : A → Bool) {x : A} (xs : List A) → Has x xs → p x ≡ true → any p xs ≡ true
  any-Has p [] h k = absurd h
  any-Has p {x} (y ∷ ys) h k = ground (arith, any-Has p {x = x} ys)

  pub any-none : (p : A → Bool) {x : A} (xs : List A) → any p xs ≡ false → Has x xs → p x ≡ false
  any-none p [] h k = absurd k
  any-none p {x} (y ∷ ys) h k = ground (arith, any-none p {x = x} ys)

  pub all-Has : (p : A → Bool) {x : A} (xs : List A) → all p xs ≡ true → Has x xs → p x ≡ true
  all-Has p [] h k = absurd k
  all-Has p {x} (y ∷ ys) h k = ground (arith, all-Has p {x = x} ys)

  pub any-witness :
      (p : A → Bool) (xs : List A) → any p xs ≡ true → (x : A) × Has x xs × (p x ≡ true)
  any-witness p [] h = cc
  any-witness p (y ∷ ys) h = elim (Bool-cases (p y)) [
    | inl hit ↦ (y, inl refl, hit)
    | inr miss ↦ let (x, m, e) = any-witness p ys (ground arith) in (x, inr m, e)
  ]

  pub All-of_each {κ} : (P : A → Type κ) (xs : List A) → ((x : A) → Has x xs → P x) → All P xs
  All-of_each P [] h = tt
  All-of_each P (x ∷ xs) h = (h x (inl refl), All-of_each P xs (λ y m. h y (inr m)))

  pub All-Has {κ} : (P : A → Type κ) {x : A} (xs : List A) → All P xs → Has x xs → P x
  All-Has P [] h k = absurd k
  All-Has P {x} (y ∷ ys) h (inl e) = rw e h.0
  All-Has P {x} (y ∷ ys) h (inr k) = All-Has P ys h.1 k

-- `x in xs` as the program's test.
module _ {A : Type 0} ⦃e : Eq A⦄ where
  abbrev pub contains : A → List A → Bool
  contains x xs = any (λ y. same x y) xs

  pub contains-Has : (x : A) (xs : List A) → contains x xs ≡ true → Has x xs
  contains-Has x [] h = cc
  contains-Has x (y ∷ ys) h = elim (Bool-cases (same x y)) [
    | inl hit ↦ inl (same→eq x y hit)
    | inr miss ↦ inr (contains-Has x ys (ground arith))
  ]

  pub Has-contains : (x : A) (xs : List A) → Has x xs → contains x xs ≡ true
  Has-contains x [] h = absurd h
  Has-contains x (y ∷ ys) (inl h) = rw (← h, same_refl x)
  Has-contains x (y ∷ ys) (inr h) = ground (arith, Has-contains x ys h)

  -- `len(set(xs)) == len(xs)`
  abbrev pub unique : List A → Bool
  unique [] = true
  unique (x ∷ xs) = not (contains x xs) && unique xs
