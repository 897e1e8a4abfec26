-- ===== src/Base/Dict.antt =====
-- Python's `dict`, in insertion order: writing a key that is there keeps its place.
pub mod Order
use Prim.Native.Nat.{ℕ, suc, ◌+◌, ◌≤◌}
use mathlib.Core.Path.{◌≡◌, refl}
use mathlib.Core.Logic.{◌⊎◌, inl, inr}
use mathlib.Core.Bool.{Bool, true, false, not, ◌&&◌, ◌||◌}
use mathlib.Core.Option.{Option, none, some}
use mathlib.Core.List.{List, [], ◌∷◌, ◌++◌, map}
use native.Mathlib.Omega.{arith}
use llmmaxxing.Base.Tests.{
  if◌then◌else◌, Bool-cases, Eq, same, same_refl, same→eq, same_sym, is_some, or_default,
}
use llmmaxxing.Base.Lists.{Has, length, sum_of, any, keep}

abbrev pub Dict : Type 0 → Type 0 → Type 0
Dict K V = List (K × V)

module _ {K V : Type 0} ⦃e : Eq K⦄ where
  -- `d.get(k)`
  abbrev pub lookup : K → Dict K V → Option V
  lookup k [] = none
  lookup k ((j, v) ∷ d) = let rest = lookup k d in if same j k then some v else rest

  -- `d.get(k, default)`
  abbrev pub lookup_or : K → V → Dict K V → V
  lookup_or k v d = or_default v (lookup k d)

  -- `k in d`
  abbrev pub member : K → Dict K V → Bool
  member k d = is_some (lookup k d)

  -- `d[k] = v`
  abbrev pub put : K → V → Dict K V → Dict K V
  put k v [] = (k, v) ∷ []
  put k v ((j, w) ∷ d) = let rest = put k v d in if same j k then (j, v) ∷ d else (j, w) ∷ rest

  -- `d.pop(k, None)`, `del d[k]`
  abbrev pub remove : K → Dict K V → Dict K V
  remove k [] = []
  remove k ((j, w) ∷ d) = let rest = remove k d in if same j k then d else (j, w) ∷ rest

  abbrev pub values : Dict K V → List V
  values [] = []
  values ((j, v) ∷ d) = v ∷ values d

  abbrev pub keys : Dict K V → List K
  keys [] = []
  keys ((j, v) ∷ d) = j ∷ keys d

  -- What every Python dict satisfies: no key twice.
  abbrev pub Distinct : Dict K V → Type 0
  Distinct [] = Unit
  Distinct ((j, v) ∷ d) = (lookup j d ≡ none) × Distinct d

  pub lookup-put :
      (k j : K) (v : V) (d : Dict K V)
      → lookup j (put k v d) ≡ (if same k j then some v else lookup j d)
  lookup-put k j v [] = refl
  lookup-put k j v ((i, w) ∷ d) = elim (Bool-cases (same i k)) [
    | inl h ↦ ground (arith, same→eq i k)
    | inr h ↦ elim (Bool-cases (same i j)) [
      | inl t ↦ ground (arith, lookup-put k j v d, same→eq i j, same_sym k j, same_sym i k)
      | inr t ↦ ground (arith, lookup-put k j v d)
    ]
  ]

  pub lookup-put_self : (k : K) (v : V) (d : Dict K V) → lookup k (put k v d) ≡ some v
  lookup-put_self k v d = ground (arith, lookup-put k k v d, same_refl k)

  pub lookup-put_hit :
      (k j : K) (v : V) (d : Dict K V) → same k j ≡ true → lookup j (put k v d) ≡ some v
  lookup-put_hit k j v d h = ground (arith, lookup-put k j v d)

  pub lookup-put_other :
      (k j : K) (v : V) (d : Dict K V) → same k j ≡ false → lookup j (put k v d) ≡ lookup j d
  lookup-put_other k j v d h = ground (arith, lookup-put k j v d)

  pub lookup-remove_ne :
      (k j : K) (d : Dict K V) → same k j ≡ false → lookup j (remove k d) ≡ lookup j d
  lookup-remove_ne k j [] h = refl
  lookup-remove_ne k j ((i, w) ∷ d) h = elim (Bool-cases (same i k)) [
    | inl t ↦ ground (arith, same→eq i k)
    | inr t ↦ ground (arith, lookup-remove_ne k j d)
  ]

  pub lookup-remove_self : (k : K) (d : Dict K V) → Distinct d → lookup k (remove k d) ≡ none
  lookup-remove_self k [] h = refl
  lookup-remove_self k ((i, w) ∷ d) h = elim (Bool-cases (same i k)) [
    | inl t ↦ ground (arith, same→eq i k)
    | inr t ↦ ground (arith, lookup-remove_self k d)
  ]

  pub put-Distinct : (k : K) (v : V) (d : Dict K V) → Distinct d → Distinct (put k v d)
  put-Distinct k v [] h = (refl, tt)
  put-Distinct k v ((i, w) ∷ d) h = elim (Bool-cases (same i k)) [
    | inl t ↦ ground arith
    | inr t ↦ ground (arith, put-Distinct k v d, lookup-put k i v d, same_sym k i)
  ]

  pub remove-Distinct : (k : K) (d : Dict K V) → Distinct d → Distinct (remove k d)
  remove-Distinct k [] h = tt
  remove-Distinct k ((i, w) ∷ d) h = elim (Bool-cases (same i k)) [
    | inl t ↦ ground arith
    | inr t ↦ ground (arith, remove-Distinct k d, lookup-remove_ne k i d, same_sym k i)
  ]

  pub remove_absent : (k : K) (d : Dict K V) → lookup k d ≡ none → remove k d ≡ d
  remove_absent k [] h = refl
  remove_absent k ((i, w) ∷ d) h = ground (arith, remove_absent k d)

  pub put-put : (k : K) (v w : V) (d : Dict K V) → put k w (put k v d) ≡ put k w d
  put-put k v w [] = ground (arith, same_refl k)
  put-put k v w ((i, u) ∷ d) = ground (arith, put-put k v w d)

  pub lookup-keep-none :
      (p : K × V → Bool) (k : K) (d : Dict K V) → lookup k d ≡ none → lookup k (keep p d) ≡ none
  lookup-keep-none p k [] h = refl
  lookup-keep-none p k ((i, w) ∷ d) h = ground (arith, lookup-keep-none p k d)

  pub length-put_absent :
      (k : K) (v : V) (d : Dict K V) → lookup k d ≡ none → length (put k v d) ≡ length d + 1
  length-put_absent k v [] h = omega arith
  length-put_absent k v ((i, w) ∷ d) h = ground (arith, length-put_absent k v d)

  pub length-put_present :
      (k : K) (v w : V) (d : Dict K V) → lookup k d ≡ some w → length (put k v d) ≡ length d
  length-put_present k v w [] h = cc
  length-put_present k v w ((i, u) ∷ d) h = ground (arith, length-put_present k v w d)

  pub length-remove :
      (k : K) (w : V) (d : Dict K V) → lookup k d ≡ some w → length (remove k d) + 1 ≡ length d
  length-remove k w [] h = cc
  length-remove k w ((i, u) ∷ d) h = ground (arith, length-remove k w d)

  pub values-put_absent :
      (k : K) (v : V) (d : Dict K V) → lookup k d ≡ none → values (put k v d) ≡ values d ++ v ∷ []
  values-put_absent k v [] h = refl
  values-put_absent k v ((i, w) ∷ d) h = ground (arith, values-put_absent k v d)

  pub remove-put_absent :
      (k : K) (v : V) (d : Dict K V) → lookup k d ≡ none → remove k (put k v d) ≡ d
  remove-put_absent k v [] h = ground (arith, same_refl k)
  remove-put_absent k v ((i, w) ∷ d) h = ground (arith, remove-put_absent k v d)

  pub lookup-Has : (k : K) (v : V) (d : Dict K V) → lookup k d ≡ some v → Has v (values d)
  lookup-Has k v [] h = cc
  lookup-Has k v ((i, w) ∷ d) h = ground (arith, lookup-Has k v d)

  pub lookup-Has-keys : (k : K) (v : V) (d : Dict K V) → lookup k d ≡ some v → Has k (keys d)
  lookup-Has-keys k v [] h = cc
  lookup-Has-keys k v ((i, w) ∷ d) h = ground (arith, same→eq i k, lookup-Has-keys k v d)

  pub Has-keys-put :
      (k j : K) (v : V) (d : Dict K V) → Has k (keys (put j v d)) → (k ≡ j) ⊎ Has k (keys d)
  Has-keys-put k j v [] h = h
  Has-keys-put k j v ((i, w) ∷ d) h = ground (arith, Has-keys-put k j v d)

  pub keys-put_self : (j : K) (v : V) (d : Dict K V) → Has j (keys (put j v d))
  keys-put_self j v [] = inl refl
  keys-put_self j v ((i, w) ∷ d) = ground (arith, keys-put_self j v d, same→eq i j)

  pub keys-put-Has : (k j : K) (v : V) (d : Dict K V) → Has k (keys d) → Has k (keys (put j v d))
  keys-put-Has k j v [] h = absurd h
  keys-put-Has k j v ((i, w) ∷ d) h = ground (arith, keys-put-Has k j v d)

-- `{key(x): x for x in xs}`: of two values with one key the last stays.
module _ {K A : Type 0} ⦃e : Eq K⦄ (key : A → K) where
  abbrev pub dict_by_from : Dict K A → List A → Dict K A
  dict_by_from d [] = d
  dict_by_from d (x ∷ xs) = dict_by_from (put (key x) x d) xs

  abbrev pub dict_by : List A → Dict K A
  dict_by = dict_by_from []

  lookup-dict_by_from :
      (k : K) {a : A} (xs : List A) (d : Dict K A)
      → lookup k (dict_by_from d xs) ≡ some a
      → (lookup k d ≡ some a) ⊎ (Has a xs × (key a ≡ k))
  lookup-dict_by_from k [] d h = inl h
  lookup-dict_by_from k {a} (x ∷ xs) d h = ground (
    arith,
    lookup-dict_by_from k {a = a} xs (put (key x) x d),
    lookup-put (key x) k x d,
    same→eq (key x) k,
  )

  pub lookup-dict_by :
      (k : K) {a : A} (xs : List A) → lookup k (dict_by xs) ≡ some a → Has a xs × (key a ≡ k)
  lookup-dict_by k {a} xs h = ground (arith, lookup-dict_by_from k {a = a} xs [])
