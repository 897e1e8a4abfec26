-- ===== src/Base/Dict/Order.antt =====
-- Sorting a dict's items by key, `sorted(d.items(), key=...)`, which leaves every lookup as it is.
use mathlib.Core.Path.{◌≡◌, refl}
use mathlib.Core.Logic.{inl, inr}
use mathlib.Core.Bool.{Bool, false}
use mathlib.Core.Option.{some}
use mathlib.Core.List.{[], ◌∷◌}
use native.Mathlib.Omega.{arith}
use llmmaxxing.Base.Tests.{if◌then◌else◌, Bool-cases, Eq, same, same→eq}
use llmmaxxing.Base.Lists.{Has, insert_by, sort_by}
use llmmaxxing.Base.Dict.{Dict, lookup, keys}

module _ {K V : Type 0} ⦃e : Eq K⦄ (before : K → K → Bool) where
  abbrev pub sort_items : Dict K V → Dict K V
  sort_items = sort_by (λ a b. before a.0 b.0)

  module _ (irreflexive : (k : K) → before k k ≡ false) where
    lookup-insert_by :
        (j k : K) (v : V) (d : Dict K V)
        → lookup j (insert_by (λ a b. before a.0 b.0) (k, v) d)
          ≡ (if same k j then some v else lookup j d)
    lookup-insert_by j k v [] = refl
    lookup-insert_by j k v ((i, w) ∷ d) = elim (Bool-cases (before i k)) [
      | inl b ↦ elim (Bool-cases (same i j)) [
        | inl t ↦ elim (Bool-cases (same k j)) [
          | inl s ↦ ground (arith, same→eq i j t, same→eq k j s, irreflexive k)
          | inr s ↦ ground (arith, lookup-insert_by j k v d)
        ]
        | inr t ↦ ground (arith, lookup-insert_by j k v d)
      ]
      | inr b ↦ ground arith
    ]

    pub lookup-sort_items : (j : K) (d : Dict K V) → lookup j (sort_items d) ≡ lookup j d
    lookup-sort_items j [] = refl
    lookup-sort_items j ((i, w) ∷ d) =
        ground (arith, lookup-insert_by j i w (sort_items d), lookup-sort_items j d)

-- Sorting by any test keeps the keys.
module _ {K V : Type 0} ⦃e : Eq K⦄ (before : K × V → K × V → Bool) where
  Has-keys_insert :
      (k : K) (x : K × V) (d : Dict K V)
      → Has k (keys (insert_by before x d))
      → Has k (keys (x ∷ d))
  Has-keys_insert k x [] h = h
  Has-keys_insert k (j, v) ((i, w) ∷ d) h = ground (arith, Has-keys_insert k (j, v) d)

  keys_insert-Has :
      (k : K) (x : K × V) (d : Dict K V)
      → Has k (keys (x ∷ d))
      → Has k (keys (insert_by before x d))
  keys_insert-Has k x [] h = h
  keys_insert-Has k (j, v) ((i, w) ∷ d) h = ground (arith, keys_insert-Has k (j, v) d)

  pub Has-keys_sort : (k : K) (d : Dict K V) → Has k (keys (sort_by before d)) → Has k (keys d)
  Has-keys_sort k [] h = h
  Has-keys_sort k ((i, w) ∷ d) h =
      ground (arith, Has-keys_insert k (i, w) (sort_by before d), Has-keys_sort k d)

  pub keys_sort-Has : (k : K) (d : Dict K V) → Has k (keys d) → Has k (keys (sort_by before d))
  keys_sort-Has k [] h = h
  keys_sort-Has k ((i, w) ∷ d) h =
      ground (arith, keys_insert-Has k (i, w) (sort_by before d), keys_sort-Has k d)
