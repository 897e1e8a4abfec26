-- ===== src/Gateway/Queue/Progress.antt =====
-- src/llmmaxxing/gateway/scheduler.py, `WDRRQueue.propose`: it never raises, and it makes a
-- proposal whenever some request may be chosen.
use llmmaxxing.Base.{
  ℕ, zero, suc, ◌+◌, ◌%◌, ◌<◌, ◌≡◌, refl, ◌⊎◌, inl, inr, Bool, true, false, Option, none, some,
  List, [], ◌∷◌, arith, ◌==◌, ltb, leb, if◌then◌else◌, Bool-cases, ==_iff, same, any, any-Has,
  any-witness, same_refl, Has, Has-keep, keep-Has, contains, contains-Has, map, length, Has-map,
  map-Has, Has-nonempty, null, >>=-of-ok, Result, ok, nat_eq, pair_eq,
}
use llmmaxxing.Base.Dict.{Dict, lookup, keys, Has-keys-put, keys-put_self, keys-put-Has}
use llmmaxxing.Base.Dict.Order.{Has-keys_sort, keys_sort-Has}
use llmmaxxing.Core.Ids.{RequestId, KeyId}
use llmmaxxing.Gateway.Queue.{WdrrQueue, propose, available}
use llmmaxxing.Gateway.Queue.Entries.{
  Scarcity, scarce, flexible, scarcity_eq, QueueEntry, Queued, FairnessState,
}
use llmmaxxing.Gateway.Queue.Choice.{
  QueueSelection, minimum, oldest, oldest_from, choose_tier, choose_key, key_order, first_sequences,
  note_sequence, next_key, index_of, element_at, settle, in_tier, in_class, of_key, class_turn,
  below_tier, propose_from, key_left, selection_of,
}
use llmmaxxing.Gateway.Queue.Picks.{minimum-Has, Has-oldest_from}

-- A result that is there.
abbrev Returns : {A : Type 0} → Result A → Type 0
Returns {A} r = (a : A) × (r ≡ ok a)

minimum-Returns : (xs : List ℕ) → null xs ≡ false → Returns (minimum xs)
unfolding minimum
minimum-Returns [] h = cc
minimum-Returns (x ∷ xs) h = (_, refl)

oldest-Returns : (xs : List Queued) → null xs ≡ false → Returns (oldest xs)
unfolding oldest
oldest-Returns [] h = cc
oldest-Returns (x ∷ xs) h = (_, refl)

abbrev Tier : ℕ → List Queued → Type 0
Tier t items = (item : Queued) × Has item items × (item.entry.tier ≡ t)

-- The tier that is chosen has a request.
choose_tier-Tier :
    (streak bound top : ℕ) (lower items : List Queued)
    → ((x : Queued) → Has x lower → Has x items)
    → Tier top items
    → (tier : ℕ) × (choose_tier streak bound top lower ≡ ok tier) × Tier tier items
unfolding choose_tier
choose_tier-Tier streak bound top [] items sub h = (top, refl, h)
choose_tier-Tier streak bound top (x ∷ xs) items sub h = elim (Bool-cases (leb bound streak)) [
  | inl t ↦
      let o = oldest_from x xs in (o.entry.tier, rw t, (o, sub o (Has-oldest_from x xs), refl))
  | inr t ↦ (top, rw t, h)
]

abbrev any_of : Scarcity → List Queued → Bool
any_of c = any (λ item. same item.entry.scarcity c)

-- After two rounds the loop stands at a class with a request.
settle-any_of :
    (items : List Queued) (c s : Scarcity)
    → any_of c items ≡ true
    → any_of (settle 2 items s) items ≡ true
unfolding settle
settle-any_of items scarce scarce h = ground arith
settle-any_of items flexible flexible h = ground arith
settle-any_of items scarce flexible h = elim (Bool-cases (any_of flexible items)) [
  | inl t ↦ rw (t, settle) t
  | inr t ↦ rw (t, settle, h) h
]
settle-any_of items flexible scarce h = elim (Bool-cases (any_of scarce items)) [
  | inl t ↦ rw (t, settle) t
  | inr t ↦ rw (t, settle, h) h
]

class_turn-Has :
    (f : FairnessState) (tier : ℕ) (items : List Queued) (x : Queued)
    → Has x (in_tier tier items)
    → (y : Queued) × Has y (in_class tier (class_turn f tier items) items)
class_turn-Has f tier items x h =
    let turn = class_turn f tier items in
    let some_item =
      settle-any_of (in_tier tier items) x.entry.scarcity _
        (any-Has _ {x = x} (in_tier tier items) h (same_refl x.entry.scarcity)) in
    let (y, m, e) =
      any-witness (λ item. same item.entry.scarcity turn) (in_tier tier items) some_item in
    (y, keep-Has (λ item. same item.entry.scarcity turn) (in_tier tier items) m e)

-- The ordered keys are those of the requests.
Has-first_sequences :
    (k : KeyId) (seen : Dict KeyId ℕ) (items : List Queued)
    → Has k (keys (first_sequences seen items))
    → Has k (keys seen) ⊎ Has k (map (λ item. item.entry.key_id) items)
unfolding first_sequences
Has-first_sequences k seen [] h = inl h
Has-first_sequences k seen (x ∷ xs) h = elim (Has-first_sequences k (note_sequence x seen) xs h) [
  | inl m ↦ elim (Has-keys-put k x.entry.key_id _ seen m) [ inl e ↦ inr (inl e) | inr n ↦ inl n ]
  | inr m ↦ inr (inr m)
]

first_sequences-seen :
    (k : KeyId) (seen : Dict KeyId ℕ) (items : List Queued)
    → Has k (keys seen)
    → Has k (keys (first_sequences seen items))
unfolding first_sequences
first_sequences-seen k seen [] h = h
first_sequences-seen k seen (x ∷ xs) h =
    first_sequences-seen k (note_sequence x seen) xs (keys-put-Has k x.entry.key_id _ seen h)

first_sequences-Has :
    (x : Queued) (seen : Dict KeyId ℕ) (items : List Queued)
    → Has x items
    → Has x.entry.key_id (keys (first_sequences seen items))
unfolding first_sequences
first_sequences-Has x seen [] h = absurd h
first_sequences-Has x seen (y ∷ ys) (inl e) = rw e (
    first_sequences-seen y.entry.key_id (note_sequence y seen) ys
      (keys-put_self y.entry.key_id _ seen))
first_sequences-Has x seen (y ∷ ys) (inr h) = first_sequences-Has x (note_sequence y seen) ys h

pub Has-key_order :
    (k : KeyId) (items : List Queued)
    → Has k (key_order items)
    → (x : Queued) × Has x items × (x.entry.key_id ≡ k)
unfolding key_order
Has-key_order k items h =
    elim (Has-first_sequences k [] items (Has-keys_sort _ k (first_sequences [] items) h)) [
      | inl e ↦ absurd e
      | inr m ↦ Has-map (λ item. item.entry.key_id) items m
    ]

pub key_order-Has :
    (x : Queued) (items : List Queued) → Has x items → Has x.entry.key_id (key_order items)
unfolding key_order
key_order-Has x items h = keys_sort-Has _ x.entry.key_id _ (first_sequences-Has x [] items h)

choose_key-Has :
    (cursor : Option KeyId) (ks : List KeyId)
    → null ks ≡ false
    → (k : KeyId) × (choose_key cursor ks ≡ ok k) × Has k ks
unfolding choose_key
choose_key-Has cursor [] h = cc
choose_key-Has none (j ∷ ks) h = (j, refl, inl refl)
choose_key-Has (some c) (j ∷ ks) h = elim (Bool-cases (contains c (j ∷ ks))) [
  | inl t ↦ (c, rw t, contains-Has c (j ∷ ks) t)
  | inr t ↦ (j, rw t, inl refl)
]

index_of-lt :
    (k : KeyId) (ks : List KeyId) → Has k ks → (i : ℕ) × (index_of k ks ≡ ok i) × (i < length ks)
unfolding index_of
index_of-lt k [] h = absurd h
index_of-lt k (j ∷ ks) h = elim (Bool-cases (j == k)) [
  | inl t ↦ (0, rw t, omega arith)
  | inr t ↦ let (i, e, l) = index_of-lt k ks (ground arith) in (suc i, rw (t, e), omega arith)
]

element_at-Returns : (ks : List KeyId) (i : ℕ) → i < length ks → Returns (element_at ks i)
unfolding element_at
element_at-Returns [] i h = absurd (omega arith)
element_at-Returns (k ∷ ks) zero h = (k, refl)
element_at-Returns (k ∷ ks) (suc i) h = element_at-Returns ks i (omega arith)

next_key-Returns :
    (deficit : ℕ) (k : KeyId) (ks : List KeyId) → Has k ks → Returns (next_key deficit k ks)
unfolding next_key
next_key-Returns deficit k ks h =
    let (i, found, inside) = index_of-lt k ks h in
    let (following, e) = element_at-Returns ks ((i + 1) % length ks) (omega arith) in
    (if deficit == 0 then following else k, rw (found, e))

propose_from-of :
    (f : FairnessState) (bound version : ℕ) (x : Queued) (xs : List Queued) (top tier : ℕ)
    (key_id : KeyId) (key_quantum : ℕ) (selected : Queued) (following : KeyId)
    → minimum (map (λ item. item.entry.tier) (x ∷ xs)) ≡ ok top
    → choose_tier f.higher_grant_streak bound top (below_tier top (x ∷ xs)) ≡ ok tier
    → choose_key
        (lookup (tier, class_turn f tier (x ∷ xs)) f.key_cursors)
        (key_order (in_class tier (class_turn f tier (x ∷ xs)) (x ∷ xs)))
      ≡ ok key_id
    → minimum (
        map
          (λ item. item.entry.weight)
          (of_key key_id (in_class tier (class_turn f tier (x ∷ xs)) (x ∷ xs))))
      ≡ ok key_quantum
    → oldest (of_key key_id (in_class tier (class_turn f tier (x ∷ xs)) (x ∷ xs))) ≡ ok selected
    → next_key
        (key_left f tier (x ∷ xs) key_id key_quantum)
        key_id
        (key_order (in_class tier (class_turn f tier (x ∷ xs)) (x ∷ xs)))
      ≡ ok following
    → propose_from f bound version (x ∷ xs)
      ≡ ok (some (selection_of f version (x ∷ xs) top tier key_id key_quantum selected following))
unfolding propose_from
propose_from-of f bound version x xs top tier key_id key_quantum selected following h₁ h₂ h₃ h₄ h₅
      h₆ =
    >>=-of-ok _ _ h₁ (
      >>=-of-ok _ _ h₂
        (>>=-of-ok _ _ h₃ (>>=-of-ok _ _ h₄ (>>=-of-ok _ _ h₅ (>>=-of-ok _ _ h₆ refl)))))

-- The choice behind the filter is made whenever there is a request to choose from.
propose_from-Returns :
    (f : FairnessState) (bound version : ℕ) (items : List Queued)
    → null items ≡ false
    → (s : QueueSelection) × (propose_from f bound version items ≡ ok (some s))
unfolding propose_from
propose_from-Returns f bound version [] h = cc
propose_from-Returns f bound version (x ∷ xs) h =
    let items = x ∷ xs in
    let (top, top_eq) = minimum-Returns (map (λ item. item.entry.tier) items) refl in
    let (tier, tier_eq, (y, m, t)) =
      choose_tier-Tier f.higher_grant_streak bound top (below_tier top items) items
        (λ z k. (Has-keep (λ item. ltb top item.entry.tier) items k).0)
        (Has-map (λ item. item.entry.tier) items
          (minimum-Has (map (λ item. item.entry.tier) items) top_eq)) in
    let (z, in_its_class) = class_turn-Has f tier items y (
      keep-Has (λ item. item.entry.tier == tier) {x = y} items m
        ((==_iff y.entry.tier tier).1 t)) in
    let class_items = in_class tier (class_turn f tier items) items in
    let (key_id, key_eq, k) =
      choose_key-Has (lookup (tier, class_turn f tier items) f.key_cursors) (key_order class_items)
        (Has-nonempty z.entry.key_id (key_order class_items)
          (key_order-Has z class_items in_its_class)) in
    let (w, n, e) = Has-key_order key_id class_items k in
    let of_its_key =
      keep-Has (λ item. item.entry.key_id == key_id) {x = w} class_items n
        ((==_iff w.entry.key_id key_id).1 e) in
    let (key_quantum, quantum_eq) =
      minimum-Returns (map (λ item. item.entry.weight) (of_key key_id class_items)) (
        Has-nonempty w.entry.weight (map (λ item. item.entry.weight) (of_key key_id class_items))
          (map-Has (λ item. item.entry.weight) w (of_key key_id class_items) of_its_key)) in
    let (selected, selected_eq) =
      oldest-Returns (of_key key_id class_items)
        (Has-nonempty w (of_key key_id class_items) of_its_key) in
    let (following, following_eq) =
      next_key-Returns (key_left f tier items key_id key_quantum) key_id (key_order class_items)
        k in
    (
      selection_of f version items top tier key_id key_quantum selected following,
      propose_from-of f bound version x xs top tier key_id key_quantum selected following top_eq
          tier_eq key_eq quantum_eq selected_eq following_eq,
    )

-- `propose` never raises: with nothing queued that is eligible and not excluded it returns `None`,
-- and otherwise it returns a selection.
pub propose_total :
    (eligible : QueueEntry → Bool) (excluded : List RequestId) (q : WdrrQueue)
    → (available eligible excluded q ≡ []) × (propose eligible excluded q ≡ ok none)
      ⊎ ((s : QueueSelection) × (propose eligible excluded q ≡ ok (some s)))
unfolding propose propose_from
propose_total eligible excluded q = go (available eligible excluded q) refl
  where
    go :
        (items : List Queued)
        → available eligible excluded q ≡ items
        → (available eligible excluded q ≡ []) × (propose eligible excluded q ≡ ok none)
          ⊎ ((s : QueueSelection) × (propose eligible excluded q ≡ ok (some s)))
    go [] e = inl (e, rw (e, propose))
    go (x ∷ xs) e = inr (
        rw (e, propose)
          (propose_from-Returns q.fairness q.max_consecutive_higher_grants q.version (x ∷ xs) refl))
