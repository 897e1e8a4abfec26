-- ===== src/Gateway/Queue/Picks.antt =====
-- src/llmmaxxing/gateway/scheduler.py, `WDRRQueue.propose`: what a proposal consists of, read back
-- from the code, and the lemmas on its minima.
use llmmaxxing.Base.{
  ℕ, ◌≤◌, ◌≡◌, refl, sym, ap, subst, ◌⊎◌, inl, inr, true, false, some, List, [], ◌∷◌, min, arith,
  if◌then◌else◌, Bool-cases, Has, map, ok, ok-injective, ok_some-injective, >>=-eq-ok, nat_eq,
  pair_eq,
}
use llmmaxxing.Base.Dict.{lookup}
use llmmaxxing.Core.Ids.{KeyId}
use llmmaxxing.Gateway.Queue.Entries.{scarcity_eq, Queued, FairnessState}
use llmmaxxing.Gateway.Queue.Choice.{
  QueueSelection, min_from, minimum, older, oldest_from, oldest, choose_tier, key_order, choose_key,
  next_key, below_tier, in_class, of_key, class_turn, key_left, selection_of, propose_from,
}

Has-min_from : (m : ℕ) (xs : List ℕ) → Has (min_from m xs) (m ∷ xs)
unfolding min_from
Has-min_from m [] = inl refl
Has-min_from m (y ∷ ys) = ground (arith, Has-min_from (min m y) ys)

min_from-le : (m : ℕ) (xs : List ℕ) → min_from m xs ≤ m
unfolding min_from
min_from-le m [] = omega arith
min_from-le m (y ∷ ys) = omega (arith, min_from-le (min m y) ys)

min_from-le_mem : (m x : ℕ) (xs : List ℕ) → Has x xs → min_from m xs ≤ x
unfolding min_from
min_from-le_mem m x [] h = absurd h
min_from-le_mem m x (y ∷ ys) (inl e) = omega (arith, min_from-le (min m y) ys)
min_from-le_mem m x (y ∷ ys) (inr h) = min_from-le_mem (min m y) x ys h

-- `min` of values that are there is one of them, and below all.
pub minimum-Has : (xs : List ℕ) {m : ℕ} → minimum xs ≡ ok m → Has m xs
unfolding minimum
minimum-Has [] h = cc
minimum-Has (x ∷ xs) h = ground (arith, Has-min_from x xs)

pub minimum-le : (xs : List ℕ) {m : ℕ} (x : ℕ) → minimum xs ≡ ok m → Has x xs → m ≤ x
unfolding minimum
minimum-le [] x h k = absurd k
minimum-le (y ∷ ys) x h (inl e) = ground (arith, min_from-le y ys)
minimum-le (y ∷ ys) x h (inr k) = ground (arith, min_from-le_mem y x ys k)

older-not_older : (y m r : Queued) → older y m ≡ true → older y r ≡ false → older m r ≡ false
older-not_older y m r h k = ground arith

not_older_trans : (y m r : Queued) → older y m ≡ false → older m r ≡ false → older y r ≡ false
not_older_trans y m r h k = ground arith

not_older_refl : (m : Queued) → older m m ≡ false
not_older_refl m = ground arith

oldest_from-step :
    (m y : Queued) (ys : List Queued)
    → (older y m ≡ true) × (oldest_from m (y ∷ ys) ≡ oldest_from y ys)
      ⊎ (older y m ≡ false) × (oldest_from m (y ∷ ys) ≡ oldest_from m ys)
unfolding oldest_from
oldest_from-step m y ys = elim (Bool-cases (older y m)) [
  | inl h ↦ inl (h, ap (λ b. oldest_from (if b then y else m) ys) h)
  | inr h ↦ inr (h, ap (λ b. oldest_from (if b then y else m) ys) h)
]

pub Has-oldest_from : (m : Queued) (xs : List Queued) → Has (oldest_from m xs) (m ∷ xs)
unfolding oldest_from
Has-oldest_from m [] = inl refl
Has-oldest_from m (y ∷ ys) = elim (oldest_from-step m y ys) [
  | inl (h, e) ↦ subst (λ r. Has r (m ∷ y ∷ ys)) (sym e) (inr (Has-oldest_from y ys))
  | inr (h, e) ↦ subst (λ r. Has r (m ∷ y ∷ ys)) (sym e) (weaken (Has-oldest_from m ys))
]
  where
    weaken : {r : Queued} → Has r (m ∷ ys) → Has r (m ∷ y ∷ ys)
    weaken (inl e) = inl e
    weaken (inr h) = inr (inr h)

oldest_from-first : (m : Queued) (xs : List Queued) → older m (oldest_from m xs) ≡ false
unfolding oldest_from
oldest_from-first m [] = not_older_refl m
oldest_from-first m (y ∷ ys) = elim (oldest_from-step m y ys) [
  | inl (h, e) ↦
      subst (λ r. older m r ≡ false) (sym e)
        (older-not_older y m (oldest_from y ys) h (oldest_from-first y ys))
  | inr (h, e) ↦ subst (λ r. older m r ≡ false) (sym e) (oldest_from-first m ys)
]

oldest_from-least :
    (m x : Queued) (xs : List Queued) → Has x xs → older x (oldest_from m xs) ≡ false
oldest_from-least m x [] h = absurd h
oldest_from-least m x (y ∷ ys) h = elim (oldest_from-step m y ys) [
  | inl (t, e) ↦
      subst (λ r. older x r ≡ false) (sym e)
        (elim h [
          | inl k ↦ subst (λ z. older z (oldest_from y ys) ≡ false) (sym k) (oldest_from-first y ys)
          | inr k ↦ oldest_from-least y x ys k
        ])
  | inr (t, e) ↦
      subst (λ r. older x r ≡ false) (sym e)
        (elim h [
          | inl k ↦
              not_older_trans x m (oldest_from m ys) (subst (λ z. older z m ≡ false) (sym k) t)
                (oldest_from-first m ys)
          | inr k ↦ oldest_from-least m x ys k
        ])
]

pub oldest-Has : (xs : List Queued) {o : Queued} → oldest xs ≡ ok o → Has o xs
unfolding oldest
oldest-Has [] h = cc
oldest-Has (x ∷ xs) h = ground (arith, Has-oldest_from x xs)

pub oldest-least :
    (xs : List Queued) {o : Queued} (x : Queued) → oldest xs ≡ ok o → Has x xs → older x o ≡ false
unfolding oldest
oldest-least [] x h k = absurd k
oldest-least (y ∷ ys) {o} x h k =
    subst (λ r. older x r ≡ false) (ok-injective h)
      (elim k [
        | inl e ↦ subst (λ z. older z (oldest_from y ys) ≡ false) (sym e) (oldest_from-first y ys)
        | inr m ↦ oldest_from-least y x ys m
      ])

-- What a proposal consists of: each field is a step of the code with its outcome.
pub record Pick (f : FairnessState) (bound version : ℕ) (items : List Queued) (s : QueueSelection)
    : Type 0 where
  pub top : ℕ
  pub tier : ℕ
  pub key_id : KeyId
  pub key_quantum : ℕ
  pub selected : Queued
  pub following : KeyId
  pub top_eq : minimum (map (λ item. item.entry.tier) items) ≡ ok top
  pub tier_eq : choose_tier f.higher_grant_streak bound top (below_tier top items) ≡ ok tier
  pub key_eq :
      choose_key
        (lookup (tier, class_turn f tier items) f.key_cursors)
        (key_order (in_class tier (class_turn f tier items) items))
      ≡ ok key_id
  pub quantum_eq :
      minimum (
        map
          (λ item. item.entry.weight)
          (of_key key_id (in_class tier (class_turn f tier items) items)))
      ≡ ok key_quantum
  pub selected_eq :
      oldest (of_key key_id (in_class tier (class_turn f tier items) items)) ≡ ok selected
  pub following_eq :
      next_key
        (key_left f tier items key_id key_quantum)
        key_id
        (key_order (in_class tier (class_turn f tier items) items))
      ≡ ok following
  pub result_eq : s ≡ selection_of f version items top tier key_id key_quantum selected following

pub propose_from-Pick :
    (f : FairnessState) (bound version : ℕ) (items : List Queued) {s : QueueSelection}
    → propose_from f bound version items ≡ ok (some s)
    → Pick f bound version items s
unfolding propose_from
propose_from-Pick f bound version [] h = cc
propose_from-Pick f bound version (x ∷ xs) h =
    let (top, top_eq, h₁) = >>=-eq-ok _ _ h in
    let (tier, tier_eq, h₂) = >>=-eq-ok _ _ h₁ in
    let (key_id, key_eq, h₃) = >>=-eq-ok _ _ h₂ in
    let (key_quantum, quantum_eq, h₄) = >>=-eq-ok _ _ h₃ in
    let (selected, selected_eq, h₅) = >>=-eq-ok _ _ h₄ in
    let (following, following_eq, h₆) = >>=-eq-ok _ _ h₅ in
    record {
      top = top;
      tier = tier;
      key_id = key_id;
      key_quantum = key_quantum;
      selected = selected;
      following = following;
      top_eq = top_eq;
      tier_eq = tier_eq;
      key_eq = key_eq;
      quantum_eq = quantum_eq;
      selected_eq = selected_eq;
      following_eq = following_eq;
      result_eq = sym (ok_some-injective h₆);
    }
