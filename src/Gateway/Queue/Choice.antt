-- ===== src/Gateway/Queue/Choice.antt =====
-- src/llmmaxxing/gateway/scheduler.py, `WDRRQueue.propose`: tiers with aging, the 2:1 turn of the
-- scarce and flexible classes, and the weighted turn of the keys in a class.
use llmmaxxing.Base.{
  ℕ, zero, suc, ◌+◌, ◌-◌, ◌*◌, ◌%◌, Bool, ◌&&◌, ◌||◌, Option, none, some, List, [], ◌∷◌, min, ◌==◌,
  ltb, leb, if◌then◌else◌, same, any, keep, length, contains, sort_by, map, Result, ok, raised,
  value_error, index_error, ◌>>=◌, nat_eq, pair_eq,
}
use llmmaxxing.Base.Dict.{Dict, lookup, lookup_or, put, keys}
use llmmaxxing.Core.Ids.{KeyId}
use llmmaxxing.Gateway.Queue.Entries.{
  Scarcity, scarce, flexible, scarcity_eq, QueueEntry, Queued, FairnessState, encode_state,
}

pub record QueueSelection : Type 0 where
  pub entry : QueueEntry
  pub queue_version : ℕ
  pub fairness : FairnessState

-- `min(xs)`: raises on no values.
unfoldable pub min_from : ℕ → List ℕ → ℕ
min_from m [] = m
min_from m (y ∷ ys) = min_from (min m y) ys

unfoldable pub minimum : List ℕ → Result ℕ
minimum [] = raised value_error
minimum (x ∷ xs) = ok (min_from x xs)

-- The order of `(sequence, request id)`.
abbrev pub older : Queued → Queued → Bool
older a b =
    ltb a.sequence b.sequence
    || a.sequence == b.sequence && ltb a.entry.request_id b.entry.request_id

unfoldable pub oldest_from : Queued → List Queued → Queued
oldest_from m [] = m
oldest_from m (y ∷ ys) = oldest_from (if older y m then y else m) ys

-- `_oldest`.
unfoldable pub oldest : List Queued → Result Queued
oldest [] = raised value_error
oldest (x ∷ xs) = ok (oldest_from x xs)

-- After `bound` grants in a row to a higher tier, the oldest request of a lower tier decides.
unfoldable pub choose_tier : ℕ → ℕ → ℕ → List Queued → Result ℕ
choose_tier streak bound top [] = ok top
choose_tier streak bound top (x ∷ xs) =
    if leb bound streak then ok (oldest_from x xs).entry.tier else ok top

abbrev pub other_class : Scarcity → Scarcity
other_class scarce = flexible
other_class flexible = scarce

abbrev pub quantum : Scarcity → ℕ
quantum scarce = 2
quantum flexible = 1

-- The loop that leaves a class with no request: `for _ in range(rounds)`.
unfoldable pub settle : ℕ → List Queued → Scarcity → Scarcity
settle zero items s = s
settle (suc n) items s =
    let rest = settle n items (other_class s) in
    if any (λ item. same item.entry.scarcity s) items then s else rest

-- The deficit that a turn starts with.
unfoldable pub replenish : ℕ → ℕ → ℕ
replenish deficit share =
    let capped = min deficit (8 * share) in
    if leb capped 0 then min (capped + share) (8 * share) else capped

-- `first_sequence`: the oldest sequence number of each key.
abbrev pub note_sequence : Queued → Dict KeyId ℕ → Dict KeyId ℕ
note_sequence item seen =
    put item.entry.key_id (min item.sequence (lookup_or item.entry.key_id item.sequence seen)) seen

unfoldable pub first_sequences : Dict KeyId ℕ → List Queued → Dict KeyId ℕ
first_sequences seen [] = seen
first_sequences seen (item ∷ items) = first_sequences (note_sequence item seen) items

-- The keys of a class, the one with the oldest request first.
unfoldable pub key_order : List Queued → List KeyId
unfolding first_sequences
key_order items =
    keys (sort_by (λ a b. ltb a.1 b.1 || a.1 == b.1 && ltb a.0 b.0) (first_sequences [] items))

unfoldable pub choose_key : Option KeyId → List KeyId → Result KeyId
choose_key cursor [] = raised index_error
choose_key none (k ∷ ks) = ok k
choose_key (some c) (k ∷ ks) = ok (if contains c (k ∷ ks) then c else k)

-- `keys[(keys.index(key_id) + 1) % len(keys)]`.
unfoldable pub index_of : KeyId → List KeyId → Result ℕ
index_of key_id [] = raised value_error
index_of key_id (k ∷ ks) =
    let rest = index_of key_id ks in if k == key_id then ok 0 else rest >>= λ i. ok (suc i)

unfoldable pub element_at : List KeyId → ℕ → Result KeyId
element_at [] i = raised index_error
element_at (k ∷ ks) zero = ok k
element_at (k ∷ ks) (suc i) = element_at ks i

unfoldable pub next_key : ℕ → KeyId → List KeyId → Result KeyId
unfolding index_of element_at
next_key deficit key_id ordered = do
  index ← index_of key_id ordered
  following ← element_at ordered ((index + 1) % length ordered)
  ok (if deficit == 0 then following else key_id)

-- The state after a grant to `key_id`, out of the class `(tier, scarcity)`.
unfoldable pub fairness_after :
    FairnessState → ℕ → Scarcity → KeyId → ℕ → ℕ → KeyId → ℕ → FairnessState
unfolding encode_state
fairness_after f tier scarcity key_id class_deficit key_deficit following streak =
    encode_state (put (tier, scarcity) class_deficit f.class_deficits)
      (put tier (if class_deficit == 0 then other_class scarcity else scarcity) f.class_cursors)
      (put ((tier, scarcity), key_id) key_deficit f.key_deficits)
      (put (tier, scarcity) following f.key_cursors) streak

abbrev pub in_tier : ℕ → List Queued → List Queued
in_tier tier = keep (λ item. item.entry.tier == tier)

abbrev pub below_tier : ℕ → List Queued → List Queued
below_tier tier = keep (λ item. ltb tier item.entry.tier)

abbrev pub in_class : ℕ → Scarcity → List Queued → List Queued
in_class tier scarcity items = keep (λ item. same item.entry.scarcity scarcity) (in_tier tier items)

abbrev pub of_key : KeyId → List Queued → List Queued
of_key key_id = keep (λ item. item.entry.key_id == key_id)

abbrev pub class_turn : FairnessState → ℕ → List Queued → Scarcity
class_turn f tier items = settle 2 (in_tier tier items) (lookup_or tier scarce f.class_cursors)

-- The streak of grants to a higher tier while a lower one waits.
abbrev pub next_streak : ℕ → ℕ → ℕ → List Queued → ℕ
next_streak streak tier top [] = 0
next_streak streak tier top (x ∷ xs) = if tier == top then streak + 1 else 0

-- The deficits left after the grant.
abbrev pub class_left : FairnessState → ℕ → List Queued → ℕ
class_left f tier items =
    let turn = class_turn f tier items in
    replenish (lookup_or (tier, turn) 0 f.class_deficits) (quantum turn) - 1

abbrev pub key_left : FairnessState → ℕ → List Queued → KeyId → ℕ → ℕ
key_left f tier items key_id key_quantum =
    replenish (lookup_or ((tier, class_turn f tier items), key_id) 0 f.key_deficits) key_quantum - 1

-- The value that `propose` returns, out of what it has chosen.
abbrev pub selection_of :
    FairnessState → ℕ → List Queued → ℕ → ℕ → KeyId → ℕ → Queued → KeyId → QueueSelection
selection_of f version items top tier key_id key_quantum selected following = record {
  entry = selected.entry;
  queue_version = version;
  fairness =
      fairness_after f tier (class_turn f tier items) key_id (class_left f tier items)
        (key_left f tier items key_id key_quantum) following
        (next_streak f.higher_grant_streak tier top (below_tier top items));
}

-- `propose` behind its filter; `items` are the available requests.
unfoldable pub propose_from : FairnessState → ℕ → ℕ → List Queued → Result (Option QueueSelection)
propose_from f bound version [] = ok none
propose_from f bound version (x ∷ xs) = do
  let items = x ∷ xs
  top ← minimum (map (λ item. item.entry.tier) items)
  tier ← choose_tier f.higher_grant_streak bound top (below_tier top items)
  let class_items = in_class tier (class_turn f tier items) items
  let ordered = key_order class_items
  key_id ← choose_key (lookup (tier, class_turn f tier items) f.key_cursors) ordered
  key_quantum ← minimum (map (λ item. item.entry.weight) (of_key key_id class_items))
  selected ← oldest (of_key key_id class_items)
  following ← next_key (key_left f tier items key_id key_quantum) key_id ordered
  ok (some (selection_of f version items top tier key_id key_quantum selected following))
