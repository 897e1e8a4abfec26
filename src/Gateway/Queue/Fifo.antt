-- ===== src/Gateway/Queue/Fifo.antt =====
-- src/llmmaxxing/gateway/scheduler.py, `WDRRQueue.propose`: which request a proposal names.
use llmmaxxing.Base.{
  ℕ, ◌≡◌, ap, ◌∙◌, Bool, true, false, not, ◌&&◌, some, List, arith, ◌==◌, ==_iff, same→eq, Has,
  Has-keep, keep-Has, contains, ok, nat_eq,
}
use llmmaxxing.Base.Dict.{values}
use llmmaxxing.Core.Ids.{RequestId}
use llmmaxxing.Gateway.Queue.{WdrrQueue, propose, available}
use llmmaxxing.Gateway.Queue.Entries.{scarcity_eq, QueueEntry, Queued, FairnessState}
use llmmaxxing.Gateway.Queue.Choice.{QueueSelection, older, in_tier, in_class, of_key, class_turn}
use llmmaxxing.Gateway.Queue.Picks.{Pick, propose_from-Pick, oldest-Has, oldest-least}

not_and : (a b : Bool) → (not a && b) ≡ true → (a ≡ false) × (b ≡ true)
not_and a b h = ground arith

and_not : (a b : Bool) → a ≡ false → b ≡ true → (not a && b) ≡ true
and_not a b h k = ground arith

module _ {f : FairnessState} {bound version : ℕ} {items : List Queued} {s : QueueSelection}
    (p : Pick f bound version items s) where
  pub Pick-key :
      Has p.selected (in_class p.tier (class_turn f p.tier items) items)
      × (p.selected.entry.key_id ≡ p.key_id)
  Pick-key =
      let (h, k) =
        Has-keep (λ item. item.entry.key_id == p.key_id)
          (in_class p.tier (class_turn f p.tier items) items) (oldest-Has _ p.selected_eq) in
      (h, (==_iff p.selected.entry.key_id p.key_id).0 k)

  pub Pick-class :
      Has p.selected (in_tier p.tier items)
      × (p.selected.entry.scarcity ≡ class_turn f p.tier items)
  Pick-class =
      let turn = class_turn f p.tier items in
      let (h, k) =
        Has-keep (λ item. scarcity_eq.beq item.entry.scarcity turn) (in_tier p.tier items)
          Pick-key.0 in
      (h, same→eq p.selected.entry.scarcity turn k)

  pub Pick-tier : Has p.selected items × (p.selected.entry.tier ≡ p.tier)
  Pick-tier =
      let (h, k) = Has-keep (λ item. item.entry.tier == p.tier) items Pick-class.0 in
      (h, (==_iff p.selected.entry.tier p.tier).0 k)

  -- A request of the selected one's tier, class and key competes with it for its place.
  pub Pick-rival :
      (other : Queued)
      → Has other items
      → other.entry.tier ≡ p.selected.entry.tier
      → other.entry.scarcity ≡ p.selected.entry.scarcity
      → other.entry.key_id ≡ p.selected.entry.key_id
      → older other p.selected ≡ false
  Pick-rival other h t c k =
      let turn = class_turn f p.tier items in
      let in_its_tier =
        keep-Has (λ item. item.entry.tier == p.tier) items h ((==_iff _ _).1 (t ∙ Pick-tier.1)) in
      let in_its_class =
        keep-Has (λ item. scarcity_eq.beq item.entry.scarcity turn) (in_tier p.tier items)
          in_its_tier ((scarcity_eq.beq_iff _ _).1 (c ∙ Pick-class.1)) in
      oldest-least (of_key p.key_id (in_class p.tier turn items)) other p.selected_eq (
        keep-Has (λ item. item.entry.key_id == p.key_id) (in_class p.tier turn items) in_its_class
          ((==_iff _ _).1 (k ∙ Pick-key.1)))

-- `propose` names a queued request that is eligible and not excluded, and no request that is
-- queued, eligible and not excluded in the same tier, class and key is older than it.
pub propose-fifo :
    (eligible : QueueEntry → Bool) (excluded : List RequestId) (q : WdrrQueue) {s : QueueSelection}
    → propose eligible excluded q ≡ ok (some s)
    → (item : Queued) × (s.entry ≡ item.entry)
      × (s.queue_version ≡ q.version)
      × Has item (values q.queued)
      × (contains item.entry.request_id excluded ≡ false)
      × (eligible item.entry ≡ true)
      × ((other : Queued)
          → Has other (values q.queued)
          → contains other.entry.request_id excluded ≡ false
          → eligible other.entry ≡ true
          → other.entry.tier ≡ item.entry.tier
          → other.entry.scarcity ≡ item.entry.scarcity
          → other.entry.key_id ≡ item.entry.key_id
          → older other item ≡ false)
unfolding propose
propose-fifo eligible excluded q h =
    let p =
      propose_from-Pick q.fairness q.max_consecutive_higher_grants q.version
        (available eligible excluded q) h in
    let test : Queued → Bool =
      λ item. not (contains item.entry.request_id excluded) && eligible item.entry in
    let (queued, passed) = Has-keep test (values q.queued) (Pick-tier p).0 in
    (
      p.selected,
      ap (λ (t : QueueSelection). t.entry) p.result_eq,
      ap (λ (t : QueueSelection). t.queue_version) p.result_eq,
      queued,
      (not_and _ _ passed).0,
      (not_and _ _ passed).1,
      λ other k x e t c y.
          Pick-rival p other (keep-Has test (values q.queued) k (and_not _ _ x e)) t c y,
    )
