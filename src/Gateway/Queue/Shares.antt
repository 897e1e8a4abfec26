-- ===== src/Gateway/Queue/Shares.antt =====
-- src/llmmaxxing/gateway/scheduler.py, `WDRRQueue.propose`: the shares of the two classes. The
-- abstract view of a tier is the phase of its turn.
use llmmaxxing.Base.{
  ℕ, ◌-◌, ◌≡◌, refl, sym, ap, ◌∙◌, subst, Bool, true, false, some, List, arith, ◌==◌, ltb,
  if◌then◌else◌, ==_refl, same, same_refl, any, any-Has, Has, or_default, ok, nat_eq, pair_eq,
}
use llmmaxxing.Base.Dict.{lookup, lookup_or, put, lookup-put}
use llmmaxxing.Base.Dict.Order.{lookup-sort_items}
use llmmaxxing.Core.Ids.{RequestId, KeyId}
use llmmaxxing.Gateway.Queue.{WdrrQueue, propose, available}
use llmmaxxing.Gateway.Queue.Entries.{
  Scarcity, scarce, flexible, scarcity_eq, QueueEntry, Queued, FairnessState, ClassKey,
  class_before, no_fairness,
}
use llmmaxxing.Gateway.Queue.Choice.{
  QueueSelection, other_class, quantum, replenish, settle, in_tier, class_turn, key_left,
  next_streak, below_tier, fairness_after,
}
use llmmaxxing.Gateway.Queue.Picks.{propose_from-Pick}
use llmmaxxing.Gateway.Queue.Fifo.{Pick-tier, Pick-class}

class_before_irrefl : (k : ClassKey) → class_before k k ≡ false
class_before_irrefl (t, scarce) = ground arith
class_before_irrefl (t, flexible) = ground arith

ltb_irrefl : (n : ℕ) → ltb n n ≡ false
ltb_irrefl n = ground arith

module _ (f : FairnessState) (tier : ℕ) (turn : Scarcity) (key_id : KeyId)
    (class_deficit key_deficit : ℕ) (following : KeyId) (streak : ℕ) where
  abbrev after : FairnessState
  after = fairness_after f tier turn key_id class_deficit key_deficit following streak

  class_deficits-after :
      (j : ClassKey)
      → lookup j after.class_deficits
        ≡ (if same (tier, turn) j then some class_deficit else lookup j f.class_deficits)
  unfolding fairness_after
  class_deficits-after j =
      lookup-sort_items class_before class_before_irrefl j
        (put (tier, turn) class_deficit f.class_deficits)
      ∙ lookup-put (tier, turn) j class_deficit f.class_deficits

  class_cursors-after :
      (t : ℕ)
      → lookup t after.class_cursors ≡ (
          if same tier t
          then some (if class_deficit == 0 then other_class turn else turn)
          else lookup t f.class_cursors)
  unfolding fairness_after
  class_cursors-after t =
      lookup-sort_items ltb ltb_irrefl t (put tier _ f.class_cursors)
      ∙ lookup-put tier t _ f.class_cursors

-- The phases of a tier's turn, and the class that each of them serves.
pub data Phase : Type 0 where
  scarce_first scarce_second flexible_turn : Phase

abbrev pub next_phase : Phase → Phase
next_phase scarce_first = scarce_second
next_phase scarce_second = flexible_turn
next_phase flexible_turn = scarce_first

abbrev pub served : Phase → Scarcity
served scarce_first = scarce
served scarce_second = scarce
served flexible_turn = flexible

-- The fairness state holds that phase for the tier.
pub record InPhase (f : FairnessState) (tier : ℕ) (phase : Phase) : Type 0 where
  pub cursor : lookup_or tier scarce f.class_cursors ≡ served phase
  pub scarce_deficit :
      lookup_or (tier, scarce) 0 f.class_deficits ≡ elim phase [ scarce_second ↦ 1 | _ ↦ 0 ]
  pub flexible_deficit : lookup_or (tier, flexible) 0 f.class_deficits ≡ 0

pub no_fairness-InPhase : (tier : ℕ) → InPhase no_fairness tier scarce_first
no_fairness-InPhase tier = record { cursor = refl; scarce_deficit = refl; flexible_deficit = refl }

-- Both classes have a request in the tier.
abbrev pub BothWait : ℕ → List Queued → Type 0
BothWait tier items =
    (a b : Queued) × Has a (in_tier tier items)
    × Has b (in_tier tier items)
    × (a.entry.scarcity ≡ scarce)
    × (b.entry.scarcity ≡ flexible)

any_class :
    (items : List Queued) (x : Queued)
    → Has x items
    → any (λ item. same item.entry.scarcity x.entry.scarcity) items ≡ true
any_class items x h =
    any-Has (λ item. same item.entry.scarcity x.entry.scarcity) {x = x} items h
      (same_refl x.entry.scarcity)

both_any :
    (tier : ℕ) (items : List Queued) (c : Scarcity)
    → BothWait tier items
    → any (λ item. same item.entry.scarcity c) (in_tier tier items) ≡ true
both_any tier items scarce (a, b, ha, hb, ea, eb) = rw ea at (any_class (in_tier tier items) a ha)
both_any tier items flexible (a, b, ha, hb, ea, eb) = rw eb at (any_class (in_tier tier items) b hb)

turn-cursor :
    (f : FairnessState) (tier : ℕ) (items : List Queued) (c : Scarcity)
    → lookup_or tier scarce f.class_cursors ≡ c
    → BothWait tier items
    → class_turn f tier items ≡ c
unfolding settle
turn-cursor f tier items c e h = rw (e, settle, both_any tier items c h)

module _ (f : FairnessState) (tier : ℕ) (key_id : KeyId) (key_deficit : ℕ) (following : KeyId)
    (streak : ℕ) where
  abbrev granted : Scarcity → ℕ → FairnessState
  granted turn left = after f tier turn key_id left key_deficit following streak

  granted-cursor :
      (turn : Scarcity) (left : ℕ)
      → lookup_or tier scarce (granted turn left).class_cursors
        ≡ (if left == 0 then other_class turn else turn)
  granted-cursor turn left =
      ap (or_default scarce)
        (class_cursors-after f tier turn key_id left key_deficit following streak tier)
      ∙ rw (==_refl tier)

  granted_self :
      (turn : Scarcity) (left : ℕ)
      → lookup_or (tier, turn) 0 (granted turn left).class_deficits ≡ left
  granted_self turn left =
      ap (or_default 0)
        (class_deficits-after f tier turn key_id left key_deficit following streak (tier, turn))
      ∙ rw (==_refl tier, same_refl turn)

  granted-other :
      (turn other : Scarcity) (left : ℕ)
      → same turn other ≡ false
      → lookup_or (tier, other) 0 (granted turn left).class_deficits
        ≡ lookup_or (tier, other) 0 f.class_deficits
  granted-other turn other left h =
      ap (or_default 0)
        (class_deficits-after f tier turn key_id left key_deficit following streak (tier, other))
      ∙ rw (==_refl tier, h)

  granted-InPhase :
      (phase : Phase)
      → InPhase f tier phase
      → InPhase
          (granted (served phase) (
            replenish (lookup_or (tier, served phase) 0 f.class_deficits) (quantum (served phase))
            - 1))
          tier
          (next_phase phase)
  unfolding replenish
  granted-InPhase scarce_first h = rw h.scarce_deficit (record {
    cursor = granted-cursor scarce 1;
    scarce_deficit = granted_self scarce 1;
    flexible_deficit = granted-other scarce flexible 1 refl ∙ h.flexible_deficit;
  })
  granted-InPhase scarce_second h = rw h.scarce_deficit (record {
    cursor = granted-cursor scarce 0;
    scarce_deficit = granted_self scarce 0;
    flexible_deficit = granted-other scarce flexible 0 refl ∙ h.flexible_deficit;
  })
  granted-InPhase flexible_turn h = rw h.flexible_deficit (record {
    cursor = granted-cursor flexible 0;
    scarce_deficit = granted-other flexible scarce 0 refl ∙ h.scarce_deficit;
    flexible_deficit = granted_self flexible 0;
  })

  granted-turn :
      (phase : Phase) (turn : Scarcity)
      → turn ≡ served phase
      → InPhase f tier phase
      → InPhase
          (granted turn (replenish (lookup_or (tier, turn) 0 f.class_deficits) (quantum turn) - 1))
          tier
          (next_phase phase)
  granted-turn phase turn e h = rw e (granted-InPhase phase h)

-- While both classes of the selected tier have an available request, `propose` serves the class of
-- the tier's phase, and leaves the tier in the next phase: two grants go to the scarce class for
-- each one to the flexible class.
pub propose-phase :
    (eligible : QueueEntry → Bool) (excluded : List RequestId) (q : WdrrQueue) (phase : Phase)
    {s : QueueSelection}
    → propose eligible excluded q ≡ ok (some s)
    → InPhase q.fairness s.entry.tier phase
    → BothWait s.entry.tier (available eligible excluded q)
    → (s.entry.scarcity ≡ served phase) × InPhase s.fairness s.entry.tier (next_phase phase)
unfolding propose
propose-phase eligible excluded q phase {s} h inp both =
    let items = available eligible excluded q in
    let p = propose_from-Pick q.fairness q.max_consecutive_higher_grants q.version items h in
    let at_tier = ap (λ (t : QueueSelection). t.entry.tier) p.result_eq ∙ (Pick-tier p).1 in
    let inp' = subst (λ t. InPhase q.fairness t phase) at_tier inp in
    let both' = subst (λ t. BothWait t items) at_tier both in
    let turn_is = turn-cursor q.fairness p.tier items (served phase) inp'.cursor both' in
    let class_is =
      ap (λ (t : QueueSelection). t.entry.scarcity) p.result_eq ∙ (Pick-class p).1 ∙ turn_is in
    let left = key_left q.fairness p.tier items p.key_id p.key_quantum in
    let streak = next_streak q.fairness.higher_grant_streak p.tier p.top (below_tier p.top items) in
    (
      class_is,
      subst (λ t. InPhase s.fairness t (next_phase phase)) (sym at_tier)
          (subst (λ (t : QueueSelection). InPhase t.fairness p.tier (next_phase phase))
            (sym p.result_eq)
            (granted-turn q.fairness p.tier p.key_id left p.following streak phase
              (class_turn q.fairness p.tier items) turn_is inp')),
    )
