-- ===== src/Gateway/Queue/Aging.antt =====
-- src/llmmaxxing/gateway/scheduler.py, `WDRRQueue.propose`: strict tiers, and the aging bound that
-- lets a lower tier through.
use llmmaxxing.Base.{
  ℕ, ◌≤◌, ◌<◌, ◌≡◌, sym, ap, ◌∙◌, subst, Bool, false, some, List, [], ◌∷◌, arith, ltb, ltb→lt,
  lt→ltb, Has-nonempty, Has, Has-keep, keep-Has, map-Has, Has-map, map, ok, ok-injective, null,
}
use llmmaxxing.Core.Ids.{RequestId}
use llmmaxxing.Gateway.Queue.{WdrrQueue, propose, available}
use llmmaxxing.Gateway.Queue.Entries.{QueueEntry, Queued}
use llmmaxxing.Gateway.Queue.Choice.{
  QueueSelection, oldest_from, choose_tier, below_tier, next_streak, fairness_after,
}
use llmmaxxing.Gateway.Queue.Picks.{
  Pick, propose_from-Pick, minimum-Has, minimum-le, Has-oldest_from,
}
use llmmaxxing.Gateway.Queue.Fifo.{Pick-tier}

-- With no aging due, or with no lower tier, the top tier is chosen.
choose_tier_top :
    (streak bound top : ℕ) (lower : List Queued) {tier : ℕ}
    → choose_tier streak bound top lower ≡ ok tier
    → streak < bound
    → tier ≡ top
unfolding choose_tier
choose_tier_top streak bound top [] h l = sym (ok-injective h)
choose_tier_top streak bound top (x ∷ xs) h l = ground arith

choose_tier_forced :
    (streak bound top : ℕ) (lower : List Queued) {tier : ℕ}
    → choose_tier streak bound top lower ≡ ok tier
    → bound ≤ streak
    → null lower ≡ false
    → (o : Queued) × Has o lower × (o.entry.tier ≡ tier)
unfolding choose_tier
choose_tier_forced streak bound top [] h l n = cc
choose_tier_forced streak bound top (x ∷ xs) h l n =
    (oldest_from x xs, Has-oldest_from x xs, ground arith)

below_tier-lt :
    (top : ℕ) (items : List Queued) (o : Queued) → Has o (below_tier top items) → top < o.entry.tier
below_tier-lt top items o h =
    ltb→lt top o.entry.tier (Has-keep (λ item. ltb top item.entry.tier) items h).1

next_streak-le :
    (streak bound top : ℕ) (lower : List Queued) {tier : ℕ}
    → choose_tier streak bound top lower ≡ ok tier
    → ((o : Queued) → Has o lower → top < o.entry.tier)
    → streak ≤ bound
    → next_streak streak tier top lower ≤ bound
unfolding choose_tier
next_streak-le streak bound top [] h low l = omega arith
next_streak-le streak bound top (x ∷ xs) h low l =
    ground (arith, low (oldest_from x xs) (Has-oldest_from x xs))

module _ (eligible : QueueEntry → Bool) (excluded : List RequestId) (q : WdrrQueue)
    {s : QueueSelection} (h : propose eligible excluded q ≡ ok (some s)) where
  picked :
      Pick q.fairness q.max_consecutive_higher_grants q.version (available eligible excluded q) s
  unfolding propose
  picked =
      propose_from-Pick q.fairness q.max_consecutive_higher_grants q.version
        (available eligible excluded q) h

  entry_tier : s.entry.tier ≡ picked.tier
  entry_tier = ap (λ (t : QueueSelection). t.entry.tier) picked.result_eq ∙ (Pick-tier picked).1

  top-le : (x : Queued) → Has x (available eligible excluded q) → picked.top ≤ x.entry.tier
  top-le x m =
      minimum-le (map (λ item. item.entry.tier) (available eligible excluded q)) x.entry.tier
        picked.top_eq (map-Has (λ item. item.entry.tier) x (available eligible excluded q) m)

  -- While fewer than the bound of grants in a row went to a higher tier, `propose` picks from the
  -- lowest-numbered tier with an available request.
  pub propose_strict :
      q.fairness.higher_grant_streak < q.max_consecutive_higher_grants
      → (x : Queued) → Has x (available eligible excluded q)
      → s.entry.tier ≤ x.entry.tier
  propose_strict l x m =
      omega (arith, entry_tier, top-le x m, choose_tier_top _ _ picked.top _ picked.tier_eq l)

  -- Once the bound is reached and a lower tier has an available request, `propose` passes over the
  -- requests of the top tier: some available request stands in a higher tier than the selected one.
  pub propose_ages :
      (a b : Queued)
      → q.max_consecutive_higher_grants ≤ q.fairness.higher_grant_streak
      → Has a (available eligible excluded q)
      → Has b (available eligible excluded q)
      → a.entry.tier < b.entry.tier
      → (x : Queued) × Has x (available eligible excluded q) × (x.entry.tier < s.entry.tier)
  propose_ages a b l ha hb lt =
      let (x, m, e) =
        Has-map (λ item. item.entry.tier) (available eligible excluded q)
          (minimum-Has (map (λ item. item.entry.tier) (available eligible excluded q))
            picked.top_eq) in
      let waiting =
        keep-Has (λ item. ltb picked.top item.entry.tier) (available eligible excluded q) hb
          (lt→ltb _ _ (omega (arith, top-le a ha))) in
      let lower = below_tier picked.top (available eligible excluded q) in
      let (o, n, k) =
        choose_tier_forced _ _ picked.top lower picked.tier_eq l (Has-nonempty b lower waiting) in
      (
        x,
        m,
        omega (arith, entry_tier, below_tier-lt picked.top (available eligible excluded q) o n),
      )

  -- The streak never passes the bound.
  pub propose_streak-le :
      q.fairness.higher_grant_streak ≤ q.max_consecutive_higher_grants
      → s.fairness.higher_grant_streak ≤ q.max_consecutive_higher_grants
  unfolding fairness_after
  propose_streak-le l =
      subst
        (λ (t : QueueSelection). t.fairness.higher_grant_streak ≤ q.max_consecutive_higher_grants)
        (sym picked.result_eq)
        (next_streak-le _ _ picked.top (below_tier picked.top (available eligible excluded q))
          picked.tier_eq (below_tier-lt picked.top (available eligible excluded q)) l)
