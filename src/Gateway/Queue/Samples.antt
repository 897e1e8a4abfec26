-- ===== src/Gateway/Queue/Samples.antt =====
-- Concrete queues: tests of the queue's operations, and its theorems at inputs that meet their
-- hypotheses.
use llmmaxxing.Base.{
  ℕ, ◌≤◌, ◌<◌, ◌≡◌, refl, ◌⊎◌, inl, inr, Bool, true, false, none, some, [], ◌∷◌, arith, Has,
  contains, ok, raised, runtime_error, nat_eq,
}
use llmmaxxing.Base.Dict.{lookup, values}
use llmmaxxing.Core.Reasons.{RouteTrigger, EndpointKind, Modality}
use llmmaxxing.Core.Models.Legs.{LegCapabilities, AuthorizedLeg, leg_meet, capabilities_meet}
use llmmaxxing.Gateway.Queue.{
  WdrrQueue, enqueue, cancel, contract, propose, commit, available, snapshot, restore,
  leg_contracts, expands,
}
use llmmaxxing.Gateway.Queue.Entries.{
  scarce, flexible, QueueEntry, Queued, no_fairness, queue_entry,
}
use llmmaxxing.Gateway.Queue.Choice.{
  QueueSelection, older, minimum, min_from, oldest, oldest_from, choose_tier, settle, replenish,
  key_order, choose_key, next_key, fairness_after, propose_from,
}
use llmmaxxing.Gateway.Queue.Fifo.{propose-fifo}
use llmmaxxing.Gateway.Queue.Progress.{propose_total}
use llmmaxxing.Gateway.Queue.Aging.{propose_strict, propose_ages, propose_streak-le}
use llmmaxxing.Gateway.Queue.Shares.{
  InPhase, BothWait, scarce_first, next_phase, served, propose-phase, no_fairness-InPhase,
}
use llmmaxxing.Gateway.Queue.Invariant.{IsValid}
use llmmaxxing.Gateway.Queue.Commits.{committed, propose-commit, enqueue-cancel}
use llmmaxxing.Gateway.Queue.Contraction.{IsContraction, contract-IsContraction}
use llmmaxxing.Gateway.Queue.Snapshots.{restore-snapshot}

abbrev chat_only : LegCapabilities
chat_only = record {
  endpoints = EndpointKind.chat ∷ [];
  modalities = Modality.chat ∷ [];
  context_tokens = 8000;
  tools = true;
  forced_tool = false;
  response_schema = false;
  streaming = true;
  reasoning = false;
  history_continuation = true;
  shadow = false;
}

abbrev leg : ℕ → ℕ → AuthorizedLeg
leg id account = record {
  leg_id = id;
  account_id = account;
  generation_id = 50;
  order = id;
  allowed_triggers = RouteTrigger.primary ∷ RouteTrigger.capacity_spill ∷ [];
  capabilities = chat_only;
}

abbrev one_account : QueueEntry
one_account = record {
  request_id = 1;
  key_id = 7;
  tier = 0;
  weight = 4;
  authorized_legs = leg 1 10 ∷ [];
  scarcity = scarce;
}

abbrev two_accounts : QueueEntry
two_accounts = record {
  request_id = 2;
  key_id = 8;
  tier = 0;
  weight = 1;
  authorized_legs = leg 1 10 ∷ leg 2 11 ∷ [];
  scarcity = flexible;
}

abbrev low_tier : QueueEntry
low_tier = record {
  request_id = 3;
  key_id = 9;
  tier = 1;
  weight = 1;
  authorized_legs = leg 1 10 ∷ [];
  scarcity = scarce;
}

abbrev sample : WdrrQueue
sample = record {
  queued =
      (1, record { entry = one_account; sequence = 0 })
      ∷ (2, record { entry = two_accounts; sequence = 1 })
      ∷ (3, record { entry = low_tier; sequence = 2 })
      ∷ [];
  next_sequence = 3;
  version = 3;
  fairness = no_fairness;
  max_consecutive_higher_grants = 2;
}

-- Two grants went to the higher tier while the low one waited.
abbrev aged : WdrrQueue
aged = record sample { fairness = record no_fairness { higher_grant_streak = 2 } }

abbrev anyone : QueueEntry → Bool
anyone e = true

sample-IsValid : IsValid sample
sample-IsValid = record {
  rising = omega arith;
  distinct = (refl, (refl, (refl, tt)));
  bounded = omega arith;
  streak = omega arith;
}

-- The scarce request of the top tier goes first.
abbrev first_choice : QueueSelection
first_choice = record {
  entry = one_account;
  queue_version = 3;
  fairness = fairness_after no_fairness 0 scarce 7 1 3 7 1;
}

first_choice_eq : propose anyone [] sample ≡ ok (some first_choice)
unfolding propose propose_from minimum min_from oldest oldest_from choose_tier settle replenish
    key_order choose_key next_key fairness_after
first_choice_eq = refl

abbrev aged_choice : QueueSelection
aged_choice = record {
  entry = low_tier;
  queue_version = 3;
  fairness = fairness_after (aged.fairness) 1 scarce 9 1 0 9 0;
}

aged_choice_eq : propose anyone [] aged ≡ ok (some aged_choice)
unfolding propose propose_from minimum min_from oldest oldest_from choose_tier settle replenish
    key_order choose_key next_key fairness_after
aged_choice_eq = refl

propose-fifo_example :
    (item : Queued) × (first_choice.entry ≡ item.entry)
    × (first_choice.queue_version ≡ sample.version)
    × Has item (values sample.queued)
    × (contains item.entry.request_id [] ≡ false)
    × (anyone item.entry ≡ true)
    × ((other : Queued)
        → Has other (values sample.queued)
        → contains other.entry.request_id [] ≡ false
        → anyone other.entry ≡ true
        → other.entry.tier ≡ item.entry.tier
        → other.entry.scarcity ≡ item.entry.scarcity
        → other.entry.key_id ≡ item.entry.key_id
        → older other item ≡ false)
propose-fifo_example = propose-fifo anyone [] sample first_choice_eq

propose_total_example :
    (available anyone [] sample ≡ []) × (propose anyone [] sample ≡ ok none)
    ⊎ ((s : QueueSelection) × (propose anyone [] sample ≡ ok (some s)))
propose_total_example = propose_total anyone [] sample

propose_strict_example : first_choice.entry.tier ≤ 1
propose_strict_example =
    propose_strict anyone [] sample first_choice_eq (omega arith)
      (record { entry = low_tier; sequence = 2 }) (inr (inr (inl refl)))

propose_ages_example :
    (x : Queued) × Has x (available anyone [] aged) × (x.entry.tier < aged_choice.entry.tier)
propose_ages_example =
    propose_ages anyone [] aged aged_choice_eq (record { entry = one_account; sequence = 0 })
      (record { entry = low_tier; sequence = 2 }) (omega arith) (inl refl) (inr (inr (inl refl)))
      (omega arith)

propose_streak-le_example : first_choice.fairness.higher_grant_streak ≤ 2
propose_streak-le_example = propose_streak-le anyone [] sample first_choice_eq (omega arith)

sample_both : BothWait 0 (available anyone [] sample)
sample_both = (
  record { entry = one_account; sequence = 0 },
  record { entry = two_accounts; sequence = 1 },
  inl refl,
  inr (inl refl),
  refl,
  refl,
)

propose-phase_example :
    (first_choice.entry.scarcity ≡ served scarce_first)
    × InPhase first_choice.fairness 0 (next_phase scarce_first)
propose-phase_example =
    propose-phase anyone [] sample scarce_first first_choice_eq (no_fairness-InPhase 0) sample_both

propose-commit_example :
    (commit first_choice sample ≡ ok (committed first_choice sample))
    × IsValid (committed first_choice sample)
    × (lookup 1 (committed first_choice sample).queued ≡ none)
    × (commit first_choice (committed first_choice sample) ≡ raised runtime_error)
propose-commit_example = propose-commit anyone [] sample sample-IsValid first_choice_eq

abbrev newcomer : QueueEntry
newcomer = record low_tier { request_id = 4 }

abbrev with_newcomer : WdrrQueue
with_newcomer = record sample {
  queued =
      (1, record { entry = one_account; sequence = 0 })
      ∷ (2, record { entry = two_accounts; sequence = 1 })
      ∷ (3, record { entry = low_tier; sequence = 2 })
      ∷ (4, record { entry = newcomer; sequence = 3 })
      ∷ [];
  next_sequence = 4;
  version = 4;
}

enqueue-newcomer : enqueue newcomer sample ≡ ok with_newcomer
unfolding enqueue
enqueue-newcomer = refl

enqueue-cancel_example :
    cancel 4 with_newcomer ≡ (record sample { next_sequence = 4; version = 5 }, true)
enqueue-cancel_example = enqueue-cancel newcomer sample enqueue-newcomer

abbrev narrowed : QueueEntry
narrowed = record two_accounts { tier = 1; authorized_legs = leg 1 10 ∷ [] }

abbrev after_contract : WdrrQueue
after_contract = record sample {
  queued =
      (1, record { entry = one_account; sequence = 0 })
      ∷ (2, record { entry = narrowed; sequence = 1 })
      ∷ (3, record { entry = low_tier; sequence = 2 })
      ∷ [];
  version = 4;
}

contract-sample :
    contract 2 (some 1) none (some (leg 1 10 ∷ [])) sample ≡ ok (narrowed, after_contract)
unfolding contract queue_entry expands leg_contracts leg_meet capabilities_meet
contract-sample = refl

contract-IsContraction_example : IsContraction 2 sample narrowed after_contract
contract-IsContraction_example =
    contract-IsContraction 2 (some 1) none (some (leg 1 10 ∷ [])) sample contract-sample

restore-snapshot_example : restore (snapshot sample) ≡ ok sample
restore-snapshot_example = restore-snapshot sample sample-IsValid
