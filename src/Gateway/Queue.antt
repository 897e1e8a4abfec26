-- ===== src/Gateway/Queue.antt =====
-- src/llmmaxxing/gateway/scheduler.py, `WDRRQueue`: the fair queue's operations. Its entries and
-- fairness state are in `Queue/Entries`, the choice of the next entry in `Queue/Choice`.
pub mod Entries
pub mod Choice
pub mod Picks
pub mod Fifo
pub mod Progress
pub mod Aging
pub mod Shares
pub mod Invariant
pub mod Commits
pub mod Contraction
pub mod Snapshots
mod Samples
use llmmaxxing.Base.{
  ℕ, ◌+◌, ◌*◌, Bool, true, false, not, ◌&&◌, ◌||◌, Option, none, some, List, [], ◌∷◌, ◌++◌, min,
  ◌==◌, ltb, if◌then◌else◌, same, any, keep, unique, contains, sort_by, count_of, Result, ok,
  value_error, runtime_error, key_error, ◌>>=◌, ◌>>◌, raise_if, or_raise, nat_eq, list_eq, pair_eq,
  map,
}
use llmmaxxing.Base.Dict.{Dict, lookup, lookup_or, member, put, remove, values, dict_by}
use llmmaxxing.Core.Ids.{RequestId, AccountId}
use llmmaxxing.Core.Models.Legs.{AuthorizedLeg, identity, leg_meet, leg_eq}
use Entries.{
  scarce, scarcity_eq, QueueEntry, queue_entry, entry_beq, Queued, FairnessState, KeyKey,
  no_fairness, encode_state,
}
use Choice.{QueueSelection, propose_from}

pub record WdrrQueue : Type 0 where
  pub queued : Dict RequestId Queued
  pub next_sequence : ℕ
  pub version : ℕ
  pub fairness : FairnessState
  pub max_consecutive_higher_grants : ℕ

-- `WDRRQueue.__init__`.
unfoldable pub new_queue : ℕ → Result WdrrQueue
new_queue bound = do
  raise_if (ltb bound 1) value_error
  ok (record {
    queued = [];
    next_sequence = 0;
    version = 0;
    fairness = no_fairness;
    max_consecutive_higher_grants = bound;
  })

-- `key_position`: how many queued requests of the same key stand in front.
unfoldable pub key_position : RequestId → WdrrQueue → Result ℕ
key_position request_id q = do
  target ← or_raise (lookup request_id q.queued) key_error
  ok (
      count_of
        (λ item.
          item.entry.key_id == target.entry.key_id
          && (ltb item.sequence target.sequence
              || item.sequence == target.sequence
                && ltb item.entry.request_id target.entry.request_id))
        (values q.queued))

unfoldable pub enqueue : QueueEntry → WdrrQueue → Result WdrrQueue
enqueue entry q = do
  raise_if (member entry.request_id q.queued) value_error
  ok (record q {
    queued = put entry.request_id (record { entry = entry; sequence = q.next_sequence }) q.queued;
    next_sequence = q.next_sequence + 1;
    version = q.version + 1;
  })

unfoldable pub cancel : RequestId → WdrrQueue → WdrrQueue × Bool
cancel request_id q =
    if member request_id q.queued
    then (record q { queued = remove request_id q.queued; version = q.version + 1 }, true)
    else (q, false)

-- `_leg_contracts`: `old.intersection(new) == new`.
unfoldable pub leg_contracts : AuthorizedLeg → AuthorizedLeg → Bool
leg_contracts old new = elim (leg_meet old new) [ none ↦ false | some m ↦ same m new ]

or_else : Option ℕ → ℕ → ℕ
or_else none n = n
or_else (some m) n = m

legs_or_else : Option (List AuthorizedLeg) → List AuthorizedLeg → List AuthorizedLeg
legs_or_else none legs = legs
legs_or_else (some new) legs = new

-- Some new leg has no old leg of its identity, or is wider than that.
unfoldable pub expands : List AuthorizedLeg → List AuthorizedLeg → Bool
expands old new =
    any
      (λ leg. elim (lookup (identity leg) (dict_by identity old)) [
        | none ↦ true
        | some previous ↦ not (leg_contracts previous leg)
      ])
      new

-- The deficit of the contracted entry's key is cut down to what its new weight allows.
unfoldable pub cap_deficit : QueueEntry → ℕ → FairnessState → FairnessState
unfolding encode_state
cap_deficit old weight f =
    let key : KeyKey = ((old.tier, old.scarcity), old.key_id) in
    elim (lookup key f.key_deficits) [
      | none ↦ f
      | some deficit ↦
          encode_state f.class_deficits f.class_cursors
            (put key (min deficit (8 * weight)) f.key_deficits) f.key_cursors f.higher_grant_streak
    ]

unfoldable pub contract :
    RequestId
    → Option ℕ
    → Option ℕ
    → Option (List AuthorizedLeg)
    → WdrrQueue
    → Result (QueueEntry × WdrrQueue)
unfolding or_else legs_or_else
contract request_id tier weight authorized_legs q = do
  item ← or_raise (lookup request_id q.queued) key_error
  let old = item.entry
  let new_tier = or_else tier old.tier
  let new_weight = or_else weight old.weight
  let new_legs = legs_or_else authorized_legs old.authorized_legs
  raise_if (ltb new_tier old.tier || ltb old.weight new_weight) value_error
  raise_if (expands old.authorized_legs new_legs) value_error
  replaced ← queue_entry old.request_id old.key_id new_tier new_weight new_legs
  let updated = record replaced { scarcity = old.scarcity }
  ok (
    updated,
    record q {
      queued = put request_id (record { entry = updated; sequence = item.sequence }) q.queued;
      fairness =
          if new_tier == old.tier && ltb new_weight old.weight
          then cap_deficit old new_weight q.fairness
          else q.fairness;
      version = q.version + 1;
    },
  )

-- The requests that `propose` may choose from.
abbrev pub available : (QueueEntry → Bool) → List RequestId → WdrrQueue → List Queued
available eligible excluded q =
    keep (λ item. not (contains item.entry.request_id excluded) && eligible item.entry)
      (values q.queued)

unfoldable pub propose :
    (QueueEntry → Bool) → List RequestId → WdrrQueue → Result (Option QueueSelection)
propose eligible excluded q =
    propose_from q.fairness q.max_consecutive_higher_grants q.version
      (available eligible excluded q)

-- The test of `commit`: the selection is of this version, and its entry is still queued.
abbrev pub is_stale : QueueSelection → WdrrQueue → Bool
is_stale selection q =
    not (selection.queue_version == q.version)
    || elim (lookup selection.entry.request_id q.queued) [
      | none ↦ true
      | some item ↦ not (entry_beq item.entry selection.entry)
    ]

unfoldable pub commit : QueueSelection → WdrrQueue → Result WdrrQueue
commit selection q = do
  raise_if (is_stale selection q) runtime_error
  ok (record q {
    fairness = selection.fairness;
    queued = remove selection.entry.request_id q.queued;
    version = q.version + 1;
  })

unfoldable pub deficit : QueueEntry → WdrrQueue → ℕ
deficit entry q = lookup_or ((entry.tier, entry.scarcity), entry.key_id) 0 q.fairness.key_deficits

-- The accounts that the queued scarce requests could be sent to.
unfoldable pub protected_scarce_accounts :
    List Queued → Dict RequestId (List AccountId) → List AccountId
protected_scarce_accounts [] candidates = []
protected_scarce_accounts (item ∷ items) candidates =
    let rest = protected_scarce_accounts items candidates in
    if same item.entry.scarcity scarce
    then lookup_or item.entry.request_id [] candidates ++ rest
    else rest

unfoldable pub unprotected_accounts :
    QueueEntry → List AccountId → Dict RequestId (List AccountId) → WdrrQueue → List AccountId
unprotected_accounts entry accounts candidates q =
    if same entry.scarcity scarce
    then accounts
    else keep
        (λ account. not (contains account (protected_scarce_accounts (values q.queued) candidates)))
        accounts

pub record QueueSnapshot : Type 0 where
  pub queued : List Queued
  pub fairness : FairnessState
  pub next_sequence : ℕ
  pub version : ℕ
  pub max_consecutive_higher_grants : ℕ

unfoldable pub snapshot : WdrrQueue → QueueSnapshot
snapshot q = record {
  queued = sort_by (λ a b. ltb a.sequence b.sequence) (values q.queued);
  fairness = q.fairness;
  next_sequence = q.next_sequence;
  version = q.version;
  max_consecutive_higher_grants = q.max_consecutive_higher_grants;
}

unfoldable pub restore : QueueSnapshot → Result WdrrQueue
unfolding new_queue
restore s = do
  fresh ← new_queue s.max_consecutive_higher_grants
  raise_if (not (unique (map (λ (item : Queued). item.entry.request_id) s.queued))) value_error
  ok (record fresh {
    queued = dict_by (λ (item : Queued). item.entry.request_id) s.queued;
    fairness = s.fairness;
    next_sequence = s.next_sequence;
    version = s.version;
  })
