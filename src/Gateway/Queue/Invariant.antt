-- ===== src/Gateway/Queue/Invariant.antt =====
-- src/llmmaxxing/gateway/scheduler.py, `WDRRQueue`: the queue's well-formedness, which every
-- operation keeps. Requests stand in the order of their sequence numbers, each under its own id.
use llmmaxxing.Base.{
  ℕ, ◌+◌, ◌≤◌, ◌≡◌, refl, subst, inl, inr, none, some, [], ◌∷◌, arith, ◌==◌, ltb, ltb-false,
  Bool-cases, ok, value_error, runtime_error, guard-eq-ok, ok-injective, is_some-false, nat_eq,
}
use llmmaxxing.Base.Dict.{
  Dict, lookup, put, remove, member, Distinct, put-Distinct, remove-Distinct,
}
use llmmaxxing.Core.Ids.{RequestId}
use llmmaxxing.Gateway.Queue.{WdrrQueue, new_queue, enqueue, cancel, commit, is_stale}
use llmmaxxing.Gateway.Queue.Entries.{QueueEntry, Queued, FairnessState}
use llmmaxxing.Gateway.Queue.Choice.{QueueSelection}

-- The sequence numbers rise from `low` and stay below `high`.
abbrev pub Rising : ℕ → ℕ → Dict RequestId Queued → Type 0
Rising low high [] = low ≤ high
Rising low high ((k, item) ∷ d) =
    (item.entry.request_id ≡ k) × (low ≤ item.sequence) × Rising (item.sequence + 1) high d

pub record IsValid (q : WdrrQueue) : Type 0 where
  pub rising : Rising 0 q.next_sequence q.queued
  pub distinct : Distinct q.queued
  pub bounded : 1 ≤ q.max_consecutive_higher_grants
  pub streak : q.fairness.higher_grant_streak ≤ q.max_consecutive_higher_grants

pub Rising-le : (low high : ℕ) (d : Dict RequestId Queued) → Rising low high d → low ≤ high
Rising-le low high [] h = h
Rising-le low high ((k, item) ∷ d) h = omega (arith, Rising-le (item.sequence + 1) high d h.2)

pub Rising-weaken :
    (low low' high : ℕ) (d : Dict RequestId Queued)
    → low' ≤ low
    → Rising low high d
    → Rising low' high d
Rising-weaken low low' high [] l h = omega arith
Rising-weaken low low' high ((k, item) ∷ d) l h = (h.0, omega (arith, h.1), h.2)

pub Rising-put_absent :
    (low high : ℕ) (entry : QueueEntry) (d : Dict RequestId Queued)
    → lookup entry.request_id d ≡ none
    → Rising low high d
    → Rising low (high + 1) (put entry.request_id (record { entry = entry; sequence = high }) d)
Rising-put_absent low high entry [] e h = (refl, h, omega arith)
Rising-put_absent low high entry ((k, item) ∷ d) e h =
    ground (arith, Rising-put_absent (item.sequence + 1) high entry d)

pub Rising-remove :
    (low high : ℕ) (k : RequestId) (d : Dict RequestId Queued)
    → Rising low high d
    → Rising low high (remove k d)
Rising-remove low high k [] h = h
Rising-remove low high k ((j, item) ∷ d) h = elim (Bool-cases (j == k)) [
  | inl t ↦ rw t (Rising-weaken (item.sequence + 1) low high d (omega (arith, h.1)) h.2)
  | inr t ↦ rw t (h.0, h.1, Rising-remove (item.sequence + 1) high k d h.2)
]

pub Rising-put_present :
    (low high : ℕ) (old new : Queued) (d : Dict RequestId Queued)
    → lookup new.entry.request_id d ≡ some old
    → new.sequence ≡ old.sequence
    → Rising low high d
    → Rising low high (put new.entry.request_id new d)
Rising-put_present low high old new [] e s h = cc
Rising-put_present low high old new ((j, item) ∷ d) e s h =
    ground (arith, Rising-put_present (item.sequence + 1) high old new d)

pub new_queue-IsValid : (bound : ℕ) {q : WdrrQueue} → new_queue bound ≡ ok q → IsValid q
unfolding new_queue
new_queue-IsValid bound {q} h =
    let (positive, made) = guard-eq-ok (ltb bound 1) value_error _ h in
    subst IsValid (ok-injective made) (record {
      rising = omega arith;
      distinct = tt;
      bounded = ltb-false bound 1 positive;
      streak = omega arith;
    })

pub enqueue-IsValid :
    (entry : QueueEntry) (q : WdrrQueue) {q' : WdrrQueue}
    → IsValid q
    → enqueue entry q ≡ ok q'
    → IsValid q'
unfolding enqueue
enqueue-IsValid entry q v h =
    let (fresh, made) = guard-eq-ok (member entry.request_id q.queued) value_error _ h in
    let absent = is_some-false (lookup entry.request_id q.queued) fresh in
    subst IsValid (ok-injective made) (record {
      rising = Rising-put_absent 0 q.next_sequence entry q.queued absent v.rising;
      distinct = put-Distinct entry.request_id _ q.queued v.distinct;
      bounded = v.bounded;
      streak = v.streak;
    })

pub removed-IsValid :
    (k : RequestId) (q : WdrrQueue) (f : FairnessState)
    → f.higher_grant_streak ≤ q.max_consecutive_higher_grants
    → IsValid q
    → IsValid (record q { queued = remove k q.queued; fairness = f; version = q.version + 1 })
removed-IsValid k q f l v = record {
  rising = Rising-remove 0 q.next_sequence k q.queued v.rising;
  distinct = remove-Distinct k q.queued v.distinct;
  bounded = v.bounded;
  streak = l;
}

pub cancel-IsValid : (k : RequestId) (q : WdrrQueue) → IsValid q → IsValid (cancel k q).0
unfolding cancel
cancel-IsValid k q v = elim (Bool-cases (member k q.queued)) [
  | inl t ↦ rw t (removed-IsValid k q q.fairness v.streak v)
  | inr t ↦ rw t v
]

-- Committing a selection whose state respects the aging bound, as `propose` makes them.
pub commit-IsValid :
    (s : QueueSelection) (q : WdrrQueue) {q' : WdrrQueue}
    → s.fairness.higher_grant_streak ≤ q.max_consecutive_higher_grants
    → IsValid q
    → commit s q ≡ ok q'
    → IsValid q'
unfolding commit
commit-IsValid s q l v h =
    let (current, made) = guard-eq-ok (is_stale s q) runtime_error _ h in
    subst IsValid (ok-injective made) (removed-IsValid s.entry.request_id q s.fairness l v)
