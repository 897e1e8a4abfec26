-- ===== src/Gateway/Queue/Commits.antt =====
-- src/llmmaxxing/gateway/scheduler.py, `WDRRQueue`: proposals meet commits, enqueues meet cancels,
-- and a snapshot is restored to the queue that it was taken of.
use llmmaxxing.Base.{
  ℕ, ◌+◌, ◌≡◌, ◌≢◌, sym, ap, ◌∙◌, subst, inl, inr, Bool, true, false, none, some, List, [], ◌∷◌,
  arith, ◌==◌, Bool-cases, ==_refl, same_refl, Has, ok, raised, value_error, runtime_error,
  guard-eq-ok, ok-injective, is_some-false, nat_eq, list_eq,
}
use llmmaxxing.Base.Dict.{
  Dict, lookup, remove, member, values, Distinct, lookup-put, lookup-remove_self, remove-put_absent,
}
use llmmaxxing.Core.Ids.{RequestId}
use llmmaxxing.Core.Models.Legs.{leg_eq}
use llmmaxxing.Gateway.Queue.{WdrrQueue, enqueue, cancel, commit, is_stale, propose}
use llmmaxxing.Gateway.Queue.Entries.{QueueEntry, Queued, entry_beq, ids, scarcity_eq}
use llmmaxxing.Gateway.Queue.Choice.{QueueSelection}
use llmmaxxing.Gateway.Queue.Fifo.{propose-fifo}
use llmmaxxing.Gateway.Queue.Aging.{propose_streak-le}
use llmmaxxing.Gateway.Queue.Invariant.{Rising, IsValid, removed-IsValid}

entry_beq_refl : (e : QueueEntry) → entry_beq e e ≡ true
entry_beq_refl e = rw (same_refl (ids e), same_refl e.authorized_legs, same_refl e.scarcity)

-- In a valid queue a request is found under its id.
lookup-of_Has :
    (low high : ℕ) (item : Queued) (d : Dict RequestId Queued)
    → Rising low high d
    → Distinct d
    → Has item (values d)
    → lookup item.entry.request_id d ≡ some item
lookup-of_Has low high item [] r u h = absurd h
lookup-of_Has low high item ((k, x) ∷ d) r u (inl e) = rw (e, r.0, ==_refl k)
lookup-of_Has low high item ((k, x) ∷ d) r u (inr h) =
    let found = lookup-of_Has (x.sequence + 1) high item d r.2 u.1 h in
    elim (Bool-cases (k == item.entry.request_id)) [
      | inl t ↦ ground (arith, found)
      | inr t ↦ rw t found
    ]

-- The state that a commit of `s` leaves.
abbrev pub committed : QueueSelection → WdrrQueue → WdrrQueue
committed s q = record q {
  fairness = s.fairness;
  queued = remove s.entry.request_id q.queued;
  version = q.version + 1;
}

not_stale :
    (s : QueueSelection) (q : WdrrQueue) (item : Queued)
    → s.queue_version ≡ q.version
    → lookup s.entry.request_id q.queued ≡ some item
    → item.entry ≡ s.entry
    → is_stale s q ≡ false
not_stale s q item v found e = rw (v, ==_refl q.version, found, e, entry_beq_refl s.entry)

stale_version :
    (s : QueueSelection) (q : WdrrQueue) → s.queue_version ≢ q.version → is_stale s q ≡ true
stale_version s q h = ground arith

-- A selection that was made on another version of the queue is refused, and nothing else happens.
pub commit_stale :
    (s : QueueSelection) (q : WdrrQueue)
    → s.queue_version ≢ q.version
    → commit s q ≡ raised runtime_error
unfolding commit
commit_stale s q h = rw (stale_version s q h)

-- A proposal made on a valid queue commits on it: exactly the proposed request leaves the queue, the
-- result is valid, and the same selection is refused as stale from then on.
pub propose-commit :
    (eligible : QueueEntry → Bool) (excluded : List RequestId) (q : WdrrQueue) {s : QueueSelection}
    → IsValid q
    → propose eligible excluded q ≡ ok (some s)
    → (commit s q ≡ ok (committed s q))
      × IsValid (committed s q)
      × (lookup s.entry.request_id (committed s q).queued ≡ none)
      × (commit s (committed s q) ≡ raised runtime_error)
unfolding commit
propose-commit eligible excluded q {s} v h =
    let (item, entry_is, version_is, queued, _, _, _) = propose-fifo eligible excluded q h in
    let found = lookup-of_Has 0 q.next_sequence item q.queued v.rising v.distinct queued in
    let found' = ap (λ (e : QueueEntry). lookup e.request_id q.queued) entry_is ∙ found in
    (
      rw (not_stale s q item version_is found' (sym entry_is)),
      removed-IsValid s.entry.request_id q s.fairness
          (propose_streak-le eligible excluded q h v.streak) v,
      lookup-remove_self s.entry.request_id q.queued v.distinct,
      commit_stale s (committed s q) (omega (arith, version_is)),
    )

-- A request that is enqueued and then cancelled leaves only its sequence number and the version
-- behind.
pub enqueue-cancel :
    (entry : QueueEntry) (q : WdrrQueue) {q' : WdrrQueue}
    → enqueue entry q ≡ ok q'
    → cancel entry.request_id q'
      ≡ (record q { next_sequence = q.next_sequence + 1; version = q.version + 1 + 1 }, true)
unfolding enqueue cancel
enqueue-cancel entry q h =
    let (fresh, made) = guard-eq-ok (member entry.request_id q.queued) value_error _ h in
    let absent = is_some-false (lookup entry.request_id q.queued) fresh in
    let item : Queued = record { entry = entry; sequence = q.next_sequence } in
    subst
      (λ q'.
        cancel entry.request_id q'
        ≡ (record q { next_sequence = q.next_sequence + 1; version = q.version + 1 + 1 }, true))
      (ok-injective made)
      (rw (
        lookup-put entry.request_id entry.request_id item q.queued,
        ==_refl entry.request_id,
        remove-put_absent entry.request_id item q.queued absent,
      ))
