-- ===== src/Gateway/Admission/Moves.antt =====
-- Every change that the controller makes to its waiters and its queue, behind the previews.
use llmmaxxing.Base.{
  ℕ, ◌≡◌, refl, sym, ap, ◌∙◌, subst, inl, inr, Option, none, some, arith, ◌==◌, Result, raised, ok,
  ◌>>=◌, nat_eq, list_eq, option_eq, bool_eq, string_eq, Bool-cases, if_true, if_false, is_some,
  ==_iff, guard-eq-ok, ok-injective, ltb, ◌≤◌, ◌||◌, false, null, unique, map, true,
}
use llmmaxxing.Base.{runtime_error}
use llmmaxxing.Base.Dict.{
  lookup, member, remove, Distinct, lookup-put_hit, lookup-put_other, put-Distinct, remove-Distinct,
  length-put_present,
}
use llmmaxxing.Core.Ids.{RequestId, AttemptId}
use llmmaxxing.Core.Reasons.{DispatchCause}
use llmmaxxing.Gateway.Auth.{AuthRuntimeView}
use llmmaxxing.Gateway.Budget.{AttemptBudget, Candidate, record_send}
use llmmaxxing.Gateway.Queue.{WdrrQueue, commit, is_stale}
use llmmaxxing.Gateway.Queue.Entries.{QueueEntry, queue_entry}
use llmmaxxing.Core.Models.Legs.{AuthorizedLeg}
use llmmaxxing.Gateway.Queue.Choice.{QueueSelection}
use llmmaxxing.Gateway.Runtime.Requests.{ReservationDenied}
use llmmaxxing.Gateway.Runtime.Views.{OperationalRuntimeView}
use llmmaxxing.Gateway.Admission.{
  AdmissionController, AdmissionRequest, Waiter, acquire, denial_cause, fail_waiter,
}
use llmmaxxing.Gateway.Admission.Pump.{with_waiter, fall_back, denied_reservation}
use llmmaxxing.Gateway.Admission.Grant.{
  given_back, after_commit, after_send, granted_reservation, cancel_acquire,
}
use llmmaxxing.Gateway.Admission.Steps.{
  InStep, entry_of, remove-agree, length-remove-le, acquire-InStep, fail_waiter-InStep,
}

-- A waiter that is there is replaced.
with_waiter-InStep :
    (id : RequestId) (old new : Waiter) (c : AdmissionController)
    → lookup id c.waiters ≡ some old
    → InStep c
    → InStep (with_waiter id new c)
with_waiter-InStep id old new c found step = record {
  agree = λ j. elim (Bool-cases (id == j)) [
    | inl here ↦
        ap is_some (lookup-put_hit id j new c.waiters here)
        ∙ sym (ap is_some (subst (λ i. lookup i c.waiters ≡ some old) ((==_iff id j).0 here) found))
        ∙ step.agree j
    | inr away ↦ ap is_some (lookup-put_other id j new c.waiters away) ∙ step.agree j
  ];
  few = omega (arith, step.few, length-put_present id new old c.waiters found);
  waiters_distinct = put-Distinct id new c.waiters step.waiters_distinct;
  queue_distinct = step.queue_distinct;
}

given_back-InStep : (w : Waiter) (c : AdmissionController) → InStep c → InStep (given_back w c)
given_back-InStep w c step = record {
  agree = step.agree;
  few = step.few;
  waiters_distinct = step.waiters_distinct;
  queue_distinct = step.queue_distinct;
}

commit-queued :
    (s : QueueSelection) (q : WdrrQueue) {q' : WdrrQueue}
    → commit s q ≡ ok q'
    → q'.queued ≡ remove s.entry.request_id q.queued
unfolding commit
commit-queued s q h =
    let (_, made) = guard-eq-ok (is_stale s q) runtime_error _ h in
    ap (λ (x : WdrrQueue). x.queued) (sym (ok-injective made))

after_commit-InStep :
    (s : QueueSelection) (w : Waiter) (c : AdmissionController) (r : Result WdrrQueue)
    → commit s c.queue ≡ r
    → InStep c
    → InStep (after_commit s.entry.request_id w c r).0
after_commit-InStep s w c (raised e) h step = given_back-InStep w c step
after_commit-InStep s w c (ok queue) h step =
    let gone = commit-queued s c.queue h in
    record {
      agree = λ j.
          remove-agree s.entry.request_id c.waiters c.queue.queued j step.waiters_distinct
            step.queue_distinct (step.agree j)
          ∙ sym (ap (λ x. member j x) gone);
      few = omega (arith, step.few, length-remove-le s.entry.request_id c.waiters);
      waiters_distinct = remove-Distinct s.entry.request_id c.waiters step.waiters_distinct;
      queue_distinct =
          subst Distinct (sym gone)
            (remove-Distinct s.entry.request_id c.queue.queued step.queue_distinct);
    }

after_send-InStep :
    (s : QueueSelection) (w : Waiter) (c : AdmissionController) (r : Result AttemptBudget)
    → lookup s.entry.request_id c.waiters ≡ some w
    → InStep c
    → InStep (after_send s w c r).0
after_send-InStep s w c (raised e) found step = given_back-InStep w c step
after_send-InStep s w c (ok budget) found step =
    let sent : Waiter = record w { request = record w.request { attempt_budget = budget } } in
    after_commit-InStep s sent (with_waiter s.entry.request_id sent c) (commit s c.queue) refl
      (with_waiter-InStep s.entry.request_id w sent c found step)

-- A change: a request is admitted, fails, or is cancelled, or the reservation for one that waits is
-- denied or granted.
pub data Move : Type 0 where
  admits : ℕ → OperationalRuntimeView → Result AuthRuntimeView → AdmissionRequest → Move
  fails cancels : RequestId → Move
  denies : RequestId → ReservationDenied → Move
  grants : Result (Unit {0}) → QueueSelection → Candidate → AttemptId → Move

-- A denial and a grant are for a waiter that is there.
abbrev denied_at :
    RequestId → ReservationDenied → AdmissionController → Option Waiter → AdmissionController
denied_at id denial c none = c
denied_at id denial c (some w) = (denied_reservation id w denial c).0

abbrev granted_at :
    Result (Unit {0})
    → QueueSelection
    → Candidate
    → AttemptId
    → AdmissionController
    → Option Waiter
    → AdmissionController
granted_at dispatched s candidate attempt_id c none = c
granted_at dispatched s candidate attempt_id c (some w) =
    (granted_reservation dispatched s w candidate attempt_id c).0

abbrev pub moved : Move → AdmissionController → AdmissionController
moved (admits now_ms view auth_view r) c = (acquire now_ms view auth_view r c).0
moved (fails id) c = fail_waiter id c
moved (cancels id) c = cancel_acquire id c
moved (denies id denial) c = denied_at id denial c (lookup id c.waiters)
moved (grants dispatched s candidate attempt_id) c =
    granted_at dispatched s candidate attempt_id c (lookup s.entry.request_id c.waiters)

denied_at-InStep :
    (id : RequestId) (denial : ReservationDenied) (c : AdmissionController) (o : Option Waiter)
    → lookup id c.waiters ≡ o
    → InStep c
    → InStep (denied_at id denial c o)
unfolding denied_reservation
denied_at-InStep id denial c none found step = step
denied_at-InStep id denial c (some w) found step = by_cause (denial_cause denial)
  where
    by_cause : (o : Option DispatchCause) → InStep (fall_back id w (given_back w c) o).0
    by_cause none = given_back-InStep w c step
    by_cause (some cause) =
        with_waiter-InStep id w (record w { fallback_once = some cause }) (given_back w c) found
          (given_back-InStep w c step)

granted_at-InStep :
    (dispatched : Result (Unit {0})) (s : QueueSelection) (candidate : Candidate)
    (attempt_id : AttemptId) (c : AdmissionController) (o : Option Waiter)
    → lookup s.entry.request_id c.waiters ≡ o
    → InStep c
    → InStep (granted_at dispatched s candidate attempt_id c o)
unfolding granted_reservation
granted_at-InStep dispatched s candidate attempt_id c none found step = step
granted_at-InStep dispatched s candidate attempt_id c (some w) found step =
    after_send-InStep s w c
      (dispatched >>= (λ u. record_send candidate attempt_id w.request.attempt_budget)) found step

-- The request that is admitted has a ceiling that a queue entry can be made of: its weight is from 1
-- to 64, and it has legs, of different ids.
abbrev pub Queues : Move → Type 0
Queues (admits now_ms view auth_view r) =
    let c = r.authorization_ceiling in
    ((1 ≤ c.queue_weight) × (c.queue_weight ≤ 64))
    × (null c.authorized_legs ≡ false)
    × (unique (map (λ (leg : AuthorizedLeg). leg.leg_id) c.authorized_legs) ≡ true)
Queues _ = Unit

Queues-entry :
    (now_ms : ℕ) (view : OperationalRuntimeView) (auth_view : Result AuthRuntimeView)
    (r : AdmissionRequest)
    → Queues (admits now_ms view auth_view r)
    → (entry : QueueEntry) × (entry_of r ≡ ok entry)
unfolding queue_entry
Queues-entry now_ms view auth_view r (weight, legs, ids) =
    let fit : (ltb r.authorization_ceiling.queue_weight 1
          || ltb 64 r.authorization_ceiling.queue_weight)
        ≡ false =
      ground (arith, weight) in
    rw (fit, legs, ids) (_, refl)

-- Every change keeps one entry of the queue for each waiter, none without one, and no more waiters
-- than the bound, where a request to admit has a ceiling that a queue entry can be made of: an
-- admission that returns or raises, a failure, a cancellation, a denial, and a grant wherever it
-- stops.
pub moved-InStep :
    (move : Move) (c : AdmissionController) → Queues move → InStep c → InStep (moved move c)
unfolding cancel_acquire
moved-InStep (admits now_ms view auth_view r) c queues step =
    let (entry, made) = Queues-entry now_ms view auth_view r queues in
    acquire-InStep now_ms view auth_view r c entry made step
moved-InStep (fails id) c queues step = fail_waiter-InStep id c step
moved-InStep (cancels id) c queues step = elim (Bool-cases (member id c.waiters)) [
  | inl there ↦ subst InStep (sym (if_true _ _ _ there)) (fail_waiter-InStep id c step)
  | inr gone ↦ subst InStep (sym (if_false _ _ _ gone)) step
]
moved-InStep (denies id denial) c queues step =
    denied_at-InStep id denial c (lookup id c.waiters) refl step
moved-InStep (grants dispatched s candidate attempt_id) c queues step =
    granted_at-InStep dispatched s candidate attempt_id c (lookup s.entry.request_id c.waiters) refl
      step
