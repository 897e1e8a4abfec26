-- ===== src/Gateway/Admission/Grant.antt =====
-- src/llmmaxxing/gateway/scheduler.py: what the pump does with a granted reservation, and the
-- cancellation of a request that waits. The lease's own calls are the runtime's: here stands what
-- `mark_dispatched` answers. What the runtime does to give a failed grant back is not part of the
-- controller's state.
use llmmaxxing.Base.{
  if◌then◌else◌, Result, raised, ok, ◌>>=◌, nat_eq, list_eq, option_eq, bool_eq, string_eq,
}
use llmmaxxing.Base.Dict.{member, remove}
use llmmaxxing.Core.Ids.{RequestId, AttemptId}
use llmmaxxing.Gateway.Budget.{AttemptBudget, Candidate, record_send}
use llmmaxxing.Gateway.Queue.{WdrrQueue, commit}
use llmmaxxing.Gateway.Queue.Choice.{QueueSelection}
use llmmaxxing.Gateway.Admission.{AdmissionController, Waiter, release_active, fail_waiter}
use llmmaxxing.Gateway.Admission.Pump.{with_waiter}

-- A failed grant gives the place among the key's active requests back.
abbrev pub given_back : Waiter → AdmissionController → AdmissionController
given_back w c = record c { active_by_key = release_active w.request.client.key_id c.active_by_key }

-- Behind `record_send`: the selection is committed, and the request waits no longer.
abbrev pub after_commit :
    RequestId
    → Waiter
    → AdmissionController
    → Result WdrrQueue
    → AdmissionController × Result (Unit {0})
after_commit id w c (raised e) = (given_back w c, raised e)
after_commit id w c (ok queue) = (record c { queue = queue; waiters = remove id c.waiters }, ok tt)

-- Behind `mark_dispatched`: the send is recorded in the request's budget.
abbrev pub after_send :
    QueueSelection
    → Waiter
    → AdmissionController
    → Result AttemptBudget
    → AdmissionController × Result (Unit {0})
after_send s w c (raised e) = (given_back w c, raised e)
after_send s w c (ok budget) =
    let sent : Waiter = record w { request = record w.request { attempt_budget = budget } } in
    after_commit s.entry.request_id sent (with_waiter s.entry.request_id sent c) (commit s c.queue)

unfoldable pub granted_reservation :
    Result (Unit {0})
    → QueueSelection
    → Waiter
    → Candidate
    → AttemptId
    → AdmissionController
    → AdmissionController × Result (Unit {0})
granted_reservation dispatched s w candidate attempt_id c =
    after_send s w c
      (dispatched >>= (λ u. record_send candidate attempt_id w.request.attempt_budget))

-- The caller of `acquire` is cancelled.
unfoldable pub cancel_acquire : RequestId → AdmissionController → AdmissionController
cancel_acquire id c = if member id c.waiters then fail_waiter id c else c
