-- ===== src/Gateway/Admission.antt =====
-- src/llmmaxxing/gateway/scheduler.py: the state of `AdmissionController`, its counts of active
-- requests, and the renewed authorization of one that waits. The auth view's provider may raise.
pub mod Narrowing
pub mod Pump
pub mod Dispatch
pub mod Renewed
pub mod Steps
pub mod Grant
pub mod Moves
mod Samples
use llmmaxxing.Base.{
  ℕ, suc, ◌+◌, ◌-◌, ◌*◌, ◌/◌, ◌%◌, ◌≤◌, ◌<◌, min, max, ◌≡◌, refl, sym, ap, ◌∙◌, subst, ◌≢◌, ◌↔◌,
  ◌⊎◌, inl, inr, Bool, true, false, not, ◌&&◌, ◌||◌, Option, none, some, List, [], ◌∷◌, ◌++◌, map,
  arith, ltb, leb, ◌==◌, if◌then◌else◌, Result, raised, ok, ◌>>=◌, ◌>>◌, raise_if, or_raise,
  value_error, same, contains, unique, keep, find, any, all, null, length, Has, nat_eq, list_eq,
  option_eq, bool_eq, string_eq, Bool-cases, both_true, both_false, negated_true, negated_false,
  if_true, if_false, is_some, or_default, Option-cases, All,
}
use llmmaxxing.Base.{admission_unavailable}
use llmmaxxing.Base.Dict.{Dict, lookup, lookup_or, member, put, remove, values}
use llmmaxxing.Core.Ids.{RequestId, KeyId}
use llmmaxxing.Core.Reasons.{DispatchCause}
use llmmaxxing.Core.Models.Legs.{RequestProfile}
use llmmaxxing.Core.Models.Ceilings.{RequestAuthorizationCeiling, intersection}
use llmmaxxing.Gateway.Auth.{AuthRuntimeView, queued_identity_is_authorized}
use llmmaxxing.Gateway.Budget.{AttemptBudget, sync_runtime, send_closed, Candidate}
use llmmaxxing.Gateway.Queue.{WdrrQueue, key_position, enqueue, cancel}
use llmmaxxing.Gateway.Queue.Entries.{queue_entry}
use llmmaxxing.Gateway.Runtime.Requests.{
  RuntimeIdentity, ReservationDenied, ReservationDenialReason,
}
use llmmaxxing.Gateway.Runtime.Views.{OperationalRuntimeView}
use llmmaxxing.Gateway.Routing.{EmergencyActivation}
use llmmaxxing.Gateway.Routing.Engine.{AuthenticatedClient, RouteEngine, authorize}

pub record AdmissionRequest : Type 0 where
  pub request_id : RequestId
  pub client : AuthenticatedClient
  pub profile : RequestProfile
  pub authorization_ceiling : RequestAuthorizationCeiling
  pub runtime_identity : RuntimeIdentity
  pub deadline_at_ms : ℕ
  pub cause : DispatchCause
  pub attempt_budget : AttemptBudget
  pub emergency : Option EmergencyActivation

-- `AdmissionRequest.__post_init__`
unfoldable pub admission_request : AdmissionRequest → Result AdmissionRequest
admission_request r = do
  raise_if (not (r.request_id == r.attempt_budget.request_id)) value_error
  raise_if (not (r.profile.route_group_id == r.authorization_ceiling.route_group_id)) value_error
  raise_if (not (r.client.key_id == r.authorization_ceiling.key_id)) value_error
  raise_if (ltb r.deadline_at_ms 1) value_error
  ok r

-- `_Waiter`, but for its future, which is the controller's answer.
pub record Waiter : Type 0 where
  pub request : AdmissionRequest
  pub effective_ceiling : RequestAuthorizationCeiling
  pub admitted_at_ms : ℕ
  pub effective_deadline_at_ms : ℕ
  pub fallback_once : Option DispatchCause

pub record AdmissionController : Type 0 where
  pub queue : WdrrQueue
  pub waiters : Dict RequestId Waiter
  pub active_by_key : Dict KeyId ℕ
  pub max_waiters_global : ℕ

-- `_active_count`
abbrev pub active_of : KeyId → Dict KeyId ℕ → ℕ
active_of key_id active = lookup_or key_id 0 active

-- `_acquire_active`
unfoldable pub acquire_active : KeyId → ℕ → Dict KeyId ℕ → Dict KeyId ℕ × Bool
acquire_active key_id maximum active =
    if leb maximum (active_of key_id active)
    then (active, false)
    else (put key_id (active_of key_id active + 1) active, true)

-- `_release_active`, without the wake of the event loop.
unfoldable pub release_active : KeyId → Dict KeyId ℕ → Dict KeyId ℕ
release_active key_id active =
    if leb (active_of key_id active) 1
    then remove key_id active
    else put key_id (active_of key_id active - 1) active

-- The part of `_current_authorization` behind the intersection.
abbrev pub contracted_to :
    WdrrQueue
    → Waiter
    → Result RequestAuthorizationCeiling
    → Waiter × Result RequestAuthorizationCeiling
contracted_to queue w (raised e) = (w, raised e)
contracted_to queue w (ok contracted) =
    let w' : Waiter = record w {
      effective_ceiling = contracted;
      effective_deadline_at_ms =
          min w.effective_deadline_at_ms (w.admitted_at_ms + contracted.deadline_ms);
    } in
    (
      w',
      do
        raise_if (null contracted.authorized_legs) admission_unavailable
        position ← key_position w.request.request_id queue
        raise_if (leb contracted.max_waiters position) admission_unavailable
        ok contracted,
    )

-- The part behind the engine's answer, which raises nothing but `ValueError`.
abbrev pub routed :
    WdrrQueue
    → Waiter
    → Result RequestAuthorizationCeiling
    → Waiter × Result RequestAuthorizationCeiling
routed queue w (raised e) = (
  record w { effective_ceiling = record w.effective_ceiling { authorized_legs = [] } },
  raised admission_unavailable,
)
routed queue w (ok current) = contracted_to queue w (intersection w.effective_ceiling current)

abbrev pub identity_allows : AuthenticatedClient → Result AuthRuntimeView → Bool
identity_allows client (raised e) = false
identity_allows client (ok view) = queued_identity_is_authorized client view

-- `_current_authorization`
unfoldable pub current_authorization :
    RouteEngine
    → Result AuthRuntimeView
    → WdrrQueue
    → Waiter
    → Waiter × Result RequestAuthorizationCeiling
current_authorization engine auth_view queue w =
    if not (identity_allows w.request.client auth_view)
    then (w, raised admission_unavailable)
    else routed queue w (authorize engine w.request.client w.request.profile)

-- `_denial_cause`
unfoldable pub denial_cause : ReservationDenied → Option DispatchCause
denial_cause denial = elim denial.reason [
  | ReservationDenialReason.parallel_exhausted ↦ some DispatchCause.capacity
  | ReservationDenialReason.rpm_exhausted ↦ some DispatchCause.capacity
  | ReservationDenialReason.tpm_exhausted ↦ some DispatchCause.quota
  | ReservationDenialReason.monthly_quota_exhausted ↦ some DispatchCause.quota
  | _ ↦ none
]

-- The waiter that `acquire` makes.
abbrev pub new_waiter : ℕ → AdmissionRequest → Waiter
new_waiter now_ms r = record {
  request = r;
  effective_ceiling = r.authorization_ceiling;
  admitted_at_ms = now_ms;
  effective_deadline_at_ms = min r.deadline_at_ms (now_ms + r.authorization_ceiling.deadline_ms);
  fallback_once = none;
}

abbrev pub key_waiters : KeyId → Dict RequestId Waiter → ℕ
key_waiters key_id waiters = length (keep (λ w. w.request.client.key_id == key_id) (values waiters))

-- `acquire` up to the pump: the guards in their order, then the waiter and its entry in the queue.
-- A failed queue operation leaves the waiter behind, as the program does.
unfoldable pub acquire_guards :
    ℕ
    → OperationalRuntimeView
    → Result AuthRuntimeView
    → AdmissionRequest
    → AdmissionController
    → Result (Unit {0})
acquire_guards now_ms view auth_view r c = do
  raise_if (send_closed (sync_runtime view.dispatches r.attempt_budget)) admission_unavailable
  raise_if (leb r.deadline_at_ms now_ms) admission_unavailable
  raise_if (member r.request_id c.waiters) value_error
  raise_if (leb c.max_waiters_global (length c.waiters)) admission_unavailable
  raise_if (leb r.authorization_ceiling.max_waiters (key_waiters r.client.key_id c.waiters))
      admission_unavailable
  raise_if (not (identity_allows r.client auth_view)) admission_unavailable

abbrev pub entered :
    AdmissionController → Result WdrrQueue → AdmissionController × Result (Unit {0})
entered c (raised e) = (c, raised e)
entered c (ok queue) = (record c { queue = queue }, ok tt)

abbrev pub acquire_behind :
    ℕ
    → AdmissionRequest
    → AdmissionController
    → Result (Unit {0})
    → AdmissionController × Result (Unit {0})
acquire_behind now_ms r c (raised e) = (c, raised e)
acquire_behind now_ms r c (ok u) =
    entered (record c { waiters = put r.request_id (new_waiter now_ms r) c.waiters })
      (do
        entry ←
            queue_entry r.request_id r.client.key_id r.authorization_ceiling.queue_tier
              r.authorization_ceiling.queue_weight r.authorization_ceiling.authorized_legs
        enqueue entry c.queue)

unfoldable pub acquire :
    ℕ
    → OperationalRuntimeView
    → Result AuthRuntimeView
    → AdmissionRequest
    → AdmissionController
    → AdmissionController × Result (Unit {0})
acquire now_ms view auth_view r c =
    let synced = record r { attempt_budget = sync_runtime view.dispatches r.attempt_budget } in
    acquire_behind now_ms synced c (acquire_guards now_ms view auth_view r c)

-- `_fail_waiter_locked`
abbrev pub fail_waiter : RequestId → AdmissionController → AdmissionController
fail_waiter request_id c = record c {
  queue = (cancel request_id c.queue).0;
  waiters = remove request_id c.waiters;
}
