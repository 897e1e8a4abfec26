-- ===== src/Gateway/Admission/Pump.antt =====
-- src/llmmaxxing/gateway/scheduler.py: `_preview`, `_previews` and one turn of `_pump_locked`, from the
-- previews to the reservation that it asks for, and what it does with a denial. A moment is what
-- the code reads at one point: the clock, the auth view, the engine and the runtime's view. The
-- clock is read once for each preview, and once behind the activation gate.
use llmmaxxing.Base.{
  ℕ, Bool, true, false, not, ◌&&◌, ◌||◌, Option, none, some, List, [], ◌∷◌, map, ltb, leb, ◌==◌,
  if◌then◌else◌, Result, raised, ok, ◌>>=◌, or_raise, same, contains, keep, all, null, nat_eq,
  list_eq, option_eq, bool_eq, string_eq, or_default, Failure, sort_by,
}
use llmmaxxing.Base.{key_error}
use llmmaxxing.Base.Dict.{Dict, lookup, lookup_or, member, put, keys, values, dict_by}
use llmmaxxing.Core.Ids.{RequestId, AccountId}
use llmmaxxing.Core.Reasons.{DispatchCause, cause_eq}
use llmmaxxing.Core.Models.Legs.{leg_eq}
use llmmaxxing.Core.Models.Ceilings.{RequestAuthorizationCeiling}
use llmmaxxing.Gateway.Auth.{AuthRuntimeView}
use llmmaxxing.Gateway.Budget.{sync_runtime, can_send, Candidate}
use llmmaxxing.Gateway.Queue.{WdrrQueue, contract, propose, unprotected_accounts}
use llmmaxxing.Gateway.Queue.Choice.{QueueSelection}
use llmmaxxing.Gateway.Runtime.Requests.{ReservationDenied}
use llmmaxxing.Gateway.Runtime.Views.{OperationalRuntimeView}
use llmmaxxing.Gateway.Routing.Engine.{RouteEngine}
use llmmaxxing.Gateway.Routing.Eligible.{Gate, RoutingContext, candidates, select}
use llmmaxxing.Gateway.Routing.Blocked.{primary_blocking_cause}
use llmmaxxing.Gateway.Admission.{
  AdmissionController, Waiter, active_of, acquire_active, release_active, current_authorization,
  denial_cause, fail_waiter,
}

pub record Moment : Type 0 where
  pub now_ms : ℕ
  pub engine : RouteEngine
  pub gate : Gate
  pub auth_view : Result AuthRuntimeView
  pub view : OperationalRuntimeView

-- `_routing_context`
abbrev pub context_of : Moment → Waiter → RoutingContext
context_of t w = record {
  now_ms = t.now_ms;
  deadline_at_ms = w.effective_deadline_at_ms;
  dispatcher_fence = w.request.runtime_identity.dispatcher_fence;
  emergency = w.request.emergency;
}

abbrev pub with_waiter : RequestId → Waiter → AdmissionController → AdmissionController
with_waiter id w c = record c { waiters = put id w c.waiters }

-- The waiter's budget is brought up to date with the view.
abbrev pub synced : Moment → Waiter → Waiter
synced t w = record w {
  request = record w.request {
    attempt_budget = sync_runtime t.view.dispatches w.request.attempt_budget;
  };
}

-- The queue's entry takes on what the authorization has contracted to.
unfoldable pub aligned : RequestId → RequestAuthorizationCeiling → WdrrQueue → Result WdrrQueue
aligned id a queue = do
  queued ← or_raise (lookup id queue.queued) key_error
  (if not (queued.entry.tier == a.queue_tier)
        || not (queued.entry.weight == a.queue_weight)
        || not (same queued.entry.authorized_legs a.authorized_legs)
      then contract id (some a.queue_tier) (some a.queue_weight) (some a.authorized_legs) queue
        >>= (λ changed. ok changed.1)
      else ok queue)

-- `RouteEngine.filter` for the waiter.
abbrev pub candidates_for :
    Moment → Waiter → RequestAuthorizationCeiling → DispatchCause → List Candidate
candidates_for t w a cause =
    candidates t.gate t.engine.bundle.backend_manifest_hash a w.request.profile cause t.view
      (context_of t w) []

abbrev pub or_fallback :
    Moment → Waiter → RequestAuthorizationCeiling → Option DispatchCause → List Candidate
or_fallback t w a none = []
or_fallback t w a (some fallback) = candidates_for t w a fallback

abbrev pub options_at :
    Moment → Waiter → RequestAuthorizationCeiling → DispatchCause → List Candidate
options_at t w a cause =
    let found = candidates_for t w a cause in
    if null found && same cause DispatchCause.primary
    then or_fallback t w a (
        primary_blocking_cause t.gate t.engine.bundle.backend_manifest_hash t.view a
          w.request.profile)
    else found

-- What the waiter could be sent to now.
abbrev pub sendable : Moment → Waiter → RequestAuthorizationCeiling → List Candidate
sendable t w a =
    keep (λ candidate. can_send candidate w.request.attempt_budget)
      (options_at t w a (or_default w.request.cause w.fallback_once))

abbrev pub offered :
    Moment
    → RequestId
    → Waiter
    → RequestAuthorizationCeiling
    → AdmissionController
    → AdmissionController × Result (List Candidate)
offered t id w a c =
    if leb w.effective_deadline_at_ms t.now_ms
    then (fail_waiter id c, ok [])
    else if leb a.max_concurrency (active_of w.request.client.key_id c.active_by_key)
    then (c, ok [])
    else (with_waiter id (synced t w) c, ok (sendable t (synced t w) a))

abbrev pub after_aligned :
    Moment
    → RequestId
    → Waiter
    → RequestAuthorizationCeiling
    → AdmissionController
    → Result WdrrQueue
    → AdmissionController × Result (List Candidate)
after_aligned t id w a c (raised e) = (c, raised e)
after_aligned t id w a c (ok queue) = offered t id w a (record c { queue = queue })

-- `except AdmissionUnavailable`
abbrev pub is_unavailable : Failure → Bool
is_unavailable e = elim e [ Failure.admission_unavailable ↦ true | _ ↦ false ]

abbrev pub after_authorization :
    Moment
    → RequestId
    → AdmissionController
    → Waiter × Result RequestAuthorizationCeiling
    → AdmissionController × Result (List Candidate)
after_authorization t id c (w, raised e) =
    if is_unavailable e then (fail_waiter id c, ok []) else (with_waiter id w c, raised e)
after_authorization t id c (w, ok a) =
    after_aligned t id w a (with_waiter id w c) (aligned id a c.queue)

-- `_preview`
unfoldable pub preview :
    Moment
    → RequestId
    → Waiter
    → AdmissionController
    → AdmissionController × Result (List Candidate)
preview t id w c = after_authorization t id c (current_authorization t.engine t.auth_view c.queue w)

abbrev Previews : Type 0
Previews = Dict RequestId (List Candidate)

-- A preview that is not empty is noted, and the loop goes on from the controller it left.
abbrev pub noted :
    RequestId
    → Previews
    → (AdmissionController → Previews → AdmissionController × Result Previews)
    → AdmissionController × Result (List Candidate)
    → AdmissionController × Result Previews
noted id found rest (c, raised e) = (c, raised e)
noted id found rest (c, ok []) = rest c found
noted id found rest (c, ok (x ∷ xs)) = rest c (put id (x ∷ xs) found)

-- `_previews`, over the ids of the queue's entries as it found them.
abbrev pub previews_from :
    Moment → List RequestId → AdmissionController → Previews → AdmissionController × Result Previews
previews_from t [] c found = (c, ok found)
previews_from t (id ∷ ids) c found = elim (lookup id c.waiters) [
  | none ↦ previews_from t ids c found
  | some w ↦ noted id found (previews_from t ids) (preview t id w c)
]

-- `tuple(dict.fromkeys(candidate.account_id for candidate in candidates))`
abbrev pub accounts_of : List Candidate → List AccountId
accounts_of cs = keys (dict_by (λ id. id) (map (λ c. c.authorized_leg.account_id) cs))

-- How a turn ends: the pump returns, tries the next request, begins anew, or reserves.
pub data Turn : Type 0 where
  idle : Turn
  skipped : RequestId → Turn
  again : Turn
  reserving : QueueSelection → RequestAuthorizationCeiling → Candidate → Turn

-- The guards in front of the reservation.
abbrev pub reserve_with :
    QueueSelection
    → Waiter
    → RequestAuthorizationCeiling
    → List Candidate
    → AdmissionController
    → Option Candidate
    → AdmissionController × Result Turn
reserve_with s w a seen c none = (c, ok (skipped s.entry.request_id))
reserve_with s w a seen c (some candidate) =
    let key_id = w.request.client.key_id in
    let (active, taken) = acquire_active key_id a.max_concurrency c.active_by_key in
    if all (λ p. not (same candidate.authorized_leg p.authorized_leg)) seen
      || not (can_send candidate w.request.attempt_budget)
    then (c, ok (skipped s.entry.request_id))
    else if not taken
    then (c, ok (skipped s.entry.request_id))
    else (record c { active_by_key = active }, ok (reserving s a candidate))

-- `if waiter.fallback_once is desired_cause: waiter.fallback_once = None`
abbrev pub settled_cause : DispatchCause → Waiter → Waiter
settled_cause cause w = record w {
  fallback_once = if same w.fallback_once (some cause) then none else w.fallback_once;
}

-- Behind the activation gate, with the authorization of that moment.
abbrev pub dispatch_at :
    Moment
    → QueueSelection
    → List AccountId
    → DispatchCause
    → List Candidate
    → AdmissionController
    → Waiter × Result RequestAuthorizationCeiling
    → AdmissionController × Result Turn
dispatch_at t s withheld cause seen c (w, raised e) =
    if is_unavailable e
    then (fail_waiter s.entry.request_id c, ok again)
    else (with_waiter s.entry.request_id w c, raised e)
dispatch_at t s withheld cause seen c (w, ok a) =
    let ready = synced t (settled_cause cause w) in
    if leb w.effective_deadline_at_ms t.now_ms
    then (fail_waiter s.entry.request_id c, ok again)
    else reserve_with s ready a seen (with_waiter s.entry.request_id ready c) (
        select t.gate t.engine.bundle.backend_manifest_hash a w.request.profile cause t.view
          (context_of t w) withheld)

-- The request that the queue proposes, against what the previews found for it.
abbrev pub proposed :
    Moment → Previews → QueueSelection → AdmissionController → AdmissionController × Result Turn
proposed t found s c = with_preview (lookup_or s.entry.request_id [] found)
  where
    with_preview : List Candidate → AdmissionController × Result Turn
    with_preview [] = (c, raised Failure.key_error)
    with_preview (p ∷ ps) =
        let mine = accounts_of (p ∷ ps) in
        let others = map (λ item. (item.0, accounts_of item.1)) found in
        let allowed = unprotected_accounts s.entry mine others c.queue in
        if null allowed
        then (c, ok (skipped s.entry.request_id))
        else elim (lookup s.entry.request_id c.waiters) [
          | none ↦ (c, raised Failure.key_error)
          | some w ↦
              dispatch_at t s (keep (λ id. not (contains id allowed)) mine) p.cause (p ∷ ps) c
                (current_authorization t.engine t.auth_view c.queue w)
        ]

abbrev pub on_selection :
    Moment
    → Previews
    → AdmissionController
    → Result (Option QueueSelection)
    → AdmissionController × Result Turn
on_selection t found c (raised e) = (c, raised e)
on_selection t found c (ok none) = (c, ok idle)
on_selection t found c (ok (some s)) = proposed t found s c

abbrev pub after_previews :
    Moment
    → List RequestId
    → AdmissionController × Result Previews
    → AdmissionController × Result Turn
after_previews t excluded (c, raised e) = (c, raised e)
after_previews t excluded (c, ok found) =
    on_selection t found c (propose (λ entry. member entry.request_id found) excluded c.queue)

-- One turn of `_pump_locked`: the previews at `t`, the dispatch at `t'`.
unfoldable pub turn :
    Moment → Moment → List RequestId → AdmissionController → AdmissionController × Result Turn
turn t t' excluded c =
    let entries = sort_by (λ a b. ltb a.sequence b.sequence) (values c.queue.queued) in
    after_previews t' excluded (previews_from t (map (λ item. item.entry.request_id) entries) c [])

-- The request falls back once, or is excluded for the rest of the round.
abbrev pub fall_back :
    RequestId → Waiter → AdmissionController → Option DispatchCause → AdmissionController × Turn
fall_back id w c none = (c, skipped id)
fall_back id w c (some cause) = (with_waiter id (record w { fallback_once = some cause }) c, again)

-- What the pump does with a denied reservation: the place among the key's active requests is given
-- back before that.
unfoldable pub denied_reservation :
    RequestId → Waiter → ReservationDenied → AdmissionController → AdmissionController × Turn
denied_reservation id w denial c =
    fall_back id w
      (record c { active_by_key = release_active w.request.client.key_id c.active_by_key })
      (denial_cause denial)
