-- ===== src/Gateway/Admission/Renewed.antt =====
-- The authorization that a dispatch goes by is the one that the waiter keeps.
use llmmaxxing.Base.{
  ◌≡◌, refl, subst, Bool, true, false, not, List, leb, if◌then◌else◌, Result, raised, ok, null,
  nat_eq, list_eq, option_eq, bool_eq, string_eq, guard-eq-ok, >>=-eq-ok, ok-injective,
}
use llmmaxxing.Base.{admission_unavailable}
use llmmaxxing.Core.Ids.{AccountId}
use llmmaxxing.Core.Reasons.{DispatchCause}
use llmmaxxing.Core.Models.Ceilings.{RequestAuthorizationCeiling, intersection}
use llmmaxxing.Core.Models.Ceilings.Contract.{Tighter}
use llmmaxxing.Gateway.Auth.{AuthRuntimeView}
use llmmaxxing.Gateway.Budget.{Candidate}
use llmmaxxing.Gateway.Queue.{WdrrQueue, key_position}
use llmmaxxing.Gateway.Queue.Choice.{QueueSelection}
use llmmaxxing.Gateway.Routing.Engine.{RouteEngine, authorize}
use llmmaxxing.Gateway.Admission.{
  AdmissionController, Waiter, contracted_to, routed, identity_allows, current_authorization,
}
use llmmaxxing.Gateway.Admission.Narrowing.{current_authorization-Narrowed}
use llmmaxxing.Gateway.Admission.Pump.{Moment, reserving, dispatch_at}
use llmmaxxing.Gateway.Admission.Dispatch.{Reserves, reserving_at}

contracted_to-ok :
    (queue : WdrrQueue) (w : Waiter) (r : Result RequestAuthorizationCeiling)
    {a : RequestAuthorizationCeiling}
    → (contracted_to queue w r).1 ≡ ok a
    → (contracted_to queue w r).0.effective_ceiling ≡ a
contracted_to-ok queue w (raised e) h = cc
contracted_to-ok queue w (ok c) h =
    let (_, h1) = guard-eq-ok (null c.authorized_legs) admission_unavailable _ h in
    let (position, _, h2) = >>=-eq-ok (key_position w.request.request_id queue) _ h1 in
    let (_, h3) = guard-eq-ok (leb c.max_waiters position) admission_unavailable _ h2 in
    ok-injective h3

routed-ok :
    (queue : WdrrQueue) (w : Waiter) (r : Result RequestAuthorizationCeiling)
    {a : RequestAuthorizationCeiling}
    → (routed queue w r).1 ≡ ok a
    → (routed queue w r).0.effective_ceiling ≡ a
routed-ok queue w (raised e) h = cc
routed-ok queue w (ok current) h =
    contracted_to-ok queue w (intersection w.effective_ceiling current) h

current_authorization-ok :
    (engine : RouteEngine) (auth_view : Result AuthRuntimeView) (queue : WdrrQueue) (w : Waiter)
    {a : RequestAuthorizationCeiling}
    → (current_authorization engine auth_view queue w).1 ≡ ok a
    → (identity_allows w.request.client auth_view ≡ true)
      × ((current_authorization engine auth_view queue w).0.effective_ceiling ≡ a)
unfolding current_authorization
current_authorization-ok engine auth_view queue w h =
    either (identity_allows w.request.client auth_view) refl _
      (routed-ok queue w (authorize engine w.request.client w.request.profile)) h
  where
    either :
        (b : Bool)
        → identity_allows w.request.client auth_view ≡ b
        → (p : Waiter × Result RequestAuthorizationCeiling) {a : RequestAuthorizationCeiling}
        → (p.1 ≡ ok a → p.0.effective_ceiling ≡ a)
        → (if not b then (w, raised admission_unavailable) else p).1 ≡ ok a
        → (identity_allows w.request.client auth_view ≡ true)
          × ((if not b then (w, raised admission_unavailable) else p).0.effective_ceiling ≡ a)
    either true e p k l = (e, k l)
    either false e p k l = cc

-- A turn that asks for a reservation does so for a client that the auth view of the moment lets in,
-- under an authorization no wider than the ceiling the request waited under; its candidate was
-- selected under that authorization before the deadline and was among the previews, the budget
-- can send it, and the key stays within the concurrency that the authorization allows.
pub dispatch_at-Reserves :
    (t : Moment) (s s' : QueueSelection) (withheld : List AccountId) (cause : DispatchCause)
    (seen : List Candidate) (c c' : AdmissionController) (w : Waiter)
    (a : RequestAuthorizationCeiling) (candidate : Candidate)
    → dispatch_at t s withheld cause seen c (current_authorization t.engine t.auth_view c.queue w)
      ≡ (c', ok (reserving s' a candidate))
    → (identity_allows w.request.client t.auth_view ≡ true)
      × Tighter a w.effective_ceiling
      × Reserves t cause withheld seen
          (current_authorization t.engine t.auth_view c.queue w).0
          a
          candidate
          c'
dispatch_at-Reserves t s s' withheld cause seen c c' w a candidate h =
    let (authorized, r) =
      reserving_at t s s' withheld cause seen c c'
        (current_authorization t.engine t.auth_view c.queue w) a candidate h in
    let (allowed, e) = current_authorization-ok t.engine t.auth_view c.queue w authorized in
    (
      allowed,
      subst (λ x. Tighter x w.effective_ceiling) e
          (current_authorization-Narrowed t.engine t.auth_view c.queue w).ceiling,
      r,
    )
