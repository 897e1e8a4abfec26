-- ===== src/Gateway/Admission/Narrowing.antt =====
-- What renewed authorizations do to a request that waits: its ceiling and its deadline only shrink.
use llmmaxxing.Base.{
  ℕ, ◌+◌, ◌≤◌, ◌≡◌, refl, ◌∙◌, Bool, true, false, not, List, [], ◌∷◌, arith, if◌then◌else◌, Result,
  raised, ok, nat_eq, list_eq, option_eq, bool_eq, string_eq,
}
use llmmaxxing.Core.Models.Ceilings.{RequestAuthorizationCeiling, intersection}
use llmmaxxing.Core.Models.Ceilings.Contract.{Tighter, intersection-Tighter}
use llmmaxxing.Core.Models.Ceilings.Order.{Tighter-refl, Tighter-trans, no_legs-Tighter}
use llmmaxxing.Gateway.Auth.{AuthRuntimeView}
use llmmaxxing.Gateway.Queue.{WdrrQueue}
use llmmaxxing.Gateway.Routing.Engine.{RouteEngine, authorize}
use llmmaxxing.Gateway.Admission.{
  Waiter, AdmissionRequest, new_waiter, contracted_to, routed, identity_allows,
  current_authorization,
}

-- The waiter `new` waits under no wider terms than `old`.
pub record Narrowed (new old : Waiter) : Type 0 where
  pub ceiling : Tighter new.effective_ceiling old.effective_ceiling
  pub deadline : new.effective_deadline_at_ms ≤ old.effective_deadline_at_ms
  pub request : new.request ≡ old.request
  pub admitted : new.admitted_at_ms ≡ old.admitted_at_ms

Narrowed-refl : (w : Waiter) → Narrowed w w
Narrowed-refl w = record {
  ceiling = Tighter-refl w.effective_ceiling;
  deadline = omega arith;
  request = refl;
  admitted = refl;
}

Narrowed-trans : (u v w : Waiter) → Narrowed u v → Narrowed v w → Narrowed u w
Narrowed-trans u v w h k = record {
  ceiling =
      Tighter-trans u.effective_ceiling v.effective_ceiling w.effective_ceiling h.ceiling k.ceiling;
  deadline = omega (arith, h.deadline, k.deadline);
  request = h.request ∙ k.request;
  admitted = h.admitted ∙ k.admitted;
}

contracted_to-Narrowed :
    (queue : WdrrQueue) (w : Waiter) (current : RequestAuthorizationCeiling)
    (r : Result RequestAuthorizationCeiling)
    → intersection w.effective_ceiling current ≡ r
    → Narrowed (contracted_to queue w r).0 w
contracted_to-Narrowed queue w current (raised e) h = Narrowed-refl w
contracted_to-Narrowed queue w current (ok c) h = record {
  ceiling = (intersection-Tighter w.effective_ceiling current h).0;
  deadline = omega arith;
  request = refl;
  admitted = refl;
}

routed-Narrowed :
    (queue : WdrrQueue) (w : Waiter) (r : Result RequestAuthorizationCeiling)
    → Narrowed (routed queue w r).0 w
routed-Narrowed queue w (raised e) = record {
  ceiling = no_legs-Tighter w.effective_ceiling;
  deadline = omega arith;
  request = refl;
  admitted = refl;
}
routed-Narrowed queue w (ok current) =
    contracted_to-Narrowed queue w current (intersection w.effective_ceiling current) refl

pub current_authorization-Narrowed :
    (engine : RouteEngine) (auth_view : Result AuthRuntimeView) (queue : WdrrQueue) (w : Waiter)
    → Narrowed (current_authorization engine auth_view queue w).0 w
unfolding current_authorization
current_authorization-Narrowed engine auth_view queue w =
    either (not (identity_allows w.request.client auth_view)) _ _ (Narrowed-refl w)
      (routed-Narrowed queue w (authorize engine w.request.client w.request.profile))
  where
    either :
        (b : Bool) (e : Result RequestAuthorizationCeiling)
        (p : Waiter × Result RequestAuthorizationCeiling)
        → Narrowed w w
        → Narrowed p.0 w
        → Narrowed (if b then (w, e) else p).0 w
    either true e p h k = h
    either false e p h k = k

-- What one renewal sees: the engine, the auth view and the queue of its time.
pub record Renewal : Type 0 where
  pub engine : RouteEngine
  pub auth_view : Result AuthRuntimeView
  pub queue : WdrrQueue

-- Renewals one after the other, whatever each answers.
abbrev pub renewed : List Renewal → Waiter → Waiter
renewed [] w = w
renewed (r ∷ rs) w = renewed rs (current_authorization r.engine r.auth_view r.queue w).0

renewed-Narrowed : (rs : List Renewal) (w : Waiter) → Narrowed (renewed rs w) w
renewed-Narrowed [] w = Narrowed-refl w
renewed-Narrowed (r ∷ rs) w =
    let next = (current_authorization r.engine r.auth_view r.queue w).0 in
    Narrowed-trans (renewed rs next) next w (renewed-Narrowed rs next)
      (current_authorization-Narrowed r.engine r.auth_view r.queue w)

-- However often the authorization of a waiting request is renewed, and whatever each renewal sees
-- and answers, the request waits under no wider ceiling than it was admitted with, and under no
-- later deadline than that of its admission.
pub renewed-admitted :
    (rs : List Renewal) (now_ms : ℕ) (r : AdmissionRequest)
    → Tighter (renewed rs (new_waiter now_ms r)).effective_ceiling r.authorization_ceiling
      × ((renewed rs (new_waiter now_ms r)).effective_deadline_at_ms ≤ r.deadline_at_ms)
      × ((renewed rs (new_waiter now_ms r)).effective_deadline_at_ms
          ≤ now_ms + r.authorization_ceiling.deadline_ms)
renewed-admitted rs now_ms r =
    let n = renewed-Narrowed rs (new_waiter now_ms r) in
    (n.ceiling, omega (arith, n.deadline), omega (arith, n.deadline))
