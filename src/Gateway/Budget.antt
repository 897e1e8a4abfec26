-- ===== src/Gateway/Budget.antt =====
-- src/llmmaxxing/gateway/routing.py: `Candidate` and `AttemptBudget`, the request's own view of its
-- durable sends.
pub mod Sends
mod Samples
use llmmaxxing.Base.{
  ℕ, Bool, true, false, not, ◌&&◌, ◌||◌, Option, none, some, List, [], ◌∷◌, ◌++◌, ltb, leb, ◌==◌,
  if◌then◌else◌, same, length, any, all, contains, null, sort_by, map, Result, ok, raise_if, ◌>>=◌,
  ◌>>◌, value_error, nat_eq,
}
use llmmaxxing.Core.Ids.{
  RequestId, AttemptId, RouteLegId, AccountId, DeploymentGenerationId, ProbeToken,
}
use llmmaxxing.Core.Reasons.{DispatchCause, cause_eq}
use llmmaxxing.Core.Models.Legs.{AuthorizedLeg}
use llmmaxxing.Gateway.Runtime.Circuits.{CircuitValue, half_open, state_eq}
use llmmaxxing.Gateway.Runtime.Requests.{Dispatch}

pub record Candidate : Type 0 where
  pub authorized_leg : AuthorizedLeg
  pub cause : DispatchCause
  pub account_circuit : CircuitValue
  pub deployment_circuit : CircuitValue

pub record DispatchedAttempt : Type 0 where
  pub attempt_id : AttemptId
  pub leg_id : RouteLegId
  pub generation_id : DeploymentGenerationId
  pub circuit_epoch : ℕ
  pub account_circuit_epoch : ℕ
  pub probe_ids : List ProbeToken

pub record AttemptBudget : Type 0 where
  pub request_id : RequestId
  pub attempts : List DispatchedAttempt
  pub response_started : Bool

abbrev pub new_budget : RequestId → AttemptBudget
new_budget request_id = record { request_id = request_id; attempts = []; response_started = false }

abbrev present : Option ProbeToken → List ProbeToken
present none = []
present (some probe_id) = probe_id ∷ []

abbrev pub of_dispatch : Dispatch → DispatchedAttempt
of_dispatch d = record {
  attempt_id = d.attempt_id;
  leg_id = d.leg_id;
  generation_id = d.deployment_generation_id;
  circuit_epoch = d.circuit_epoch;
  account_circuit_epoch = d.account_circuit_epoch;
  probe_ids = present d.account_circuit_probe_id ++ present d.circuit_probe_id;
}

-- The loop of `sync_runtime` over the view's dispatches.
abbrev pub collect : RequestId → List DispatchedAttempt → List Dispatch → List DispatchedAttempt
collect request_id attempts [] = attempts
collect request_id attempts (d ∷ ds) =
    collect request_id
      (if not (d.request_id == request_id)
          || contains d.attempt_id (map (λ attempt. attempt.attempt_id) attempts)
        then attempts
        else attempts ++ of_dispatch d ∷ [])
      ds

unfoldable pub sync_runtime : List Dispatch → AttemptBudget → AttemptBudget
sync_runtime dispatches budget = record budget {
  attempts =
      sort_by (λ a b. ltb a.attempt_id b.attempt_id)
        (collect budget.request_id budget.attempts dispatches);
}

unfoldable pub send_closed : AttemptBudget → Bool
send_closed budget = budget.response_started || leb 3 (length budget.attempts)

abbrev pub mark_response_started : AttemptBudget → AttemptBudget
mark_response_started budget = record budget { response_started = true }

abbrev half_open_probe : CircuitValue → List ProbeToken
half_open_probe circuit = if same circuit.state half_open then present circuit.probe_id else []

-- `_probe_ids`
abbrev pub candidate_probes : Candidate → List ProbeToken
candidate_probes c = half_open_probe c.account_circuit ++ half_open_probe c.deployment_circuit

abbrev pub is_repeat : Candidate → DispatchedAttempt → Bool
is_repeat c attempt =
    attempt.leg_id == c.authorized_leg.leg_id
    && attempt.circuit_epoch == c.deployment_circuit.epoch
    && attempt.account_circuit_epoch == c.account_circuit.epoch

abbrev pub probes_unused : List ProbeToken → List DispatchedAttempt → Bool
probes_unused probes attempts =
    all (λ probe_id. all (λ attempt. not (contains probe_id attempt.probe_ids)) attempts) probes

unfoldable pub can_send : Candidate → AttemptBudget → Bool
can_send c budget =
    if send_closed budget
    then false
    else if any (is_repeat c) budget.attempts
    then false
    else if not
        (any (λ attempt. attempt.generation_id == c.authorized_leg.generation_id) budget.attempts)
    then true
    else same c.cause DispatchCause.capacity
      && not (null (candidate_probes c))
      && probes_unused (candidate_probes c) budget.attempts

abbrev pub sent : Candidate → AttemptId → DispatchedAttempt
sent c attempt_id = record {
  attempt_id = attempt_id;
  leg_id = c.authorized_leg.leg_id;
  generation_id = c.authorized_leg.generation_id;
  circuit_epoch = c.deployment_circuit.epoch;
  account_circuit_epoch = c.account_circuit.epoch;
  probe_ids = candidate_probes c;
}

unfoldable pub record_send : Candidate → AttemptId → AttemptBudget → Result AttemptBudget
record_send c attempt_id budget = do
  raise_if (not (can_send c budget)) value_error
  ok (record budget { attempts = budget.attempts ++ sent c attempt_id ∷ [] })
