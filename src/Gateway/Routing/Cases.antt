-- ===== src/Gateway/Routing/Cases.antt =====
-- A concrete bundle, the authorization of a request by it, and the choice of its leg.
use llmmaxxing.Base.{
  ℕ, ◌≡◌, refl, inl, true, false, none, some, [], ◌∷◌, ok, keep, nat_eq, list_eq, option_eq,
  bool_eq, string_eq,
}
use llmmaxxing.Core.Reasons.{
  DispatchCause, FailureCause, FailureScope, trigger_eq, endpoint_eq, modality_eq,
}
use llmmaxxing.Core.StateMachines.{AccountState}
use llmmaxxing.Core.Models.Legs.{leg_meet, capabilities_meet}
use llmmaxxing.Core.Models.Accounts.{
  derive_and_guard_state, guard_attested, fully_attested, is_bound, has_credential,
}
use llmmaxxing.Core.Models.Keys.{valid_window, valid_lifetime_and_generations, check_accepted}
use llmmaxxing.Core.Models.Keys.Accepted.{Sound, valid_lifetime_and_generations-Sound}
use llmmaxxing.Core.Models.Routes.{route_leg, orders_unique_and_normalized, key_policy, unique_legs}
use llmmaxxing.Core.Models.Ceilings.{RequestAuthorizationCeiling, ceiling, intersection}
use llmmaxxing.Core.Models.Ceilings.Contract.{Tighter, intersection-refines}
use llmmaxxing.Core.Models.Bundles.{exact_membership}
use llmmaxxing.Core.Models.Bundles.Membership.{Granted, exact_membership-Granted}
use llmmaxxing.Core.Models.Bundles.Validate.{model_validate, leg_capabilities, authorized_leg}
use llmmaxxing.Gateway.Fixtures.{
  authorized, ceiling_of, key_record, policy, bundle, client, profile,
}
use llmmaxxing.Gateway.Budget.{Candidate}
use llmmaxxing.Gateway.Runtime.Circuits.{CircuitValue, closed_at}
use llmmaxxing.Gateway.Runtime.Requests.{JournalStatus}
use llmmaxxing.Gateway.Runtime.Recovery.{AccountCapacity}
use llmmaxxing.Gateway.Runtime.Views.{OperationalRuntimeView}
use llmmaxxing.Gateway.Routing.Classifier.{
  FailureObservation, FailureRule, failure_rule, matches, FailureClassification, classify,
  dispatch_cause,
}
use llmmaxxing.Gateway.Routing.Classifier.Evidence.{Explained, classify-Explained}
use llmmaxxing.Gateway.Routing.Engine.{tables_of, activate, authorize}
use llmmaxxing.Gateway.Routing.Authorized.{Rests, authorize-Rests}
use llmmaxxing.Gateway.Routing.Eligible.{
  Gate, RoutingContext, candidates, eligible, select, operationally_available,
}
use llmmaxxing.Gateway.Routing.Choice.{Chosen, select-Chosen, select-finds}
use llmmaxxing.Gateway.Routing.Fit.{Fit, eligible-Fit}
use llmmaxxing.Gateway.Routing.Blocked.{primary_blocking_cause, leg_blocker}
use llmmaxxing.Gateway.Routing.Fallback.{primary_blocking_cause-blocks}

key_passes : valid_lifetime_and_generations key_record ≡ ok key_record
unfolding valid_lifetime_and_generations check_accepted
key_passes = refl

valid_lifetime_and_generations-Sound_example : Sound key_record
valid_lifetime_and_generations-Sound_example =
    valid_lifetime_and_generations-Sound key_record {r = key_record} key_passes

intersection-refines_example :
    (r : RequestAuthorizationCeiling) × (intersection
        (ceiling_of 1 (authorized ∷ []))
        (ceiling_of 2 (authorized ∷ []))
      ≡ ok r)
    × Tighter r (ceiling_of 1 (authorized ∷ []))
    × Tighter r (ceiling_of 2 (authorized ∷ []))
intersection-refines_example =
    intersection-refines (ceiling_of 1 (authorized ∷ [])) (ceiling_of 2 (authorized ∷ [])) refl refl

keeps_leg :
    intersection (ceiling_of 1 (authorized ∷ [])) (ceiling_of 2 (authorized ∷ []))
    ≡ ok (ceiling_of 1 (authorized ∷ []))
unfolding intersection ceiling unique_legs leg_meet capabilities_meet
keeps_leg = refl

bundle_passes : exact_membership bundle ≡ ok bundle
unfolding exact_membership
bundle_passes = refl

exact_membership-Granted_example : Granted bundle policy authorized
exact_membership-Granted_example =
    exact_membership-Granted bundle {r = bundle} policy authorized bundle_passes (inl refl)
      (inl refl)

activates : activate (λ b. 9) bundle ≡ ok (tables_of 9 bundle)
unfolding activate model_validate leg_capabilities authorized_leg route_leg
    orders_unique_and_normalized key_policy unique_legs valid_window valid_lifetime_and_generations
    check_accepted derive_and_guard_state guard_attested fully_attested is_bound has_credential
    exact_membership
activates = refl

authorizes : authorize (tables_of 9 bundle) client profile ≡ ok (ceiling_of 1 (authorized ∷ []))
unfolding authorize ceiling unique_legs
authorizes = refl

authorize-Rests_example : Rests bundle client profile (ceiling_of 1 (authorized ∷ []))
authorize-Rests_example =
    authorize-Rests (λ b. 9) bundle client profile (tables_of 9 bundle)
      (ceiling_of 1 (authorized ∷ [])) activates authorizes

abbrev account_at : ℕ → CircuitValue → AccountCapacity
account_at active_attempts circuit = record {
  account_id = 3;
  state = AccountState.active;
  parallel_limit = 2;
  active_attempts = active_attempts;
  uncertain_attempts = 0;
  rpm_starts = 0;
  tpm_tokens = 0;
  monthly_quota_units = 0;
  account_circuit = circuit;
  monthly_reset_at_ms = 0;
  recovery_probe_in_flight = false;
  consumed_probe_tokens = 0;
}

abbrev view_at : ℕ → OperationalRuntimeView
view_at active_attempts = record {
  recovery_state = JournalStatus.healthy;
  time_high_water_ms = 1000;
  accounts = account_at active_attempts (closed_at 2) ∷ [];
  dispatches = [];
  circuits = [];
}

abbrev gate : Gate
gate leg manifest = ok true

abbrev context : RoutingContext
context = record { now_ms = 1000; deadline_at_ms = 6000; dispatcher_fence = 1; emergency = none }

abbrev chosen : Candidate
chosen = record {
  authorized_leg = authorized;
  cause = DispatchCause.primary;
  account_circuit = closed_at 2;
  deployment_circuit = closed_at 0;
}

selects :
    select gate 70
      (ceiling_of 1 (authorized ∷ []))
      profile
      DispatchCause.primary
      (view_at 1)
      context
      []
    ≡ some chosen
unfolding select candidates eligible operationally_available
selects = refl

select-Chosen_example :
    Chosen gate 70
      (ceiling_of 1 (authorized ∷ []))
      profile
      DispatchCause.primary
      (view_at 1)
      context
      []
      chosen
select-Chosen_example =
    select-Chosen gate 70 (ceiling_of 1 (authorized ∷ [])) profile DispatchCause.primary (view_at 1)
      context [] chosen selects

selects_none :
    select gate 70
      (ceiling_of 1 (authorized ∷ []))
      profile
      DispatchCause.primary
      (view_at 1)
      context
      (3 ∷ [])
    ≡ none
unfolding select candidates eligible operationally_available
selects_none = refl

authorized-Fit : Fit gate 70 authorized profile DispatchCause.primary (view_at 1) context
unfolding eligible operationally_available
authorized-Fit =
    eligible-Fit gate 70 authorized profile DispatchCause.primary (view_at 1) context refl

select-finds_example :
    (c : Candidate) × (select gate 70
        (ceiling_of 1 (authorized ∷ []))
        profile
        DispatchCause.primary
        (view_at 1)
        context
        []
      ≡ some c)
select-finds_example =
    select-finds gate 70 (ceiling_of 1 (authorized ∷ [])) profile DispatchCause.primary (view_at 1)
      context [] authorized refl (inl refl) refl authorized-Fit

blocked :
    primary_blocking_cause gate 70 (view_at 2) (ceiling_of 1 (authorized ∷ [])) profile
    ≡ some DispatchCause.capacity
unfolding primary_blocking_cause leg_blocker
blocked = refl

primary_blocking_cause-blocks_example :
    candidates gate 70
      (ceiling_of 1 (authorized ∷ []))
      profile
      DispatchCause.primary
      (view_at 2)
      context
      []
    ≡ []
primary_blocking_cause-blocks_example =
    primary_blocking_cause-blocks gate 70 (ceiling_of 1 (authorized ∷ [])) profile (view_at 2)
      context [] DispatchCause.capacity blocked

abbrev rate_limited : FailureRule
rate_limited = record {
  cause = FailureCause.capacity;
  scope = FailureScope.account;
  status_codes = 429 ∷ [];
  error_codes = [];
  message_contains = "rate limit" ∷ [];
}

abbrev refusal : FailureObservation
refusal = record {
  status_code = 429;
  error_code = none;
  message = "rate limit reached";
  pre_response_bytes = true;
}

rule_passes : failure_rule rate_limited ≡ ok rate_limited
unfolding failure_rule
rule_passes = refl

explains : keep (matches refusal) (rate_limited ∷ []) ≡ rate_limited ∷ []
unfolding matches
explains = refl

classify-Explained_example :
    (c : FailureClassification) × (classify (λ o. o.status_code) (rate_limited ∷ []) refusal ≡ ok c)
    × Explained (rate_limited ∷ []) refusal c (dispatch_cause c)
classify-Explained_example =
    classify-Explained (λ o. o.status_code) (rate_limited ∷ []) refusal (rule_passes, tt)
