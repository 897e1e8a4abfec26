-- ===== src/Gateway/Routing/Eligible.antt =====
-- src/llmmaxxing/gateway/routing.py: which legs `RouteEngine` finds eligible, and which it selects.
-- The generation gate is a parameter; what it raises counts as a refusal.
use llmmaxxing.Base.{
  ℕ, Bool, true, false, not, ◌&&◌, ◌||◌, Option, none, some, List, [], ◌∷◌, map, ltb, leb, ◌==◌,
  if◌then◌else◌, Result, raised, ok, ◌>>◌, raise_if, value_error, same, contains, keep, find,
  nat_eq, list_eq, option_eq, bool_eq, string_eq,
}
use llmmaxxing.Core.Ids.{AccountId, Digest}
use llmmaxxing.Core.Reasons.{DispatchCause, RouteTrigger, trigger_eq, cause_eq}
use llmmaxxing.Core.StateMachines.{AccountState}
use llmmaxxing.Core.Models.Legs.{AuthorizedLeg, RequestProfile}
use llmmaxxing.Core.Models.Ceilings.{RequestAuthorizationCeiling}
use llmmaxxing.Gateway.Budget.{Candidate}
use llmmaxxing.Gateway.Runtime.Circuits.{CircuitState, CircuitValue, closed_at, state_eq, opened}
use llmmaxxing.Gateway.Runtime.Requests.{JournalStatus}
use llmmaxxing.Gateway.Runtime.Recovery.{AccountCapacity}
use llmmaxxing.Gateway.Runtime.Views.{OperationalRuntimeView, CircuitOperationalValue}
use llmmaxxing.Gateway.Routing.{EmergencyActivation, permits, capabilities_allow}

pub record RoutingContext : Type 0 where
  pub now_ms : ℕ
  pub deadline_at_ms : ℕ
  pub dispatcher_fence : ℕ
  pub emergency : Option EmergencyActivation

-- `RoutingContext.__post_init__`
unfoldable pub routing_context : RoutingContext → Result RoutingContext
routing_context c = do
  raise_if (ltb c.now_ms 1 || ltb c.deadline_at_ms 1 || ltb c.dispatcher_fence 1) value_error
  ok c

-- `GenerationOperationalGate.permits`
abbrev pub Gate : Type 0
Gate = AuthorizedLeg → Digest → Result Bool

abbrev pub gate_allows : Result Bool → Bool
gate_allows (raised e) = false
gate_allows (ok answer) = answer

-- `_CAUSE_TRIGGER`
abbrev pub cause_trigger : DispatchCause → RouteTrigger
cause_trigger DispatchCause.primary = RouteTrigger.primary
cause_trigger DispatchCause.capacity = RouteTrigger.capacity_spill
cause_trigger DispatchCause.failure = RouteTrigger.failure_fallback
cause_trigger DispatchCause.quota = RouteTrigger.quota_fallback
cause_trigger DispatchCause.manual_emergency = RouteTrigger.manual_emergency
cause_trigger DispatchCause.shadow = RouteTrigger.shadow

abbrev pub account_in : OperationalRuntimeView → AuthorizedLeg → Option AccountCapacity
account_in view leg = find (λ item. item.account_id == leg.account_id) view.accounts

abbrev value_or_closed : Option CircuitOperationalValue → CircuitValue
value_or_closed none = closed_at 0
value_or_closed (some item) = item.value

abbrev pub deployment_circuit_in : OperationalRuntimeView → AuthorizedLeg → CircuitValue
deployment_circuit_in view leg = value_or_closed (
    find
      (λ item.
        item.account_id == leg.account_id && item.deployment_generation_id == leg.generation_id)
      view.circuits)

abbrev account_circuit_of : Option AccountCapacity → CircuitValue
account_circuit_of none = closed_at 0
account_circuit_of (some account) = account.account_circuit

-- `candidate` at a view, with `_circuits`
abbrev pub candidate : AuthorizedLeg → DispatchCause → OperationalRuntimeView → Candidate
candidate leg cause view = record {
  authorized_leg = leg;
  cause = cause;
  account_circuit = account_circuit_of (account_in view leg);
  deployment_circuit = deployment_circuit_in view leg;
}

abbrev pub is_healthy : JournalStatus → Bool
is_healthy status = elim status [ JournalStatus.healthy ↦ true | _ ↦ false ]

abbrev pub account_is_active : AccountState → Bool
account_is_active state = elim state [ AccountState.active ↦ true | _ ↦ false ]

abbrev pub account_open : Option AccountCapacity → Bool
account_open none = false
account_open (some account) = not (
    not (account_is_active account.state)
    || account.recovery_probe_in_flight
    || leb account.parallel_limit account.active_attempts
    || same account.account_circuit.state opened)

module _ (gate : Gate) (manifest : Digest) where
  -- `_operationally_available`
  unfoldable pub operationally_available : AuthorizedLeg → OperationalRuntimeView → Bool
  operationally_available leg view =
      if not (gate_allows (gate leg manifest))
      then false
      else if not (is_healthy view.recovery_state)
      then false
      else if not (account_open (account_in view leg))
      then false
      else not (same (deployment_circuit_in view leg).state opened)

  abbrev pub emergency_permits : Option EmergencyActivation → AuthorizedLeg → RoutingContext → Bool
  emergency_permits none leg c = false
  emergency_permits (some e) leg c =
      permits e leg.leg_id c.now_ms c.deadline_at_ms c.dispatcher_fence

  unfoldable pub eligible :
      AuthorizedLeg
      → RequestProfile
      → DispatchCause
      → OperationalRuntimeView
      → RoutingContext
      → Bool
  eligible leg profile cause view context =
      if leg.capabilities.shadow || contains RouteTrigger.shadow leg.allowed_triggers
      then false
      else if not (contains (cause_trigger cause) leg.allowed_triggers)
      then false
      else if not (capabilities_allow leg profile)
      then false
      else if same cause DispatchCause.manual_emergency
          && not (emergency_permits context.emergency leg context)
      then false
      else ltb context.now_ms context.deadline_at_ms && operationally_available leg view

  -- `filter`, whose name is the library's.
  unfoldable pub candidates :
      RequestAuthorizationCeiling
      → RequestProfile
      → DispatchCause
      → OperationalRuntimeView
      → RoutingContext
      → List AccountId
      → List Candidate
  candidates authorization profile cause view context excluded =
      if not (profile.route_group_id == authorization.route_group_id)
      then []
      else map (λ leg. candidate leg cause view)
          (keep
            (λ leg.
              not (contains leg.account_id excluded) && eligible leg profile cause view context)
            authorization.authorized_legs)

  abbrev pub first : List Candidate → Option Candidate
  first [] = none
  first (c ∷ cs) = some c

  unfoldable pub select :
      RequestAuthorizationCeiling
      → RequestProfile
      → DispatchCause
      → OperationalRuntimeView
      → RoutingContext
      → List AccountId
      → Option Candidate
  select authorization profile cause view context excluded =
      first (candidates authorization profile cause view context excluded)

  abbrev pub both_closed : Candidate → Bool
  both_closed c =
      same c.account_circuit.state CircuitState.closed
      && same c.deployment_circuit.state CircuitState.closed

  -- A leg that the loop of `shadow_candidate` does not skip.
  abbrev pub shadow_leg : RequestProfile → OperationalRuntimeView → AuthorizedLeg → Bool
  shadow_leg profile view leg = not (
      not (contains RouteTrigger.shadow leg.allowed_triggers)
      || not leg.capabilities.shadow
      || not (capabilities_allow leg profile)
      || not (operationally_available leg view))

  abbrev pub shadow_from :
      RequestProfile → OperationalRuntimeView → List AuthorizedLeg → Option Candidate
  shadow_from profile view [] = none
  shadow_from profile view (leg ∷ legs) =
      let rest = shadow_from profile view legs in
      let c = candidate leg DispatchCause.shadow view in
      if not (shadow_leg profile view leg) then rest else if both_closed c then some c else rest

  unfoldable pub shadow_candidate :
      RequestAuthorizationCeiling
      → RequestProfile
      → OperationalRuntimeView
      → RoutingContext
      → Option Candidate
  shadow_candidate authorization profile view context =
      if not (profile.route_group_id == authorization.route_group_id)
        || leb context.deadline_at_ms context.now_ms
      then none
      else shadow_from profile view authorization.authorized_legs
