-- ===== src/Gateway/Routing/Blocked.antt =====
-- src/llmmaxxing/gateway/routing.py: `RouteEngine.primary_blocking_cause`. A set of causes is a list
-- without repetition; `none` stands for the method's early `return None`.
use llmmaxxing.Base.{
  Bool, not, ◌&&◌, ◌||◌, Option, none, some, List, [], ◌∷◌, leb, if◌then◌else◌, same, contains,
  keep, null, nat_eq, list_eq, option_eq, bool_eq, string_eq,
}
use llmmaxxing.Core.Ids.{Digest}
use llmmaxxing.Core.Reasons.{DispatchCause, RouteTrigger, trigger_eq, cause_eq}
use llmmaxxing.Core.Models.Legs.{AuthorizedLeg, RequestProfile}
use llmmaxxing.Core.Models.Ceilings.{RequestAuthorizationCeiling}
use llmmaxxing.Gateway.Runtime.Circuits.{CircuitCause, CircuitValue, state_eq, opened}
use llmmaxxing.Gateway.Runtime.Recovery.{AccountCapacity}
use llmmaxxing.Gateway.Runtime.Views.{OperationalRuntimeView}
use llmmaxxing.Gateway.Routing.{capabilities_allow}
use llmmaxxing.Gateway.Routing.Eligible.{
  Gate, gate_allows, account_in, deployment_circuit_in, account_is_active,
}

-- `set.add`
abbrev pub add : DispatchCause → List DispatchCause → List DispatchCause
add c causes = if contains c causes then causes else c ∷ causes

-- `circuit_causes.get(circuit.cause)`
abbrev pub circuit_dispatch : Option CircuitCause → Option DispatchCause
circuit_dispatch (some CircuitCause.capacity) = some DispatchCause.capacity
circuit_dispatch (some CircuitCause.transient_failure) = some DispatchCause.failure
circuit_dispatch (some CircuitCause.quota) = some DispatchCause.quota
circuit_dispatch (some CircuitCause.manual) = none
circuit_dispatch none = none

abbrev added : Option DispatchCause → List DispatchCause → Option (List DispatchCause)
added none blockers = none
added (some c) blockers = some (add c blockers)

-- One circuit's contribution to the leg's blockers.
abbrev pub circuit_blocker :
    CircuitValue → Option (List DispatchCause) → Option (List DispatchCause)
circuit_blocker circuit none = none
circuit_blocker circuit (some blockers) =
    if same circuit.state opened
    then added (circuit_dispatch circuit.cause) blockers
    else some blockers

-- `len(causes) == 1`
abbrev pub only_one : Option (List DispatchCause) → Option DispatchCause
only_one none = none
only_one (some []) = none
only_one (some (c ∷ [])) = some c
only_one (some (c ∷ d ∷ cs)) = none

module _ (gate : Gate) (manifest : Digest) (view : OperationalRuntimeView) where
  -- The only blocker of a leg, from its account.
  abbrev pub blocker_at : AuthorizedLeg → Option AccountCapacity → Option DispatchCause
  blocker_at leg none = none
  blocker_at leg (some account) =
      if not (account_is_active account.state) || account.recovery_probe_in_flight
      then none
      else if not (gate_allows (gate leg manifest))
      then none
      else only_one (
          circuit_blocker (deployment_circuit_in view leg) (
            circuit_blocker account.account_circuit (
              some (
                if leb account.parallel_limit account.active_attempts
                then DispatchCause.capacity ∷ []
                else []))))

  unfoldable pub leg_blocker : AuthorizedLeg → Option DispatchCause
  leg_blocker leg = blocker_at leg (account_in view leg)

  -- The loop over the primary legs.
  abbrev pub causes_from : List DispatchCause → List AuthorizedLeg → Option (List DispatchCause)
  causes_from causes [] = some causes
  causes_from causes (leg ∷ legs) = elim (leg_blocker leg) [
    | none ↦ none
    | some c ↦ causes_from (add c causes) legs
  ]

  abbrev pub is_primary_for : RequestProfile → AuthorizedLeg → Bool
  is_primary_for profile leg =
      contains RouteTrigger.primary leg.allowed_triggers
      && not leg.capabilities.shadow
      && capabilities_allow leg profile

  unfoldable pub primary_blocking_cause :
      RequestAuthorizationCeiling → RequestProfile → Option DispatchCause
  primary_blocking_cause authorization profile =
      let primaries = keep (is_primary_for profile) authorization.authorized_legs in
      if null primaries then none else only_one (causes_from [] primaries)
