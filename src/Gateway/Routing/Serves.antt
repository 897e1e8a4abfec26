-- ===== src/Gateway/Routing/Serves.antt =====
-- What a leg that `eligible` accepts has, in the tests of the code, and the other way round.
use llmmaxxing.Base.{
  ◌<◌, ◌≡◌, refl, ap, ◌∙◌, Bool, true, false, not, ◌&&◌, ◌||◌, ltb, if◌then◌else◌, same, contains,
  nat_eq, list_eq, option_eq, bool_eq, string_eq, both_true, both_false, negated_true,
  negated_false, if_false, ltb→lt, ℕ, arith,
}
use llmmaxxing.Core.Ids.{Digest}
use llmmaxxing.Core.Reasons.{DispatchCause, RouteTrigger, trigger_eq, cause_eq}
use llmmaxxing.Core.Models.Legs.{AuthorizedLeg, RequestProfile}
use llmmaxxing.Gateway.Runtime.Circuits.{state_eq, opened}
use llmmaxxing.Gateway.Runtime.Views.{OperationalRuntimeView}
use llmmaxxing.Gateway.Routing.{capabilities_allow}
use llmmaxxing.Gateway.Routing.Eligible.{
  Gate, gate_allows, account_in, deployment_circuit_in, account_open, is_healthy, RoutingContext,
  operationally_available, eligible, cause_trigger, emergency_permits,
}

-- `if b: return False`
refused : (b c : Bool) → (if b then false else c) ≡ true → (b ≡ false) × (c ≡ true)
refused true c h = cc
refused false c h = (refl, h)

unless : {b c : Bool} → b ≡ false → c ≡ true → (if b then false else c) ≡ true
unless {b} {c} h k = if_false b false c h ∙ k

neither : {b c : Bool} → b ≡ false → c ≡ false → (b || c) ≡ false
neither h k = rw (h, k) refl

both : {b c : Bool} → b ≡ true → c ≡ true → (b && c) ≡ true
both h k = rw (h, k) refl

lt→ltb : (a b : ℕ) → a < b → ltb a b ≡ true
lt→ltb a b h = ground arith

module _ (gate : Gate) (manifest : Digest) where
  abbrev pub EmergencyFit : DispatchCause → AuthorizedLeg → RoutingContext → Type 0
  EmergencyFit DispatchCause.manual_emergency leg context =
      emergency_permits gate manifest context.emergency leg context ≡ true
  EmergencyFit _ leg context = Unit

  emergency_fits :
      (cause : DispatchCause) (leg : AuthorizedLeg) (context : RoutingContext)
      → (same cause DispatchCause.manual_emergency
          && not (emergency_permits gate manifest context.emergency leg context))
        ≡ false
      → EmergencyFit cause leg context
  emergency_fits DispatchCause.manual_emergency leg context h = negated_true _ h
  emergency_fits DispatchCause.primary leg context h = tt
  emergency_fits DispatchCause.capacity leg context h = tt
  emergency_fits DispatchCause.failure leg context h = tt
  emergency_fits DispatchCause.quota leg context h = tt
  emergency_fits DispatchCause.shadow leg context h = tt

  -- What an eligible leg has: it serves, for this cause, this request, before its deadline; its
  -- generation passes the gate; its account is active with room, and no circuit of it is open.
  pub record Serves (leg : AuthorizedLeg) (profile : RequestProfile) (cause : DispatchCause)
      (view : OperationalRuntimeView) (context : RoutingContext) : Type 0 where
    pub serving : leg.capabilities.shadow ≡ false
    pub never_shadow : contains RouteTrigger.shadow leg.allowed_triggers ≡ false
    pub trigger : contains (cause_trigger cause) leg.allowed_triggers ≡ true
    pub capable : capabilities_allow leg profile ≡ true
    pub emergency : EmergencyFit cause leg context
    pub in_time : context.now_ms < context.deadline_at_ms
    pub gated : gate_allows (gate leg manifest) ≡ true
    pub healthy : is_healthy view.recovery_state ≡ true
    pub account : account_open (account_in view leg) ≡ true
    pub deployment : same (deployment_circuit_in view leg).state opened ≡ false

  operationally_available-parts :
      (leg : AuthorizedLeg) (view : OperationalRuntimeView)
      → operationally_available gate manifest leg view ≡ true
      → (gate_allows (gate leg manifest) ≡ true)
        × (is_healthy view.recovery_state ≡ true)
        × (account_open (account_in view leg) ≡ true)
        × (same (deployment_circuit_in view leg).state opened ≡ false)
  unfolding operationally_available
  operationally_available-parts leg view h =
      let (a, h1) = refused (not (gate_allows (gate leg manifest))) _ h in
      let (b, h2) = refused (not (is_healthy view.recovery_state)) _ h1 in
      let (c, h3) = refused (not (account_open (account_in view leg))) _ h2 in
      (negated_true _ a, negated_true _ b, negated_true _ c, negated_false _ h3)

  pub eligible-Serves :
      (leg : AuthorizedLeg) (profile : RequestProfile) (cause : DispatchCause)
      (view : OperationalRuntimeView) (context : RoutingContext)
      → eligible gate manifest leg profile cause view context ≡ true
      → Serves leg profile cause view context
  unfolding eligible
  eligible-Serves leg profile cause view context h =
      let (a, h1) =
        refused (leg.capabilities.shadow || contains RouteTrigger.shadow leg.allowed_triggers) _
          h in
      let (b, h2) = refused (not (contains (cause_trigger cause) leg.allowed_triggers)) _ h1 in
      let (c, h3) = refused (not (capabilities_allow leg profile)) _ h2 in
      let (d, h4) =
        refused
          (same cause DispatchCause.manual_emergency
            && not (emergency_permits gate manifest context.emergency leg context))
          _ h3 in
      let (e, available) = both_true (ltb context.now_ms context.deadline_at_ms) _ h4 in
      let (serving, never) = both_false leg.capabilities.shadow _ a in
      let (gated, healthy, account, deployment) =
        operationally_available-parts leg view available in
      record {
        serving = serving;
        never_shadow = never;
        trigger = negated_true _ b;
        capable = negated_true _ c;
        emergency = emergency_fits cause leg context d;
        in_time = ltb→lt _ _ e;
        gated = gated;
        healthy = healthy;
        account = account;
        deployment = deployment;
      }

  emergency_of :
      (cause : DispatchCause) (leg : AuthorizedLeg) (context : RoutingContext)
      → EmergencyFit cause leg context
      → (same cause DispatchCause.manual_emergency
          && not (emergency_permits gate manifest context.emergency leg context))
        ≡ false
  emergency_of DispatchCause.manual_emergency leg context h = rw h refl
  emergency_of DispatchCause.primary leg context h = refl
  emergency_of DispatchCause.capacity leg context h = refl
  emergency_of DispatchCause.failure leg context h = refl
  emergency_of DispatchCause.quota leg context h = refl
  emergency_of DispatchCause.shadow leg context h = refl

  pub Serves-eligible :
      (leg : AuthorizedLeg) (profile : RequestProfile) (cause : DispatchCause)
      (view : OperationalRuntimeView) (context : RoutingContext)
      → Serves leg profile cause view context
      → eligible gate manifest leg profile cause view context ≡ true
  unfolding eligible operationally_available
  Serves-eligible leg profile cause view context s = unless (neither s.serving s.never_shadow) (
      unless (ap not s.trigger) (
        unless (ap not s.capable) (
          unless (emergency_of cause leg context s.emergency) (
            both (lt→ltb _ _ s.in_time) (
              unless (ap not s.gated)
                (unless (ap not s.healthy) (unless (ap not s.account) (ap not s.deployment))))))))
