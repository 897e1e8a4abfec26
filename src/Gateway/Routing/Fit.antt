-- ===== src/Gateway/Routing/Fit.antt =====
-- What it takes for a leg to be eligible, said of the leg, the request and the view themselves.
use llmmaxxing.Base.{
  ◌<◌, ◌≡◌, refl, sym, ◌∙◌, subst, ◌≢◌, inl, inr, Bool, true, false, Option, none, some, Result,
  raised, ok, contains, Has, nat_eq, list_eq, option_eq, bool_eq, string_eq, Bool-cases,
  bools_differ, contains-Has, Has-contains,
}
use llmmaxxing.Core.Ids.{Digest}
use llmmaxxing.Core.Reasons.{
  DispatchCause, RouteTrigger, trigger_eq, cause_eq, endpoint_eq, modality_eq,
}
use llmmaxxing.Core.Models.Legs.{AuthorizedLeg, RequestProfile}
use llmmaxxing.Gateway.Runtime.Circuits.{CircuitState, state_eq}
use llmmaxxing.Gateway.Runtime.Requests.{JournalStatus}
use llmmaxxing.Gateway.Runtime.Recovery.{AccountCapacity}
use llmmaxxing.Gateway.Runtime.Views.{OperationalRuntimeView}
use llmmaxxing.Gateway.Routing.{EmergencyActivation}
use llmmaxxing.Gateway.Routing.Eligible.{
  Gate, gate_allows, account_in, deployment_circuit_in, account_open, RoutingContext, eligible,
  cause_trigger, emergency_permits,
}
use llmmaxxing.Gateway.Routing.Serves.{EmergencyFit, eligible-Serves, Serves-eligible}
use llmmaxxing.Gateway.Routing.Needs.{
  Decides, Covers, allows-Covers, Permits, permits-Permits, healthy_Decides, Triggers, HasRoom,
  cause_trigger-Triggers, Triggers-unique, open_parts, room_open, opened-false,
}

module _ (gate : Gate) (manifest : Digest) where
  -- The leg is no shadow and allows the trigger of the cause, its capabilities cover the request, a
  -- manual emergency is permitted for it, the deadline is ahead, the gate passes its generation, the
  -- journal is healthy, and its account has room and no open circuit.
  pub record Fit (leg : AuthorizedLeg) (profile : RequestProfile) (cause : DispatchCause)
      (view : OperationalRuntimeView) (context : RoutingContext) : Type 0 where
    pub serving : leg.capabilities.shadow ≡ false
    pub no_shadow : ¬ Has RouteTrigger.shadow leg.allowed_triggers
    pub triggered : (t : RouteTrigger) × Triggers cause t × Has t leg.allowed_triggers
    pub covers : Covers leg.capabilities profile
    pub permitted :
        cause ≡ DispatchCause.manual_emergency
        → (e : EmergencyActivation) × (context.emergency ≡ some e) × Permits e leg context
    pub in_time : context.now_ms < context.deadline_at_ms
    pub gated : gate leg manifest ≡ ok true
    pub healthy : view.recovery_state ≡ JournalStatus.healthy
    pub account : (a : AccountCapacity) × (account_in view leg ≡ some a) × HasRoom a
    pub deployment : (deployment_circuit_in view leg).state ≢ CircuitState.opened

  gate_allows-ok : (m : Result Bool) → Decides (gate_allows m) (m ≡ ok true)
  gate_allows-ok (raised e) = (λ h. cc, λ h. cc)
  gate_allows-ok (ok true) = (λ h. refl, λ h. refl)
  gate_allows-ok (ok false) = (λ h. cc, λ h. cc)

  entry-injective : {x y : EmergencyActivation} → some x ≡ some y → x ≡ y
  entry-injective k = cc

  permitted_iff :
      (o : Option EmergencyActivation) (leg : AuthorizedLeg) (context : RoutingContext)
      → Decides
          (emergency_permits gate manifest o leg context)
          ((e : EmergencyActivation) × (o ≡ some e) × Permits e leg context)
  permitted_iff none leg context = (λ h. cc, λ h. cc)
  permitted_iff (some e) leg context =
      (λ h. (e, refl, (permits-Permits e leg context).0 h), λ h. by_entry h)
    where
      by_entry :
          (f : EmergencyActivation) × (some e ≡ some f) × Permits f leg context
          → emergency_permits gate manifest (some e) leg context ≡ true
      by_entry (f, i, p) =
          (permits-Permits e leg context).1
            (subst (λ x. Permits x leg context) (sym (entry-injective i)) p)

  fit_emergency :
      (cause : DispatchCause) (leg : AuthorizedLeg) (context : RoutingContext)
      → EmergencyFit gate manifest cause leg context
      → cause ≡ DispatchCause.manual_emergency
      → emergency_permits gate manifest context.emergency leg context ≡ true
  fit_emergency cause leg context h e = subst (λ c. EmergencyFit gate manifest c leg context) e h

  emergency_fit :
      (cause : DispatchCause) (leg : AuthorizedLeg) (context : RoutingContext)
      → (cause ≡ DispatchCause.manual_emergency
          → emergency_permits gate manifest context.emergency leg context ≡ true)
      → EmergencyFit gate manifest cause leg context
  emergency_fit DispatchCause.manual_emergency leg context h = h refl
  emergency_fit DispatchCause.primary leg context h = tt
  emergency_fit DispatchCause.capacity leg context h = tt
  emergency_fit DispatchCause.failure leg context h = tt
  emergency_fit DispatchCause.quota leg context h = tt
  emergency_fit DispatchCause.shadow leg context h = tt

  account_there :
      (o : Option AccountCapacity)
      → account_open o ≡ true
      → (a : AccountCapacity) × (o ≡ some a) × HasRoom a
  account_there none h = cc
  account_there (some a) h = (a, refl, open_parts a h)

  pub eligible-Fit :
      (leg : AuthorizedLeg) (profile : RequestProfile) (cause : DispatchCause)
      (view : OperationalRuntimeView) (context : RoutingContext)
      → eligible gate manifest leg profile cause view context ≡ true
      → Fit leg profile cause view context
  eligible-Fit leg profile cause view context h =
      let s = eligible-Serves gate manifest leg profile cause view context h in
      record {
        serving = s.serving;
        no_shadow = λ m.
            bools_differ
              (sym (Has-contains RouteTrigger.shadow leg.allowed_triggers m) ∙ s.never_shadow);
        triggered = (
          cause_trigger cause,
          cause_trigger-Triggers cause,
          contains-Has (cause_trigger cause) leg.allowed_triggers s.trigger,
        );
        covers = (allows-Covers leg.capabilities profile).0 s.capable;
        permitted = λ e.
            (permitted_iff context.emergency leg context).0
              (fit_emergency cause leg context s.emergency e);
        in_time = s.in_time;
        gated = (gate_allows-ok (gate leg manifest)).0 s.gated;
        healthy = (healthy_Decides view.recovery_state).0 s.healthy;
        account = account_there (account_in view leg) s.account;
        deployment = λ e. bools_differ (sym ((state_eq.beq_iff _ _).1 e) ∙ s.deployment);
      }

  pub Fit-eligible :
      (leg : AuthorizedLeg) (profile : RequestProfile) (cause : DispatchCause)
      (view : OperationalRuntimeView) (context : RoutingContext)
      → Fit leg profile cause view context
      → eligible gate manifest leg profile cause view context ≡ true
  Fit-eligible leg profile cause view context f =
      let (t, named, listed) = f.triggered in
      let (a, found, room) = f.account in
      Serves-eligible gate manifest leg profile cause view context (record {
        serving = f.serving;
        never_shadow = absent f.no_shadow;
        trigger =
            subst (λ x. contains x leg.allowed_triggers ≡ true) (sym (Triggers-unique named))
              (Has-contains t leg.allowed_triggers listed);
        capable = (allows-Covers leg.capabilities profile).1 f.covers;
        emergency =
            emergency_fit cause leg context
              (λ e. (permitted_iff context.emergency leg context).1 (f.permitted e));
        in_time = f.in_time;
        gated = (gate_allows-ok (gate leg manifest)).1 f.gated;
        healthy = (healthy_Decides view.recovery_state).1 f.healthy;
        account = subst (λ o. account_open o ≡ true) (sym found) (room_open a room);
        deployment = opened-false (deployment_circuit_in view leg) f.deployment;
      })
    where
      absent :
          ¬ Has RouteTrigger.shadow leg.allowed_triggers
          → contains RouteTrigger.shadow leg.allowed_triggers ≡ false
      absent n = elim (Bool-cases (contains RouteTrigger.shadow leg.allowed_triggers)) [
        | inl h ↦ absurd (n (contains-Has RouteTrigger.shadow leg.allowed_triggers h))
        | inr h ↦ h
      ]
