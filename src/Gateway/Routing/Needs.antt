-- ===== src/Gateway/Routing/Needs.antt =====
-- What a leg, an activation and an account need, said without the tests of the code.
use llmmaxxing.Base.{
  ℕ, ◌+◌, ◌≤◌, ◌<◌, ◌≡◌, refl, sym, ◌∙◌, ◌≢◌, ◌↔◌, ◌⊎◌, inl, inr, Bool, true, false, not, ◌&&◌,
  ◌||◌, some, arith, ltb, leb, same, Has, nat_eq, list_eq, option_eq, bool_eq, string_eq,
  Bool-cases, both_true, both_false, negated_true, negated_false, bools_differ, same→eq,
  contains-Has, leb-false, Has-contains, ==_iff,
}
use llmmaxxing.Core.Reasons.{
  DispatchCause, RouteTrigger, trigger_eq, cause_eq, endpoint_eq, modality_eq,
}
use llmmaxxing.Core.StateMachines.{AccountState}
use llmmaxxing.Core.Models.Legs.{AuthorizedLeg, RequestProfile, LegCapabilities}
use llmmaxxing.Gateway.Runtime.Circuits.{CircuitState, CircuitValue, state_eq, opened}
use llmmaxxing.Gateway.Runtime.Requests.{JournalStatus}
use llmmaxxing.Gateway.Runtime.Recovery.{AccountCapacity}
use llmmaxxing.Gateway.Routing.{EmergencyActivation, permits, allows}
use llmmaxxing.Gateway.Routing.Eligible.{
  account_open, account_is_active, is_healthy, RoutingContext, cause_trigger,
}

-- A test that decides a proposition, and how tests are put together.
abbrev pub Decides : Bool → Type 0 → Type 0
Decides b P = (b ≡ true) ↔ P

and_Decides : {P Q : Type 0} (b c : Bool) → Decides b P → Decides c Q → Decides (b && c) (P × Q)
and_Decides b c p q =
    (λ h. let (x, y) = both_true b c h in (p.0 x, q.0 y), λ h. rw (p.1 h.0, q.1 h.1) refl)

or_Decides : {P Q : Type 0} (b c : Bool) → Decides b P → Decides c Q → Decides (b || c) (P ⊎ Q)
or_Decides true c p q = (λ h. inl (p.0 refl), λ h. refl)
or_Decides false c p q =
    (λ h. inr (q.0 h), λ h. elim h [ inl x ↦ absurd (differ (p.1 x)) | inr y ↦ q.1 y ])
  where
    differ : false ≡ true → ⊥
    differ k = cc

not_Decides : {P : Type 0} (b : Bool) → Decides b P → Decides (not b) (¬ P)
not_Decides true p = (λ h. cc, λ h. absurd (h (p.0 refl)))
not_Decides false p = (λ h x. differ (p.1 x), λ h. refl)
  where
    differ : false ≡ true → ⊥
    differ k = cc

is_true : (b : Bool) → Decides b (b ≡ true)
is_true b = (λ h. h, λ h. h)

is_false : (b : Bool) → Decides (not b) (b ≡ false)
is_false b = (λ h. negated_false b h, λ h. rw h refl)

le_Decides : (a b : ℕ) → Decides (leb a b) (a ≤ b)
le_Decides a b = (λ h. ground (arith, h), λ h. ground (arith, h))

lt_Decides : (a b : ℕ) → Decides (ltb a b) (a < b)
lt_Decides a b = (λ h. ground (arith, h), λ h. ground (arith, h))

-- The capabilities cover what the request needs.
pub record Covers (c : LegCapabilities) (p : RequestProfile) : Type 0 where
  pub endpoint : Has p.endpoint c.endpoints
  pub modality : Has p.modality c.modalities
  pub context : p.input_tokens_max + p.output_tokens_max + p.reasoning_tokens_max ≤ c.context_tokens
  pub tools : (p.tools_count ≡ 0) ⊎ (c.tools ≡ true)
  pub forced_tool : (p.forced_tool_required ≡ false) ⊎ (c.forced_tool ≡ true)
  pub response_schema : (p.response_schema_present ≡ false) ⊎ (c.response_schema ≡ true)
  pub streaming : (p.stream ≡ false) ⊎ (c.streaming ≡ true)
  pub reasoning : (p.reasoning_tokens_max ≡ 0) ⊎ (c.reasoning ≡ true)
  pub history : (p.history_turns ≡ 0) ⊎ (c.history_continuation ≡ true)

pub allows-Covers : (c : LegCapabilities) (p : RequestProfile) → Decides (allows c p) (Covers c p)
allows-Covers c p = (λ h. from (parts.0 h), λ k. parts.1 (to k))
  where
    Parts : Type 0
    Parts =
        (((((((Has p.endpoint c.endpoints × Has p.modality c.modalities)
                    × (p.input_tokens_max + p.output_tokens_max + p.reasoning_tokens_max
                        ≤ c.context_tokens))
                  × ((p.tools_count ≡ 0) ⊎ (c.tools ≡ true)))
                × ((p.forced_tool_required ≡ false) ⊎ (c.forced_tool ≡ true)))
              × ((p.response_schema_present ≡ false) ⊎ (c.response_schema ≡ true)))
            × ((p.stream ≡ false) ⊎ (c.streaming ≡ true)))
          × ((p.reasoning_tokens_max ≡ 0) ⊎ (c.reasoning ≡ true)))
        × ((p.history_turns ≡ 0) ⊎ (c.history_continuation ≡ true))

    parts : Decides (allows c p) Parts
    parts =
        and_Decides _ _
          (and_Decides _ _
            (and_Decides _ _
              (and_Decides _ _
                (and_Decides _ _
                  (and_Decides _ _
                    (and_Decides _ _
                      (and_Decides _ _
                        (contains-Has p.endpoint c.endpoints, Has-contains p.endpoint c.endpoints)
                        (
                          contains-Has p.modality c.modalities,
                          Has-contains p.modality c.modalities,
                        ))
                      (le_Decides _ _))
                    (or_Decides _ _ (==_iff _ _) (is_true _)))
                  (or_Decides _ _ (is_false _) (is_true _)))
                (or_Decides _ _ (is_false _) (is_true _)))
              (or_Decides _ _ (is_false _) (is_true _)))
            (or_Decides _ _ (==_iff _ _) (is_true _)))
          (or_Decides _ _ (==_iff _ _) (is_true _))

    from : Parts → Covers c p
    from ((((((((a, b), d), e), f), g), i), j), k) = record {
      endpoint = a;
      modality = b;
      context = d;
      tools = e;
      forced_tool = f;
      response_schema = g;
      streaming = i;
      reasoning = j;
      history = k;
    }

    to : Covers c p → Parts
    to k = (
      (
        (
          (((((k.endpoint, k.modality), k.context), k.tools), k.forced_tool), k.response_schema),
          k.streaming,
        ),
        k.reasoning,
      ),
      k.history,
    )

-- The activation is for the leg and the dispatcher, has begun, and outlasts the deadline.
pub record Permits (e : EmergencyActivation) (leg : AuthorizedLeg) (context : RoutingContext)
    : Type 0 where
  pub for_leg : Has leg.leg_id e.leg_ids
  pub fence : context.dispatcher_fence ≡ e.dispatcher_fence
  pub begun : e.activated_at_ms ≤ context.now_ms
  pub running : context.now_ms < e.expires_at_ms
  pub outlasts : context.deadline_at_ms ≤ e.expires_at_ms

pub permits-Permits :
    (e : EmergencyActivation) (leg : AuthorizedLeg) (context : RoutingContext)
    → Decides
        (permits e leg.leg_id context.now_ms context.deadline_at_ms context.dispatcher_fence)
        (Permits e leg context)
unfolding permits
permits-Permits e leg context =
    let (to, from) =
      and_Decides _ _
        (and_Decides _ _
          (and_Decides _ _ (contains-Has leg.leg_id e.leg_ids, Has-contains leg.leg_id e.leg_ids)
            (==_iff context.dispatcher_fence e.dispatcher_fence))
          (and_Decides _ _ (le_Decides e.activated_at_ms context.now_ms)
            (lt_Decides context.now_ms e.expires_at_ms)))
        (le_Decides context.deadline_at_ms e.expires_at_ms) in
    (
      λ h.
          let (((a, b), (c, d)), f) = to h in
          record { for_leg = a; fence = b; begun = c; running = d; outlasts = f },
      λ k. from (((k.for_leg, k.fence), (k.begun, k.running)), k.outlasts),
    )

-- The account of the leg is active, is not being probed, has room, and is not shut off.
abbrev pub HasRoom : AccountCapacity → Type 0
HasRoom account =
    (account.state ≡ AccountState.active)
    × (account.recovery_probe_in_flight ≡ false)
    × (account.active_attempts < account.parallel_limit)
    × (account.account_circuit.state ≢ CircuitState.opened)

active_Decides : (s : AccountState) → Decides (account_is_active s) (s ≡ AccountState.active)
active_Decides AccountState.active = (λ h. refl, λ h. refl)
active_Decides AccountState.draft = (λ h. cc, λ h. cc)
active_Decides AccountState.disabled = (λ h. cc, λ h. cc)
active_Decides AccountState.tombstoned = (λ h. cc, λ h. cc)

pub healthy_Decides : (s : JournalStatus) → Decides (is_healthy s) (s ≡ JournalStatus.healthy)
healthy_Decides JournalStatus.healthy = (λ h. refl, λ h. refl)
healthy_Decides JournalStatus.admission_stop = (λ h. cc, λ h. cc)
healthy_Decides JournalStatus.recovery_required = (λ h. cc, λ h. cc)
healthy_Decides JournalStatus.closed = (λ h. cc, λ h. cc)

pub open_parts : (account : AccountCapacity) → account_open (some account) ≡ true → HasRoom account
open_parts account h =
    let (rest, circuit) =
      both_false _ (same account.account_circuit.state opened) (negated_false _ h) in
    let (rest', room) = both_false _ (leb account.parallel_limit account.active_attempts) rest in
    let (active, probe) = both_false _ account.recovery_probe_in_flight rest' in
    (
      (active_Decides account.state).0 (negated_true _ active),
      probe,
      leb-false _ _ room,
      differ circuit,
    )
  where
    differ :
        same account.account_circuit.state opened ≡ false
        → account.account_circuit.state ≢ CircuitState.opened
    differ k e = bools_differ (sym ((state_eq.beq_iff _ _).1 e) ∙ k)

pub opened-false : (v : CircuitValue) → v.state ≢ CircuitState.opened → same v.state opened ≡ false
opened-false v n = elim (Bool-cases (same v.state opened)) [
  | inl h ↦ absurd (n (same→eq v.state opened h))
  | inr h ↦ h
]

pub room_open : (account : AccountCapacity) → HasRoom account → account_open (some account) ≡ true
room_open account (active, probe, room, circuit) =
    rw
      (
        (active_Decides account.state).1 active,
        probe,
        below room,
        opened-false account.account_circuit circuit,
      )
      refl
  where
    below :
        account.active_attempts < account.parallel_limit
        → leb account.parallel_limit account.active_attempts ≡ false
    below h = ground (arith, h)

-- The trigger by which a leg is dispatched for a cause.
pub data Triggers : DispatchCause → RouteTrigger → Type 0 where
  primary : Triggers DispatchCause.primary RouteTrigger.primary
  capacity : Triggers DispatchCause.capacity RouteTrigger.capacity_spill
  failure : Triggers DispatchCause.failure RouteTrigger.failure_fallback
  quota : Triggers DispatchCause.quota RouteTrigger.quota_fallback
  emergency : Triggers DispatchCause.manual_emergency RouteTrigger.manual_emergency
  shadow : Triggers DispatchCause.shadow RouteTrigger.shadow

pub cause_trigger-Triggers : (cause : DispatchCause) → Triggers cause (cause_trigger cause)
cause_trigger-Triggers DispatchCause.primary = Triggers.primary
cause_trigger-Triggers DispatchCause.capacity = Triggers.capacity
cause_trigger-Triggers DispatchCause.failure = Triggers.failure
cause_trigger-Triggers DispatchCause.quota = Triggers.quota
cause_trigger-Triggers DispatchCause.manual_emergency = Triggers.emergency
cause_trigger-Triggers DispatchCause.shadow = Triggers.shadow

pub Triggers-unique :
    {cause : DispatchCause} {trigger : RouteTrigger}
    → Triggers cause trigger
    → cause_trigger cause ≡ trigger
Triggers-unique Triggers.primary = refl
Triggers-unique Triggers.capacity = refl
Triggers-unique Triggers.failure = refl
Triggers-unique Triggers.quota = refl
Triggers-unique Triggers.emergency = refl
Triggers-unique Triggers.shadow = refl
