-- ===== src/Gateway/Breaker/Follows.antt =====
-- The steps that a circuit takes when an operation of the controller is called.
use llmmaxxing.Base.{
  ℕ, ◌≤◌, ◌≡◌, refl, sym, ◌∙◌, subst, ◌≢◌, ◌⊎◌, inl, inr, Bool, true, false, not, ◌||◌, Option,
  none, some, arith, ltb, ◌==◌, if◌then◌else◌, Result, raised, ok, same, nat_eq, list_eq, option_eq,
  bool_eq, string_eq, Bool-cases, both_false, negated_true, if_true, if_false, or_default, same→eq,
  ==_iff, bools_differ, ltb-false,
}
use llmmaxxing.Base.Dict.{lookup-put_hit, lookup-put_other}
use llmmaxxing.Core.Ids.{DeploymentGenerationId, ProbeToken, Digest}
use llmmaxxing.Core.Reasons.{FailureScope, scope_eq}
use llmmaxxing.Gateway.Runtime.Circuits.{
  CircuitScope, CircuitState, CircuitValue, closed_at, circuit_eq, state_eq, opened,
}
use llmmaxxing.Gateway.Runtime.Requests.{Journal}
use llmmaxxing.Gateway.Runtime.State.{AccountRuntime, circuit_value}
use llmmaxxing.Gateway.Runtime.Recovery.{
  with_circuit, with_account_circuit, compare_and_swap_circuit, compare_and_swap_account_circuit,
}
use llmmaxxing.Gateway.Runtime.Swaps.{swap_cases}
use llmmaxxing.Gateway.Routing.Classifier.{FailureClassification, cause_unknown, scope_unknown}
use llmmaxxing.Gateway.Breaker.{
  CircuitProbe, scoped, is_account, on_swap, swap_scoped, swap_made, next_step, open_circuit,
  probe_failed, half_opened, begin_probe, probe_succeeded,
}
use llmmaxxing.Gateway.Breaker.Swapped.{state_fields_match-same}
use llmmaxxing.Gateway.Breaker.Backoff.{Opens, replacement_of-Opens, probe_replacement-Opens}

-- From open to half-open: the time of retry has come, and a token is set in the same epoch.
pub record HalfOpens (now_ms : ℕ) (old new : CircuitValue) : Type 0 where
  pub was_open : old.state ≡ CircuitState.opened
  pub due : old.retry_at_ms ≤ now_ms
  pub state : new.state ≡ CircuitState.half_open
  pub epoch : new.epoch ≡ old.epoch
  pub untimed : new.retry_at_ms ≡ 0
  pub backoff_step : new.backoff_step ≡ old.backoff_step
  pub token : (t : ProbeToken) × (new.probe_id ≡ some t)

-- From half-open to closed, in the same epoch, with nothing left of the failure.
pub record Closes (old new : CircuitValue) : Type 0 where
  pub was_half_open : old.state ≡ CircuitState.half_open
  pub state : new.state ≡ CircuitState.closed
  pub epoch : new.epoch ≡ old.epoch
  pub untimed : new.retry_at_ms ≡ 0
  pub backoff_step : new.backoff_step ≡ 0
  pub tokenless : new.probe_id ≡ none

module _ (seed : Digest → ℕ → ℕ) (now_ms : ℕ) where
  abbrev pub Step : CircuitValue → CircuitValue → Type 0
  Step old new =
      ((old.state ≢ CircuitState.opened) × Opens seed old new now_ms)
      ⊎ (HalfOpens now_ms old new ⊎ Closes old new)

  pub data Steps : CircuitValue → CircuitValue → Type 0 where
    stays : {v : CircuitValue} → Steps v v
    steps : {u v w : CircuitValue} → Step u v → Steps v w → Steps u w

  Steps-trans : {u v w : CircuitValue} → Steps u v → Steps v w → Steps u w
  Steps-trans Steps.stays q = q
  Steps-trans (Steps.steps p ps) q = Steps.steps p (Steps-trans ps q)

  -- Every circuit of the account takes steps, or stays.
  pub record Follows (rt rt' : AccountRuntime) : Type 0 where
    pub account : Steps rt.account_circuit rt'.account_circuit
    pub deployments :
        (generation : DeploymentGenerationId)
        → Steps (circuit_value generation rt) (circuit_value generation rt')

  pub self-Follows : (rt : AccountRuntime) → Follows rt rt
  self-Follows rt = record { account = Steps.stays; deployments = λ generation. Steps.stays }

  pub Follows-trans : {a b c : AccountRuntime} → Follows a b → Follows b c → Follows a c
  Follows-trans p q = record {
    account = Steps-trans p.account q.account;
    deployments = λ generation. Steps-trans (p.deployments generation) (q.deployments generation);
  }

  with_circuit-Follows :
      (generation : DeploymentGenerationId) (expected replacement : CircuitValue)
      (rt : AccountRuntime)
      → circuit_value generation rt ≡ expected
      → Step expected replacement
      → Follows rt (with_circuit generation expected replacement rt)
  with_circuit-Follows generation expected replacement rt found step = record {
    account = Steps.stays;
    deployments = λ other. elim (Bool-cases (generation == other)) [
      | inl here ↦
          subst (λ o. Steps (circuit_value other rt) (or_default (closed_at 0) o))
            (sym (lookup-put_hit generation other replacement rt.circuits here))
            (subst (λ g. Steps (circuit_value g rt) replacement) ((==_iff generation other).0 here)
              (subst (λ v. Steps v replacement) (sym found) (Steps.steps step Steps.stays)))
      | inr away ↦
          subst (λ o. Steps (circuit_value other rt) (or_default (closed_at 0) o))
            (sym (lookup-put_other generation other replacement rt.circuits away)) Steps.stays
    ];
  }

  module _ (journal : Journal) where
    swap_scoped-Follows :
        (scope : FailureScope) (generation : DeploymentGenerationId)
        (expected replacement : CircuitValue) (rt : AccountRuntime)
        → Step expected replacement
        → Follows rt (swap_scoped journal scope generation expected replacement rt).0
    unfolding swap_scoped compare_and_swap_circuit compare_and_swap_account_circuit
    swap_scoped-Follows scope generation expected replacement rt step =
        elim (Bool-cases (is_account scope)) [
          | inl a ↦
              subst (λ (x : AccountRuntime × Result Bool). Follows rt x.0) (sym (if_true _ _ _ a))
                (elim (swap_cases journal CircuitScope.account none rt.account_circuit expected
                  replacement (with_account_circuit expected replacement rt) rt) [
                    | inl kept ↦ subst (Follows rt) (sym kept) (self-Follows rt)
                    | inr (found, _, written) ↦ subst (Follows rt) (sym written) (record {
                      account =
                          subst (λ v. Steps v replacement) (sym found)
                            (Steps.steps step Steps.stays);
                      deployments = λ other. Steps.stays;
                    })
                  ])
          | inr d ↦
              subst (λ (x : AccountRuntime × Result Bool). Follows rt x.0) (sym (if_false _ _ _ d))
                (elim (swap_cases journal CircuitScope.deployment (some generation)
                  (circuit_value generation rt) expected replacement
                  (with_circuit generation expected replacement rt) rt) [
                    | inl kept ↦ subst (Follows rt) (sym kept) (self-Follows rt)
                    | inr (found, _, written) ↦
                        subst (Follows rt) (sym written)
                          (with_circuit-Follows generation expected replacement rt found step)
                  ])
        ]

    on_swap-kept : {A : Type 0} (a : A) (p : AccountRuntime × Result Bool) → (on_swap a p).0 ≡ p.0
    on_swap-kept a (rt, raised e) = refl
    on_swap-kept a (rt, ok true) = refl
    on_swap-kept a (rt, ok false) = refl

    swap_made-Follows :
        {A : Type 0} (scope : FailureScope) (generation : DeploymentGenerationId)
        (expected : CircuitValue) (answer : CircuitValue → A) (rt : AccountRuntime)
        (made : Result CircuitValue)
        → ((v : CircuitValue) → made ≡ ok v → Step expected v)
        → Follows rt (swap_made journal scope generation expected answer rt made).0
    swap_made-Follows scope generation expected answer rt (raised e) fit = self-Follows rt
    swap_made-Follows scope generation expected answer rt (ok v) fit =
        subst (Follows rt) (sym (on_swap-kept (answer v) _))
          (swap_scoped-Follows scope generation expected v rt (fit v refl))

    half_opened-Step :
        (current : CircuitValue) (token : ProbeToken)
        → (not (same current.state opened) || ltb now_ms current.retry_at_ms) ≡ false
        → (v : CircuitValue) → half_opened current token ≡ ok v
        → Step current v
    unfolding half_opened
    half_opened-Step current token due v made =
        let (shut, late) = both_false (not (same current.state opened)) _ due in
        subst (Step current) (state_fields_match-same _ made) (
          inr (
            inl (record {
              was_open = same→eq current.state opened (negated_true _ shut);
              due = ltb-false _ _ late;
              state = refl;
              epoch = refl;
              untimed = refl;
              backoff_step = refl;
              token = (token, refl);
            })))

    pub begin_probe-Follows :
        (token : ProbeToken) (generation : DeploymentGenerationId) (rt : AccountRuntime)
        → Follows rt (begin_probe journal token generation now_ms rt).0
    unfolding begin_probe
    begin_probe-Follows token generation rt = at _ _ refl
      where
        at :
            (scope : FailureScope) (b : Bool)
            → (not (same (scoped scope generation rt).state opened)
                || ltb now_ms (scoped scope generation rt).retry_at_ms)
              ≡ b
            → Follows rt
                (if b
                  then (rt, ok none)
                  else swap_made {A = CircuitProbe} journal scope generation
                      (scoped scope generation rt)
                      (λ v. record {
                        scope = scope;
                        account_id = rt.account.account_id;
                        generation_id = generation;
                        value = v;
                      })
                      rt
                      (half_opened (scoped scope generation rt) token)).0
        at scope true early = self-Follows rt
        at scope false due =
            swap_made-Follows scope generation _ _ rt _
              (half_opened-Step (scoped scope generation rt) token due)

    pub probe_succeeded-Follows :
        (probe : CircuitProbe) (rt : AccountRuntime)
        → probe.value.state ≡ CircuitState.half_open
        → Follows rt (probe_succeeded journal probe rt).0
    unfolding probe_succeeded
    probe_succeeded-Follows probe rt half =
        swap_scoped-Follows probe.scope probe.generation_id probe.value
          (closed_at probe.value.epoch) rt
          (inr (
            inr (record {
              was_half_open = half;
              state = refl;
              epoch = refl;
              untimed = refl;
              backoff_step = refl;
              tokenless = refl;
            })))

    pub probe_failed-Follows :
        (probe : CircuitProbe) (c : FailureClassification) (rt : AccountRuntime)
        → probe.value.state ≡ CircuitState.half_open
        → Follows rt (probe_failed seed journal probe c now_ms rt).0
    unfolding probe_failed
    probe_failed-Follows probe c rt half =
        swap_made-Follows probe.scope probe.generation_id probe.value _ rt _ (λ v made.
          inl (λ o. shut (sym half ∙ o), probe_replacement-Opens seed probe c now_ms made))
      where
        shut : CircuitState.half_open ≢ CircuitState.opened
        shut k = cc

    pub open_circuit-Follows :
        (generation : DeploymentGenerationId) (c : FailureClassification) (rt : AccountRuntime)
        → Follows rt (open_circuit seed journal generation c now_ms rt).0
    unfolding open_circuit
    open_circuit-Follows generation c rt =
        let current = scoped c.scope generation rt in
        elim (Bool-cases (cause_unknown c.cause || scope_unknown c.scope)) [
          | inl unknown ↦ at (sym (if_true _ _ _ unknown)) (self-Follows rt)
          | inr known ↦ elim (Bool-cases (same current.state opened)) [
            | inl already ↦
                at (sym (if_false _ _ _ known ∙ if_true _ _ _ already)) (self-Follows rt)
            | inr shut ↦ at (sym (if_false _ _ _ known ∙ if_false _ _ _ shut)) (
                swap_made-Follows c.scope generation current (λ x. x) rt _
                  (λ v made. inl (
                    λ o. bools_differ (sym ((state_eq.beq_iff _ _).1 o) ∙ shut),
                    replacement_of-Opens seed current c now_ms (next_step current) (omega arith)
                        made,
                  )))
          ]
        ]
      where
        at :
            {x y : AccountRuntime × Result (Option CircuitValue)}
            → x ≡ y
            → Follows rt x.0
            → Follows rt y.0
        at e f = subst (λ (z : AccountRuntime × Result (Option CircuitValue)). Follows rt z.0) e f
