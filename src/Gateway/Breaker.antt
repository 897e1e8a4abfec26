-- ===== src/Gateway/Breaker.antt =====
-- src/llmmaxxing/gateway/routing.py: `CircuitController`, on the runtime of the account that it looks
-- up. The first two bytes of the SHA-256 that spreads the backoff, and the fresh probe token, are
-- parameters. A method returns the runtime that it leaves with what it returns or raises.
pub mod Swapped
pub mod Backoff
pub mod Follows
pub mod Calls
mod Samples
use llmmaxxing.Base.{
  ℕ, suc, ◌+◌, ◌-◌, ◌*◌, ◌/◌, ◌%◌, ◌≤◌, ◌<◌, min, max, ◌≡◌, refl, sym, ap, ◌∙◌, subst, ◌≢◌, ◌↔◌,
  ◌⊎◌, inl, inr, Bool, true, false, not, ◌&&◌, ◌||◌, Option, none, some, List, [], ◌∷◌, ◌++◌, map,
  arith, ltb, leb, ◌==◌, if◌then◌else◌, Result, raised, ok, ◌>>=◌, ◌>>◌, raise_if, or_raise,
  value_error, same, contains, unique, keep, find, any, all, null, length, Has, nat_eq, list_eq,
  option_eq, bool_eq, string_eq, Bool-cases, both_true, both_false, negated_true, negated_false,
  if_true, if_false, is_some, or_default, Option-cases, All,
}
use llmmaxxing.Base.{key_error, assertion_error}
use llmmaxxing.Core.Ids.{AccountId, DeploymentGenerationId, ProbeToken, Digest}
use llmmaxxing.Core.Reasons.{FailureCause, FailureScope, scope_eq}
use llmmaxxing.Gateway.Budget.{Candidate}
use llmmaxxing.Gateway.Runtime.Circuits.{
  CircuitState, CircuitCause, CircuitValue, closed_at, state_eq, state_fields_match, opened,
  half_open,
}
use llmmaxxing.Gateway.Runtime.Requests.{Journal}
use llmmaxxing.Gateway.Runtime.State.{AccountRuntime, circuit_value}
use llmmaxxing.Gateway.Runtime.Recovery.{compare_and_swap_circuit, compare_and_swap_account_circuit}
use llmmaxxing.Gateway.Routing.Classifier.{
  FailureClassification, failure_classification, cause_unknown, scope_unknown,
}

pub record CircuitProbe : Type 0 where
  pub scope : FailureScope
  pub account_id : AccountId
  pub generation_id : DeploymentGenerationId
  pub value : CircuitValue

-- `CircuitProbe.__post_init__`
unfoldable pub circuit_probe : CircuitProbe → Result CircuitProbe
circuit_probe p = do
  raise_if (scope_unknown p.scope) value_error
  raise_if (not (same p.value.state half_open)) value_error
  ok p

-- `_CIRCUIT_CAUSE[cause]`
abbrev pub circuit_cause : FailureCause → Result CircuitCause
circuit_cause FailureCause.capacity = ok CircuitCause.capacity
circuit_cause FailureCause.transient_failure = ok CircuitCause.transient_failure
circuit_cause FailureCause.quota = ok CircuitCause.quota
circuit_cause FailureCause.unknown = raised key_error

-- `(15_000, 30_000, 60_000)[min(step, 2)]`
abbrev pub base_ms : ℕ → ℕ
base_ms step = if step == 0 then 15000 else if step == 1 then 30000 else 60000

abbrev pub is_account : FailureScope → Bool
is_account scope = same scope FailureScope.account

-- `step = min(current.backoff_step + (current.state is HALF_OPEN), 2)`
abbrev pub next_step : CircuitValue → ℕ
next_step v = min (v.backoff_step + (if same v.state half_open then 1 else 0)) 2

-- The value of the scope's circuit, and its compare-and-swap.
abbrev pub scoped : FailureScope → DeploymentGenerationId → AccountRuntime → CircuitValue
scoped scope generation rt =
    if is_account scope then rt.account_circuit else circuit_value generation rt

unfoldable pub swap_scoped :
    Journal
    → FailureScope
    → DeploymentGenerationId
    → CircuitValue
    → CircuitValue
    → AccountRuntime
    → AccountRuntime × Result Bool
swap_scoped journal scope generation expected replacement rt =
    if is_account scope
    then compare_and_swap_account_circuit journal expected replacement rt
    else compare_and_swap_circuit journal generation expected replacement rt

-- `replacement if swapped else None`
abbrev pub on_swap :
    {A : Type 0} → A → AccountRuntime × Result Bool → AccountRuntime × Result (Option A)
on_swap a (rt, raised e) = (rt, raised e)
on_swap a (rt, ok true) = (rt, ok (some a))
on_swap a (rt, ok false) = (rt, ok none)

-- A replacement that its validator refuses is raised before the swap.
abbrev pub swap_made :
    {A : Type 0}
    → Journal
    → FailureScope
    → DeploymentGenerationId
    → CircuitValue
    → (CircuitValue → A)
    → AccountRuntime
    → Result CircuitValue
    → AccountRuntime × Result (Option A)
swap_made journal scope generation expected answer rt (raised e) = (rt, raised e)
swap_made journal scope generation expected answer rt (ok replacement) =
    on_swap (answer replacement) (swap_scoped journal scope generation expected replacement rt)

module _ (seed : Digest → ℕ → ℕ) where
  unfoldable pub backoff_ms : ℕ → Digest → ℕ
  backoff_ms step evidence = base_ms step + seed evidence step % (base_ms step / 5 + 1)

  -- An open circuit, made through its validator.
  unfoldable pub reopened : CircuitValue → CircuitCause → Digest → ℕ → ℕ → Result CircuitValue
  reopened current cause evidence now_ms step = state_fields_match (record {
    state = opened;
    cause = some cause;
    epoch = current.epoch + 1;
    opened_at_ms = now_ms;
    retry_at_ms = now_ms + backoff_ms step evidence;
    backoff_step = step;
    evidence_digest = some evidence;
    probe_id = none;
  })

  -- `_replacement`
  unfoldable pub replacement_of : CircuitValue → FailureClassification → ℕ → ℕ → Result CircuitValue
  replacement_of current classification now_ms step = do
    cause ← circuit_cause classification.cause
    reopened current cause classification.evidence_digest now_ms step

  -- `open`, which is a reserved word.
  unfoldable pub open_circuit :
      Journal
      → DeploymentGenerationId
      → FailureClassification
      → ℕ
      → AccountRuntime
      → AccountRuntime × Result (Option CircuitValue)
  open_circuit journal generation classification now_ms rt =
      let current = scoped classification.scope generation rt in
      if cause_unknown classification.cause || scope_unknown classification.scope
      then (rt, ok none)
      else if same current.state opened
      then (rt, ok (some current))
      else swap_made journal classification.scope generation current (λ v. v) rt
          (replacement_of current classification now_ms (next_step current))

  -- The circuit that failed its probe: with new evidence of its own scope, or with its old one.
  unfoldable pub probe_replacement : CircuitProbe → FailureClassification → ℕ → Result CircuitValue
  probe_replacement probe classification now_ms =
      let step = min (probe.value.backoff_step + 1) 2 in
      if not (cause_unknown classification.cause) && same classification.scope probe.scope
      then replacement_of probe.value classification now_ms step
      else do
        cause ← or_raise probe.value.cause assertion_error
        evidence ← or_raise probe.value.evidence_digest assertion_error
        reopened probe.value cause evidence now_ms step

  unfoldable pub probe_failed :
      Journal
      → CircuitProbe
      → FailureClassification
      → ℕ
      → AccountRuntime
      → AccountRuntime × Result (Option CircuitValue)
  probe_failed journal probe classification now_ms rt =
      swap_made journal probe.scope probe.generation_id probe.value (λ v. v) rt
        (probe_replacement probe classification now_ms)

  -- The classification of a probe that was given up; the digest where there is none is 64 zeros.
  abbrev pub abandoned : CircuitProbe → FailureClassification
  abandoned probe = record {
    cause = FailureCause.unknown;
    scope = FailureScope.unknown;
    evidence_digest = or_default 0 probe.value.evidence_digest;
    pre_response_bytes = true;
  }

  unfoldable pub probe_abandoned :
      Journal → CircuitProbe → ℕ → AccountRuntime → AccountRuntime × Result (Option CircuitValue)
  probe_abandoned journal probe now_ms rt = probe_failed journal probe (abandoned probe) now_ms rt

  -- The candidate's half-open circuits, as probes.
  abbrev pub probes_of : Candidate → List CircuitProbe
  probes_of c =
      probe_in FailureScope.account c.account_circuit
      ++ probe_in FailureScope.deployment c.deployment_circuit
    where
      probe_in : FailureScope → CircuitValue → List CircuitProbe
      probe_in scope v =
          if same v.state half_open
          then (record {
            scope = scope;
            account_id = c.authorized_leg.account_id;
            generation_id = c.authorized_leg.generation_id;
            value = v;
          })
            ∷ []
          else []

  -- The next member of a tuple that is built from calls, each of which may raise.
  abbrev pub abandon_next :
      (AccountRuntime → AccountRuntime × Result (List (Option CircuitValue)))
      → AccountRuntime × Result (Option CircuitValue)
      → AccountRuntime × Result (List (Option CircuitValue))
  abandon_next rest (rt, raised e) = (rt, raised e)
  abandon_next rest (rt, ok v) = let (rt', vs) = rest rt in (rt', vs >>= λ ws. ok (v ∷ ws))

  -- `tuple(self.probe_abandoned(probe) for probe in probes)`
  abbrev pub abandon_each :
      Journal
      → ℕ
      → List CircuitProbe
      → AccountRuntime
      → AccountRuntime × Result (List (Option CircuitValue))
  abandon_each journal now_ms [] rt = (rt, ok [])
  abandon_each journal now_ms (p ∷ ps) rt =
      abandon_next (abandon_each journal now_ms ps) (probe_abandoned journal p now_ms rt)

  unfoldable pub abandon_candidate :
      Journal
      → Candidate
      → ℕ
      → AccountRuntime
      → AccountRuntime × Result (List (Option CircuitValue))
  abandon_candidate journal c now_ms rt = abandon_each journal now_ms (probes_of c) rt

-- The half-open value that a probe puts in the place of an open one.
unfoldable pub half_opened : CircuitValue → ProbeToken → Result CircuitValue
half_opened current token =
    state_fields_match
      (record current { state = half_open; retry_at_ms = 0; probe_id = some token })

unfoldable pub begin_probe :
    Journal
    → ProbeToken
    → DeploymentGenerationId
    → ℕ
    → AccountRuntime
    → AccountRuntime × Result (Option CircuitProbe)
begin_probe journal token generation now_ms rt =
    let scope =
      if same rt.account_circuit.state opened
      then FailureScope.account
      else FailureScope.deployment in
    let current = scoped scope generation rt in
    if not (same current.state opened) || ltb now_ms current.retry_at_ms
    then (rt, ok none)
    else swap_made journal scope generation current
        (λ v. record {
          scope = scope;
          account_id = rt.account.account_id;
          generation_id = generation;
          value = v;
        })
        rt (half_opened current token)

unfoldable pub probe_succeeded :
    Journal → CircuitProbe → AccountRuntime → AccountRuntime × Result Bool
probe_succeeded journal probe rt =
    swap_scoped journal probe.scope probe.generation_id probe.value (closed_at probe.value.epoch) rt
