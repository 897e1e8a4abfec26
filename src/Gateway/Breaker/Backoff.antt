-- ===== src/Gateway/Breaker/Backoff.antt =====
-- When a circuit that opens may be tried again, and what a probe waits for.
use llmmaxxing.Base.{
  ℕ, ◌+◌, ◌≤◌, min, ◌≡◌, refl, sym, ap, ◌∙◌, subst, ◌⊎◌, inl, inr, not, ◌&&◌, ◌||◌, Option, none,
  some, arith, ltb, if◌then◌else◌, Result, ok, same, nat_eq, list_eq, option_eq, bool_eq, string_eq,
  Bool-cases, both_false, negated_true, if_true, if_false, >>=-eq-ok, ok-injective, same→eq,
  ltb-false, or_raise-eq-ok, assertion_error,
}
use llmmaxxing.Core.Ids.{DeploymentGenerationId, ProbeToken, Digest}
use llmmaxxing.Core.Reasons.{FailureScope, scope_eq}
use llmmaxxing.Gateway.Runtime.Circuits.{CircuitCause, CircuitValue, state_eq, opened, half_open}
use llmmaxxing.Gateway.Runtime.Requests.{Journal}
use llmmaxxing.Gateway.Runtime.State.{AccountRuntime}
use llmmaxxing.Gateway.Routing.Classifier.{FailureClassification, cause_unknown, scope_unknown}
use llmmaxxing.Gateway.Breaker.{
  CircuitProbe, circuit_cause, next_step, scoped, swap_made, backoff_ms, reopened, replacement_of,
  open_circuit, probe_replacement, probe_failed, half_opened, begin_probe,
}
use llmmaxxing.Gateway.Breaker.Swapped.{swap_made-some, state_fields_match-same}

module _ (seed : Digest → ℕ → ℕ) where
  -- Between 15 seconds and 72.
  pub backoff_ms-within :
      (step : ℕ) (evidence : Digest)
      → (15000 ≤ backoff_ms seed step evidence) × (backoff_ms seed step evidence ≤ 72000)
  unfolding backoff_ms
  backoff_ms-within step evidence = ground arith

  -- A circuit that an operation opens: a new epoch, a step of at most 2, and a time of retry that
  -- lies between 15 and 72 seconds ahead.
  pub record Opens (old new : CircuitValue) (now_ms : ℕ) : Type 0 where
    pub state : new.state ≡ opened
    pub epoch : new.epoch ≡ old.epoch + 1
    pub since : new.opened_at_ms ≡ now_ms
    pub earliest : now_ms + 15000 ≤ new.retry_at_ms
    pub latest : new.retry_at_ms ≤ now_ms + 72000
    pub step : new.backoff_step ≤ 2
    pub tokenless : new.probe_id ≡ none

  reopened-Opens :
      (old : CircuitValue) (cause : CircuitCause) (evidence : Digest) (now_ms step : ℕ)
      {v : CircuitValue}
      → step ≤ 2
      → reopened seed old cause evidence now_ms step ≡ ok v
      → Opens old v now_ms
  unfolding reopened
  reopened-Opens old cause evidence now_ms step b h =
      let (low, high) = backoff_ms-within step evidence in
      subst (λ v. Opens old v now_ms) (state_fields_match-same _ h)
        (record {
          state = refl;
          epoch = refl;
          since = refl;
          earliest = omega (arith, low);
          latest = omega (arith, high);
          step = b;
          tokenless = refl;
        })

  pub replacement_of-Opens :
      (old : CircuitValue) (c : FailureClassification) (now_ms step : ℕ) {v : CircuitValue}
      → step ≤ 2
      → replacement_of seed old c now_ms step ≡ ok v
      → Opens old v now_ms
  unfolding replacement_of
  replacement_of-Opens old c now_ms step b h =
      let (cause, _, h') = >>=-eq-ok (circuit_cause c.cause) _ h in
      reopened-Opens old cause c.evidence_digest now_ms step b h'

  -- `open` that answers with a value leaves that value in the circuit of its scope, open: either it
  -- stood there already and nothing changed, or it was put in the place of one that was not open, in the
  -- next epoch, to be retried between 15 and 72 seconds later.
  pub open_circuit-Opens :
      (journal : Journal) (generation : DeploymentGenerationId) (c : FailureClassification)
      (now_ms : ℕ) (rt rt' : AccountRuntime) (v : CircuitValue)
      → open_circuit seed journal generation c now_ms rt ≡ (rt', ok (some v))
      → (scoped c.scope generation rt' ≡ v)
        × (v.state ≡ opened)
        × ((rt' ≡ rt) ⊎ Opens (scoped c.scope generation rt) v now_ms)
  unfolding open_circuit
  open_circuit-Opens journal generation c now_ms rt rt' v h =
      let current = scoped c.scope generation rt in
      elim (Bool-cases (cause_unknown c.cause || scope_unknown c.scope)) [
        | inl unknown ↦ absurd (nothing (sym (if_true _ _ _ unknown) ∙ h))
        | inr known ↦ elim (Bool-cases (same current.state opened)) [
          | inl already ↦
              let k = sym (if_false _ _ _ known ∙ if_true _ _ _ already) ∙ h in
              let kept : rt ≡ rt' = ap (λ x. x.0) k in
              let stood : current ≡ v = some-injective (ok-injective (ap (λ x. x.1) k)) in
              (
                ap (scoped c.scope generation) (sym kept) ∙ stood,
                ap (λ x. x.state) (sym stood) ∙ same→eq current.state opened already,
                inl (sym kept),
              )
          | inr shut ↦
              let (w, made, e, _, written) =
                swap_made-some journal c.scope generation current (λ x. x) rt rt' _
                  (sym (if_false _ _ _ known ∙ if_false _ _ _ shut) ∙ h) in
              let o =
                replacement_of-Opens current c now_ms (next_step current) (omega arith) made in
              (
                written ∙ sym e,
                ap (λ x. x.state) e ∙ o.state,
                inr (subst (λ x. Opens current x now_ms) (sym e) o),
              )
        ]
      ]
    where
      nothing :
          ◌≡◌ {A = AccountRuntime × Result (Option CircuitValue)} (rt, ok none) (rt', ok (some v))
          → ⊥
      nothing k = cc

      some-injective : {x y : CircuitValue} → some x ≡ some y → x ≡ y
      some-injective k = cc

  pub probe_replacement-Opens :
      (probe : CircuitProbe) (c : FailureClassification) (now_ms : ℕ) {v : CircuitValue}
      → probe_replacement seed probe c now_ms ≡ ok v
      → Opens probe.value v now_ms
  unfolding probe_replacement
  probe_replacement-Opens probe c now_ms h =
      elim (Bool-cases (not (cause_unknown c.cause) && same c.scope probe.scope)) [
        | inl own ↦
            replacement_of-Opens probe.value c now_ms (min (probe.value.backoff_step + 1) 2)
              (omega arith) (sym (if_true _ _ _ own) ∙ h)
        | inr other ↦
            let h0 = sym (if_false _ _ _ other) ∙ h in
            let (cause, _, h1) = or_raise-eq-ok probe.value.cause assertion_error _ h0 in
            let (evidence, _, h2) =
              or_raise-eq-ok probe.value.evidence_digest assertion_error _ h1 in
            reopened-Opens probe.value cause evidence now_ms (min (probe.value.backoff_step + 1) 2)
              (omega arith) h2
      ]

  -- A failed probe that answers with a value found the circuit as the probe left it, and opens it
  -- anew: in the next epoch, to be retried between 15 and 72 seconds later.
  pub probe_failed-Opens :
      (journal : Journal) (probe : CircuitProbe) (c : FailureClassification) (now_ms : ℕ)
      (rt rt' : AccountRuntime) (v : CircuitValue)
      → probe_failed seed journal probe c now_ms rt ≡ (rt', ok (some v))
      → (scoped probe.scope probe.generation_id rt ≡ probe.value)
        × (scoped probe.scope probe.generation_id rt' ≡ v)
        × Opens probe.value v now_ms
  unfolding probe_failed
  probe_failed-Opens journal probe c now_ms rt rt' v h =
      let (w, made, e, found, written) =
        swap_made-some journal probe.scope probe.generation_id probe.value (λ x. x) rt rt' _ h in
      (
        found,
        written ∙ sym e,
        subst (λ x. Opens probe.value x now_ms) (sym e)
            (probe_replacement-Opens probe c now_ms made),
      )

-- The circuit of a probe, before and after the probe begins.
pub record Begun (rt rt' : AccountRuntime) (token : ProbeToken) (now_ms : ℕ) (p : CircuitProbe)
    : Type 0 where
  pub was_open : (scoped p.scope p.generation_id rt).state ≡ opened
  pub due : (scoped p.scope p.generation_id rt).retry_at_ms ≤ now_ms
  pub stored : scoped p.scope p.generation_id rt' ≡ p.value
  pub half : p.value.state ≡ half_open
  pub epoch : p.value.epoch ≡ (scoped p.scope p.generation_id rt).epoch
  pub carries : p.value.probe_id ≡ some token

begin_at :
    (journal : Journal) (token : ProbeToken) (scope : FailureScope)
    (generation : DeploymentGenerationId) (now_ms : ℕ) (rt rt' : AccountRuntime) (p : CircuitProbe)
    → (if not (same (scoped scope generation rt).state opened)
          || ltb now_ms (scoped scope generation rt).retry_at_ms
        then (rt, ok none)
        else swap_made journal scope generation
            (scoped scope generation rt)
            (λ v. record {
              scope = scope;
              account_id = rt.account.account_id;
              generation_id = generation;
              value = v;
            })
            rt
            (half_opened (scoped scope generation rt) token))
      ≡ (rt', ok (some p))
    → Begun rt rt' token now_ms p
unfolding half_opened
begin_at journal token scope generation now_ms rt rt' p h =
    let current = scoped scope generation rt in
    elim (Bool-cases (not (same current.state opened) || ltb now_ms current.retry_at_ms)) [
      | inl early ↦ absurd (nothing (sym (if_true _ _ _ early) ∙ h))
      | inr due ↦
          let (shut, late) = both_false (not (same current.state opened)) _ due in
          let (v, made, e, found, written) =
            swap_made-some journal scope generation current _ rt rt' _
              (sym (if_false _ _ _ due) ∙ h) in
          let same_value = state_fields_match-same _ made in
          subst (Begun rt rt' token now_ms) (sym e) (record {
            was_open = same→eq current.state opened (negated_true _ shut);
            due = ltb-false _ _ late;
            stored = written;
            half = ap (λ x. x.state) (sym same_value);
            epoch = ap (λ x. x.epoch) (sym same_value);
            carries = ap (λ x. x.probe_id) (sym same_value);
          })
    ]
  where
    nothing :
        ◌≡◌ {A = AccountRuntime × Result (Option CircuitProbe)} (rt, ok none) (rt', ok (some p)) → ⊥
    nothing k = cc

-- A probe that begins found the circuit of its scope open and its time of retry come, and leaves the
-- circuit half-open in the same epoch, with the probe's token.
pub begin_probe-Begun :
    (journal : Journal) (token : ProbeToken) (generation : DeploymentGenerationId) (now_ms : ℕ)
    (rt rt' : AccountRuntime) (p : CircuitProbe)
    → begin_probe journal token generation now_ms rt ≡ (rt', ok (some p))
    → Begun rt rt' token now_ms p
unfolding begin_probe
begin_probe-Begun journal token generation now_ms rt rt' p h =
    begin_at journal token _ generation now_ms rt rt' p h
