-- ===== src/Gateway/Breaker/Calls.antt =====
-- The calls of the controller as one type, and how every one of them moves the circuits.
use llmmaxxing.Base.{
  ℕ, ◌≡◌, inl, inr, Option, List, [], ◌∷◌, Result, raised, ok, same, nat_eq, list_eq, option_eq,
  bool_eq, string_eq, Bool-cases, All, same→eq,
}
use llmmaxxing.Core.Ids.{DeploymentGenerationId, ProbeToken, Digest}
use llmmaxxing.Core.Reasons.{scope_eq}
use llmmaxxing.Gateway.Budget.{Candidate}
use llmmaxxing.Gateway.Runtime.Circuits.{
  CircuitState, CircuitValue, circuit_eq, state_eq, half_open,
}
use llmmaxxing.Gateway.Runtime.Requests.{Journal}
use llmmaxxing.Gateway.Runtime.State.{AccountRuntime}
use llmmaxxing.Gateway.Routing.Classifier.{FailureClassification}
use llmmaxxing.Gateway.Breaker.{
  CircuitProbe, open_circuit, probe_failed, probe_abandoned, abandoned, abandon_next, abandon_each,
  probes_of, abandon_candidate, begin_probe, probe_succeeded,
}
use llmmaxxing.Gateway.Breaker.Follows.{
  Follows, self-Follows, Follows-trans, begin_probe-Follows, probe_succeeded-Follows,
  probe_failed-Follows, open_circuit-Follows,
}

abbrev IsHalfOpen : CircuitProbe → Type 0
IsHalfOpen probe = probe.value.state ≡ CircuitState.half_open

probes_of-IsHalfOpen : (seed : Digest → ℕ → ℕ) (c : Candidate) → All IsHalfOpen (probes_of seed c)
probes_of-IsHalfOpen seed c = elim (Bool-cases (same c.account_circuit.state half_open)) [
  | inl a ↦ elim (Bool-cases (same c.deployment_circuit.state half_open)) [
    | inl d ↦ rw (a, d) (same→eq _ half_open a, (same→eq _ half_open d, tt))
    | inr d ↦ rw (a, d) (same→eq _ half_open a, tt)
  ]
  | inr a ↦ elim (Bool-cases (same c.deployment_circuit.state half_open)) [
    | inl d ↦ rw (a, d) (same→eq _ half_open d, tt)
    | inr d ↦ rw (a, d) tt
  ]
]

module _ (seed : Digest → ℕ → ℕ) (journal : Journal) where
  abandon_each-Follows :
      (now_ms : ℕ) (probes : List CircuitProbe) (rt : AccountRuntime)
      → All IsHalfOpen probes
      → Follows seed now_ms rt (abandon_each seed journal now_ms probes rt).0
  unfolding probe_abandoned
  abandon_each-Follows now_ms [] rt h = self-Follows seed now_ms rt
  abandon_each-Follows now_ms (p ∷ ps) rt (half, halves) =
      further (probe_failed seed journal p (abandoned seed p) now_ms rt)
        (probe_failed-Follows seed now_ms journal p (abandoned seed p) rt half)
        (λ rt'. abandon_each-Follows now_ms ps rt' halves)
    where
      further :
          (q : AccountRuntime × Result (Option CircuitValue))
          → Follows seed now_ms rt q.0
          → ((rt' : AccountRuntime)
              → Follows seed now_ms rt' (abandon_each seed journal now_ms ps rt').0)
          → Follows seed now_ms rt (abandon_next seed (abandon_each seed journal now_ms ps) q).0
      further (rt', raised e) v k = v
      further (rt', ok o) v k = Follows-trans seed now_ms v (k rt')

-- A call of the controller.
pub data Control : Type 0 where
  opens : DeploymentGenerationId → FailureClassification → Control
  begins : ProbeToken → DeploymentGenerationId → Control
  succeeds : CircuitProbe → Control
  fails : CircuitProbe → FailureClassification → Control
  abandons : Candidate → Control

abbrev pub control : (Digest → ℕ → ℕ) → Journal → ℕ → Control → AccountRuntime → AccountRuntime
control seed journal now_ms (opens generation c) rt =
    (open_circuit seed journal generation c now_ms rt).0
control seed journal now_ms (begins token generation) rt =
    (begin_probe journal token generation now_ms rt).0
control seed journal now_ms (succeeds probe) rt = (probe_succeeded journal probe rt).0
control seed journal now_ms (fails probe c) rt = (probe_failed seed journal probe c now_ms rt).0
control seed journal now_ms (abandons candidate) rt =
    (abandon_candidate seed journal candidate now_ms rt).0

-- The probe that a call reports on holds a half-open circuit, as one that `begin_probe` made does.
abbrev pub Reports : Control → Type 0
Reports (succeeds probe) = probe.value.state ≡ CircuitState.half_open
Reports (fails probe c) = probe.value.state ≡ CircuitState.half_open
Reports _ = Unit

-- Whatever call of the controller is made, whatever the journal answers and whether it returns or
-- raises, where a probe that it reports on holds a half-open circuit: every circuit of the account
-- stays or moves by steps of the machine. One that is not open opens in the next epoch, to be
-- retried between 15 and 72 seconds later; one that is open becomes half-open, in its epoch, only
-- when its time of retry has come; and only one that is half-open closes, in its epoch.
pub control-Follows :
    (seed : Digest → ℕ → ℕ) (journal : Journal) (now_ms : ℕ) (call : Control) (rt : AccountRuntime)
    → Reports call
    → Follows seed now_ms rt (control seed journal now_ms call rt)
unfolding abandon_candidate
control-Follows seed journal now_ms (opens generation c) rt h =
    open_circuit-Follows seed now_ms journal generation c rt
control-Follows seed journal now_ms (begins token generation) rt h =
    begin_probe-Follows seed now_ms journal token generation rt
control-Follows seed journal now_ms (succeeds probe) rt h =
    probe_succeeded-Follows seed now_ms journal probe rt h
control-Follows seed journal now_ms (fails probe c) rt h =
    probe_failed-Follows seed now_ms journal probe c rt h
control-Follows seed journal now_ms (abandons candidate) rt h =
    abandon_each-Follows seed journal now_ms (probes_of seed candidate) rt
      (probes_of-IsHalfOpen seed candidate)
