-- ===== src/Gateway/Breaker/Samples.antt =====
-- A circuit that opens, is probed and opens again.
use llmmaxxing.Base.{
  ℕ, ◌+◌, ◌%◌, ◌≡◌, refl, ◌⊎◌, true, none, some, [], ◌∷◌, ok, nat_eq, list_eq, option_eq, bool_eq,
  string_eq,
}
use llmmaxxing.Core.Reasons.{FailureCause, FailureScope, scope_eq}
use llmmaxxing.Gateway.Fixtures.{account, journal}
use llmmaxxing.Gateway.Runtime.Circuits.{
  CircuitValue, closed_at, opened, half_open, state_fields_match, CircuitCause,
}
use llmmaxxing.Gateway.Runtime.State.{
  AccountRuntime, new_runtime, next_monthly_reset, circuit_value,
}
use llmmaxxing.Gateway.Runtime.Recovery.{compare_and_swap_circuit, swap, settle_swap}
use llmmaxxing.Gateway.Routing.Classifier.{FailureClassification}
use llmmaxxing.Gateway.Breaker.{
  CircuitProbe, open_circuit, replacement_of, reopened, backoff_ms, swap_scoped, begin_probe,
  half_opened, probe_failed, probe_replacement, abandoned,
}
use llmmaxxing.Gateway.Breaker.Backoff.{
  Opens, open_circuit-Opens, Begun, begin_probe-Begun, probe_failed-Opens,
}
use llmmaxxing.Gateway.Breaker.Follows.{Follows}
use llmmaxxing.Gateway.Breaker.Calls.{Control, control, control-Follows}

abbrev seed : ℕ → ℕ → ℕ
seed evidence step = 7000

abbrev failure : FailureClassification
failure = record {
  cause = FailureCause.transient_failure;
  scope = FailureScope.deployment;
  evidence_digest = 3;
  pre_response_bytes = true;
}

abbrev opening : CircuitValue
opening = record {
  state = opened;
  cause = some CircuitCause.transient_failure;
  epoch = 1;
  opened_at_ms = 1000;
  retry_at_ms = 16000 + 7000 % 3001;
  backoff_step = 0;
  evidence_digest = some 3;
  probe_id = none;
}

abbrev start : AccountRuntime
start = new_runtime account 10 1000 500

abbrev after_open : AccountRuntime
after_open = record start { circuits = (50, opening) ∷ [] }

opens_first : open_circuit seed journal 50 failure 1000 start ≡ (after_open, ok (some opening))
unfolding open_circuit replacement_of reopened backoff_ms swap_scoped compare_and_swap_circuit swap
    settle_swap state_fields_match new_runtime next_monthly_reset
opens_first = refl

open_circuit-Opens_example :
    (circuit_value 50 after_open ≡ opening)
    × (opening.state ≡ opened)
    × ((after_open ≡ start) ⊎ Opens seed (closed_at 0) opening 1000)
unfolding new_runtime
open_circuit-Opens_example =
    open_circuit-Opens seed journal 50 failure 1000 start after_open opening opens_first

abbrev probe : CircuitProbe
probe = record {
  scope = FailureScope.deployment;
  account_id = 3;
  generation_id = 50;
  value = record opening { state = half_open; retry_at_ms = 0; probe_id = some 77 };
}

abbrev after_probe : AccountRuntime
after_probe = record start { circuits = (50, probe.value) ∷ [] }

probes : begin_probe journal 77 50 20000 after_open ≡ (after_probe, ok (some probe))
unfolding begin_probe half_opened swap_scoped compare_and_swap_circuit swap settle_swap
    state_fields_match new_runtime next_monthly_reset
probes = refl

begin_probe-Begun_example : Begun after_open after_probe 77 20000 probe
begin_probe-Begun_example =
    begin_probe-Begun journal 77 50 20000 after_open after_probe probe probes

abbrev again : CircuitValue
again = record opening {
  epoch = 2;
  opened_at_ms = 20000;
  retry_at_ms = 50000 + 7000 % 6001;
  backoff_step = 1;
}

abbrev after_failure : AccountRuntime
after_failure = record start { circuits = (50, again) ∷ [] }

fails_probe :
    probe_failed seed journal probe (abandoned seed probe) 20000 after_probe
    ≡ (after_failure, ok (some again))
unfolding probe_failed probe_replacement reopened backoff_ms swap_scoped compare_and_swap_circuit
    swap settle_swap state_fields_match new_runtime next_monthly_reset
fails_probe = refl

probe_failed-Opens_example :
    (circuit_value 50 after_probe ≡ probe.value)
    × (circuit_value 50 after_failure ≡ again)
    × Opens seed probe.value again 20000
unfolding new_runtime
probe_failed-Opens_example =
    probe_failed-Opens seed journal probe (abandoned seed probe) 20000 after_probe after_failure
      again fails_probe

control-Follows_example :
    Follows seed 20000 after_open (control seed journal 20000 (Control.begins 77 50) after_open)
control-Follows_example = control-Follows seed journal 20000 (Control.begins 77 50) after_open tt
