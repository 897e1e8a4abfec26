-- ===== src/Gateway/Runtime/Samples.antt =====
-- A concrete account: tests of the runtime's operations, and its theorems at inputs that meet their
-- hypotheses.
use llmmaxxing.Base.{
  ℕ, ◌≡◌, ◌≢◌, refl, inl, Bool, true, false, none, some, [], ◌∷◌, arith, ok, raised,
  lease_transition, nat_eq,
}
use llmmaxxing.Gateway.Fixtures.{account, request, receipt, journal}
use llmmaxxing.Core.Ids.{Digest}
use llmmaxxing.Core.Reasons.{TerminalOutcome}
use llmmaxxing.Core.Models.Legs.{RequestProfile}
use llmmaxxing.Core.Models.Accounts.{fully_attested, enforced_max_in_flight}
use llmmaxxing.Gateway.Runtime.Circuits.{CircuitValue, closed_at, half_open, capacity}
use llmmaxxing.Gateway.Runtime.Requests.{
  ReservationRequest, granted, denied, ReservationDenialReason, AttemptResolution,
}
use llmmaxxing.Gateway.Runtime.State.{
  AccountRuntime, new_runtime, next_monthly_reset, tick, prune_resolutions, purge_windows,
  roll_monthly, circuit_value,
}
use llmmaxxing.Gateway.Runtime.Guards.{entry_denial, ledger_denial, circuit_denial, denial}
use llmmaxxing.Gateway.Runtime.Quotas.{quota_denial, rpm_denial, tpm_denial, monthly_denial}
use llmmaxxing.Gateway.Runtime.Reserve.{
  try_reserve, reserve_open, reserve_at, pruned, refresh, admit, settle_append, booked,
}
use llmmaxxing.Gateway.Runtime.Leases.{finish, finish_open, settle_resolution, no_send}
use llmmaxxing.Gateway.Runtime.Grants.{Unbooked, denied-Unbooked, fresh}
use llmmaxxing.Gateway.Runtime.Limits.{WithinLimits, try_reserve-WithinLimits}
use llmmaxxing.Gateway.Runtime.Probes.{try_reserve-probe_once}
use llmmaxxing.Gateway.Runtime.Finish.{finish_final}
use llmmaxxing.Gateway.Runtime.NoSend.{SameCounters, try_reserve-no_send}
use llmmaxxing.Gateway.Runtime.Swaps.{
  Rises, at_deployment, at_account, after_swaps, after_swaps-Rises,
}
use llmmaxxing.Gateway.Runtime.Total.{Answered, try_reserve-answers}

abbrev profile_digest : RequestProfile → Digest
profile_digest p = p.input_tokens_max

abbrev resolution_digest : AttemptResolution → Digest
resolution_digest resolution = if_released resolution.release_capacity
  where
    if_released : Bool → ℕ
    if_released true = 1
    if_released false = 2

abbrev probing : CircuitValue
probing = record {
  state = half_open;
  cause = some capacity;
  epoch = 4;
  opened_at_ms = 500;
  retry_at_ms = 0;
  backoff_step = 1;
  evidence_digest = some 6;
  probe_id = some 11;
}

abbrev idle : AccountRuntime
idle = new_runtime account 100 1000 1000

abbrev probed : AccountRuntime
probed = record idle { circuits = (50, probing) ∷ [] }

abbrev first_request : ReservationRequest
first_request = request 1 (closed_at 0)

abbrev after_first : AccountRuntime
after_first = (try_reserve profile_digest journal 1000 first_request idle).0

reserves_first :
    try_reserve profile_digest journal 1000 first_request idle
    ≡ (after_first, ok (granted first_request receipt))
unfolding try_reserve reserve_open entry_denial pruned prune_resolutions tick reserve_at
    ledger_denial circuit_denial refresh roll_monthly purge_windows admit quota_denial rpm_denial
    tpm_denial monthly_denial enforced_max_in_flight fully_attested settle_append new_runtime
    next_monthly_reset
reserves_first = refl

try_reserve-WithinLimits_example : WithinLimits after_first
try_reserve-WithinLimits_example =
    try_reserve-WithinLimits 1000 profile_digest journal first_request first_request receipt idle
      after_first reserves_first

-- The account's one place is taken.
abbrev after_second : AccountRuntime
after_second = (try_reserve profile_digest journal 1500 (request 2 (closed_at 0)) after_first).0

refuses_second :
    try_reserve profile_digest journal 1500 (request 2 (closed_at 0)) after_first
    ≡ (after_second, ok (denied (denial ReservationDenialReason.parallel_exhausted)))
unfolding try_reserve reserve_open entry_denial pruned prune_resolutions tick reserve_at
    ledger_denial circuit_denial refresh roll_monthly purge_windows admit quota_denial rpm_denial
    tpm_denial monthly_denial enforced_max_in_flight fully_attested settle_append new_runtime
    next_monthly_reset booked
refuses_second = refl

denied-Unbooked_example : Unbooked 1500 after_first after_second
denied-Unbooked_example =
    denied-Unbooked 1500 profile_digest journal (request 2 (closed_at 0)) after_first
      {rt' = after_second} (denial ReservationDenialReason.parallel_exhausted) refuses_second

abbrev probe_request : ReservationRequest
probe_request = request 1 probing

abbrev after_probe : AccountRuntime
after_probe = (try_reserve profile_digest journal 1000 probe_request probed).0

reserves_probe :
    try_reserve profile_digest journal 1000 probe_request probed
    ≡ (after_probe, ok (granted probe_request receipt))
unfolding try_reserve reserve_open entry_denial pruned prune_resolutions tick reserve_at
    ledger_denial circuit_denial refresh roll_monthly purge_windows admit quota_denial rpm_denial
    tpm_denial monthly_denial enforced_max_in_flight fully_attested settle_append new_runtime
    next_monthly_reset
reserves_probe = refl

keeps_circuit : circuit_value 50 after_probe ≡ probing
unfolding try_reserve reserve_open entry_denial pruned prune_resolutions tick reserve_at
    ledger_denial circuit_denial refresh roll_monthly purge_windows admit quota_denial rpm_denial
    tpm_denial monthly_denial enforced_max_in_flight fully_attested settle_append new_runtime
    next_monthly_reset booked
keeps_circuit = refl

try_reserve-probe_once_example :
    try_reserve profile_digest journal 2000 (request 2 probing) after_probe
    ≢ (after_probe, ok (granted (request 2 probing) receipt))
unfolding try_reserve reserve_open entry_denial pruned prune_resolutions tick reserve_at
    ledger_denial circuit_denial refresh roll_monthly purge_windows admit quota_denial rpm_denial
    tpm_denial monthly_denial enforced_max_in_flight fully_attested settle_append new_runtime
    next_monthly_reset booked
try_reserve-probe_once_example =
    try_reserve-probe_once profile_digest 1000 2000 journal journal probe_request
      (request 2 probing) probe_request (request 2 probing) receipt receipt probed after_probe
      after_probe 11 reserves_probe (inl refl) (inl refl)

abbrev after_finish : AccountRuntime
after_finish = (finish resolution_digest journal 1800 1 no_send after_first).0

finishes_first :
    finish resolution_digest journal 1800 1 no_send after_first ≡ (after_finish, ok receipt)
unfolding try_reserve reserve_open entry_denial pruned prune_resolutions tick reserve_at
    ledger_denial circuit_denial refresh roll_monthly purge_windows admit quota_denial rpm_denial
    tpm_denial monthly_denial enforced_max_in_flight fully_attested settle_append new_runtime
    next_monthly_reset booked finish finish_open settle_resolution
finishes_first = refl

abbrev unknown_end : AttemptResolution
unknown_end = record {
  outcome = TerminalOutcome.upstream_failed;
  release_capacity = false;
  actual_starts = none;
  actual_token_units = none;
  actual_quota_units = none;
}

finish_final_example :
    (finish resolution_digest journal 1900 1 no_send after_finish ≡ (after_finish, ok receipt))
    × (resolution_digest unknown_end ≢ resolution_digest no_send
        → finish resolution_digest journal 1900 1 unknown_end after_finish
          ≡ (after_finish, raised lease_transition))
finish_final_example =
    finish_final resolution_digest journal journal 1800 1900 1 no_send unknown_end after_first
      after_finish receipt finishes_first

try_reserve-no_send_example : SameCounters (fresh 1000 idle) after_finish
try_reserve-no_send_example =
    try_reserve-no_send profile_digest resolution_digest journal journal 1000 1800 first_request
      first_request receipt receipt idle after_first after_finish reserves_first finishes_first

after_swaps-Rises_example : Rises probed (
    after_swaps journal
      (at_deployment 50 probing (closed_at 5) ∷ at_account (closed_at 0) (closed_at 3) ∷ [])
      probed)
after_swaps-Rises_example =
    after_swaps-Rises journal
      (at_deployment 50 probing (closed_at 5) ∷ at_account (closed_at 0) (closed_at 3) ∷ []) probed

try_reserve-answers_example :
    Answered journal (try_reserve profile_digest journal 1000 first_request idle).1
unfolding new_runtime
try_reserve-answers_example =
    try_reserve-answers profile_digest 1000 journal first_request idle
      (λ known. (2, refl, omega arith)) (λ known. (100, refl, omega arith))
      (λ known. (50, refl, omega arith))
