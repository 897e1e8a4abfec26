-- ===== src/Gateway/Runtime/State.antt =====
-- src/llmmaxxing/gateway/runtime_state.py: the state of one `AccountRuntime`, its counters and the
-- upkeep that its operations start with. A rolling window's floor is moved to the other side of
-- the comparison, since times are natural numbers here.
use llmmaxxing.Base.{
  ℕ, ◌+◌, ◌*◌, Bool, not, ◌&&◌, Option, none, List, [], max, ltb, leb, ◌==◌, if◌then◌else◌, length,
  keep, sum_of, count_of, or_default, nat_eq,
}
use llmmaxxing.Base.Dict.{Dict, lookup, member, values}
use llmmaxxing.Core.Ids.{AttemptId, DeploymentGenerationId, ProbeToken}
use llmmaxxing.Core.Models.Accounts.{ProviderAccount, is_known}
use llmmaxxing.Gateway.Runtime.Circuits.{CircuitValue, closed_at}
use llmmaxxing.Gateway.Runtime.Requests.{Start, Attempt, AttemptState, ResolvedAttempt}

pub record AccountRuntime : Type 0 where
  pub account : ProviderAccount
  pub resolution_ledger_limit : ℕ
  pub resolution_retention_ms : ℕ
  pub starts : Dict AttemptId Start
  pub attempts : Dict AttemptId Attempt
  pub resolutions : Dict AttemptId ResolvedAttempt
  pub circuits : Dict DeploymentGenerationId CircuitValue
  pub account_circuit : CircuitValue
  pub consumed_circuit_probes : Dict ProbeToken AttemptId
  pub monthly_used : ℕ
  pub time_high_water_ms : ℕ
  pub monthly_reset_at_ms : ℕ
  pub external_uncertain_holds : ℕ
  pub recovery_probe_id : Option ProbeToken

unfoldable pub next_monthly_reset : ProviderAccount → ℕ → ℕ
next_monthly_reset account now_ms =
    let reset_at_ms = or_default 0 account.monthly_reset_at_ms in
    if is_known account.monthly_quota_units
    then (if ltb now_ms reset_at_ms then reset_at_ms else 0)
    else 0

-- `AccountRuntime(account, ...)` at the clock's reading `clock_ms`.
unfoldable pub new_runtime : ProviderAccount → ℕ → ℕ → ℕ → AccountRuntime
new_runtime account limit retention clock_ms = record {
  account = account;
  resolution_ledger_limit = limit;
  resolution_retention_ms = retention;
  starts = [];
  attempts = [];
  resolutions = [];
  circuits = [];
  account_circuit = closed_at 0;
  consumed_circuit_probes = [];
  monthly_used = 0;
  time_high_water_ms = clock_ms;
  monthly_reset_at_ms = next_monthly_reset account clock_ms;
  external_uncertain_holds = 0;
  recovery_probe_id = none;
}

abbrev pub is_uncertain : Attempt → Bool
is_uncertain a = elim a.state [
  | AttemptState.active ↦ Bool.false
  | AttemptState.uncertain ↦ Bool.true
]

abbrev pub is_active : Attempt → Bool
is_active a = not (is_uncertain a)

abbrev pub active_count : AccountRuntime → ℕ
active_count rt = length rt.attempts + rt.external_uncertain_holds

abbrev pub uncertain_count : AccountRuntime → ℕ
uncertain_count rt = count_of is_uncertain (values rt.attempts) + rt.external_uncertain_holds

abbrev pub in_rpm_window : ProviderAccount → ℕ → Start → Bool
in_rpm_window account now_ms start =
    start.counted_start && ltb now_ms (start.started_at_ms + account.rpm_window_seconds * 1000)

abbrev pub rpm_starts : ℕ → AccountRuntime → List Start
rpm_starts now_ms rt = keep (in_rpm_window rt.account now_ms) (values rt.starts)

abbrev pub in_tpm_window : ProviderAccount → ℕ → Start → Bool
in_tpm_window account now_ms start =
    ltb now_ms (start.started_at_ms + account.tpm_window_seconds * 1000)

abbrev pub tpm_starts : ℕ → AccountRuntime → List Start
tpm_starts now_ms rt = keep (in_tpm_window rt.account now_ms) (values rt.starts)

abbrev pub total_tokens : List Start → ℕ
total_tokens starts = sum_of (λ start. start.tokens) starts

-- `_now_ms`: the clock never runs backwards for the runtime.
unfoldable pub tick : ℕ → AccountRuntime → AccountRuntime
tick clock_ms rt = record rt { time_high_water_ms = max rt.time_high_water_ms clock_ms }

abbrev pub is_expired_resolution : ℕ → AccountRuntime → AttemptId × ResolvedAttempt → Bool
is_expired_resolution now_ms rt (attempt_id, resolved) =
    leb (resolved.resolved_at_ms + rt.resolution_retention_ms) now_ms
    && not (member attempt_id rt.attempts)

unfoldable pub prune_resolutions : ℕ → AccountRuntime → AccountRuntime
prune_resolutions now_ms rt = record rt {
  resolutions = keep (λ item. not (is_expired_resolution now_ms rt item)) rt.resolutions;
}

-- `_MAX_ROLLING_WINDOW_SECONDS * 1000`
abbrev pub keep_ms : ℕ
keep_ms = 86400000

abbrev pub is_expired_start : ℕ → AccountRuntime → AttemptId × Start → Bool
is_expired_start now_ms rt (attempt_id, start) =
    leb (start.started_at_ms + keep_ms) now_ms && not (member attempt_id rt.attempts)

unfoldable pub purge_windows : ℕ → AccountRuntime → AccountRuntime
purge_windows now_ms rt = record rt {
  starts = keep (λ item. not (is_expired_start now_ms rt item)) rt.starts;
}

unfoldable pub roll_monthly : ℕ → AccountRuntime → AccountRuntime
roll_monthly now_ms rt =
    if not (rt.monthly_reset_at_ms == 0) && leb rt.monthly_reset_at_ms now_ms
    then record rt { monthly_used = 0; monthly_reset_at_ms = 0 }
    else rt

abbrev pub circuit_value : DeploymentGenerationId → AccountRuntime → CircuitValue
circuit_value generation rt = or_default (closed_at 0) (lookup generation rt.circuits)
