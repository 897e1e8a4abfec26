-- ===== src/Gateway/Runtime/Recovery.antt =====
-- src/llmmaxxing/gateway/runtime_state.py: the circuits' compare-and-swap, the capacity report, the
-- authoritative count, the recovery probe and the change of the account.
use llmmaxxing.Base.{
  ℕ, ◌-◌, Bool, true, false, not, ◌&&◌, ◌||◌, Option, none, some, List, [], ◌∷◌, min, ltb, ◌==◌,
  if◌then◌else◌, is_some, or_default, same, length, any, keep, sort_by, Result, raised, ok, ◌>>=◌,
  value_error, nat_eq, option_eq,
}
use llmmaxxing.Base.Dict.{Dict, put, remove, values, keys}
use llmmaxxing.Core.Ids.{AccountId, AttemptId, DeploymentGenerationId, ProbeToken}
use llmmaxxing.Core.StateMachines.{AccountState}
use llmmaxxing.Core.Models.Accounts.{ProviderAccount, enforced_max_in_flight}
use llmmaxxing.Gateway.Runtime.Circuits.{CircuitValue, CircuitScope, circuit_eq}
use llmmaxxing.Gateway.Runtime.Requests.{Attempt, ProbeClassification, Journal}
use llmmaxxing.Gateway.Runtime.State.{
  AccountRuntime, tick, roll_monthly, purge_windows, next_monthly_reset, is_uncertain, is_active,
  active_count, uncertain_count, rpm_starts, tpm_starts, total_tokens, circuit_value,
}

-- `consumed.pop(probe_id, None)` for the probe of a circuit value that is replaced.
abbrev pub release_probe : CircuitValue → Dict ProbeToken AttemptId → Dict ProbeToken AttemptId
release_probe expected consumed = elim expected.probe_id [
  | none ↦ consumed
  | some probe_id ↦ remove probe_id consumed
]

-- What a swap writes, behind the journal's record of it.
unfoldable pub settle_swap :
    Result (Unit {0})
    → Result (Unit {0})
    → AccountRuntime
    → AccountRuntime
    → AccountRuntime × Result Bool
settle_swap (raised e) checkpoint swapped rt = (rt, raised e)
settle_swap (ok u) checkpoint swapped rt = (swapped, checkpoint >>= λ _. ok true)

-- The tests of both swaps, in their order.
unfoldable pub swap :
    Journal
    → CircuitScope
    → Option DeploymentGenerationId
    → CircuitValue
    → CircuitValue
    → CircuitValue
    → AccountRuntime
    → AccountRuntime
    → AccountRuntime × Result Bool
swap journal scope generation current expected replacement swapped rt =
    if not (same current expected)
    then (rt, ok false)
    else if ltb replacement.epoch expected.epoch
    then (rt, raised value_error)
    else if same replacement expected
    then (rt, ok true)
    else settle_swap (journal.update_circuit rt.account.account_id scope generation replacement)
        journal.checkpoint swapped rt

abbrev pub with_circuit :
    DeploymentGenerationId → CircuitValue → CircuitValue → AccountRuntime → AccountRuntime
with_circuit generation expected replacement rt = record rt {
  consumed_circuit_probes = release_probe expected rt.consumed_circuit_probes;
  circuits = put generation replacement rt.circuits;
}

unfoldable pub compare_and_swap_circuit :
    Journal
    → DeploymentGenerationId
    → CircuitValue
    → CircuitValue
    → AccountRuntime
    → AccountRuntime × Result Bool
compare_and_swap_circuit journal generation expected replacement rt =
    swap journal CircuitScope.deployment (some generation) (circuit_value generation rt) expected
      replacement (with_circuit generation expected replacement rt) rt

abbrev pub with_account_circuit : CircuitValue → CircuitValue → AccountRuntime → AccountRuntime
with_account_circuit expected replacement rt = record rt {
  consumed_circuit_probes = release_probe expected rt.consumed_circuit_probes;
  account_circuit = replacement;
}

unfoldable pub compare_and_swap_account_circuit :
    Journal → CircuitValue → CircuitValue → AccountRuntime → AccountRuntime × Result Bool
compare_and_swap_account_circuit journal expected replacement rt =
    swap journal CircuitScope.account none rt.account_circuit expected replacement
      (with_account_circuit expected replacement rt) rt

pub record AccountCapacity : Type 0 where
  pub account_id : AccountId
  pub state : AccountState
  pub parallel_limit : ℕ
  pub active_attempts : ℕ
  pub uncertain_attempts : ℕ
  pub rpm_starts : ℕ
  pub tpm_tokens : ℕ
  pub monthly_quota_units : ℕ
  pub account_circuit : CircuitValue
  pub monthly_reset_at_ms : ℕ
  pub recovery_probe_in_flight : Bool
  pub consumed_probe_tokens : ℕ

unfoldable pub capacity : ℕ → AccountRuntime → AccountRuntime × AccountCapacity
capacity clock_ms rt =
    let now_ms = (tick clock_ms rt).time_high_water_ms in
    let fresh = roll_monthly now_ms (purge_windows now_ms (tick clock_ms rt)) in
    (
      fresh,
      record {
        account_id = fresh.account.account_id;
        state = or_default AccountState.draft fresh.account.state;
        parallel_limit = enforced_max_in_flight fresh.account;
        active_attempts = active_count fresh;
        uncertain_attempts = uncertain_count fresh;
        rpm_starts = length (rpm_starts now_ms fresh);
        tpm_tokens = total_tokens (tpm_starts now_ms fresh);
        monthly_quota_units = fresh.monthly_used;
        account_circuit = fresh.account_circuit;
        monthly_reset_at_ms = fresh.monthly_reset_at_ms;
        recovery_probe_in_flight = is_some fresh.recovery_probe_id;
        consumed_probe_tokens = length fresh.consumed_circuit_probes;
      },
    )

abbrev pub has_active : AccountRuntime → Bool
has_active rt = any is_active (values rt.attempts)

abbrev pub attempts_before : AttemptId × Attempt → AttemptId × Attempt → Bool
attempts_before (i, a) (j, b) =
    ltb a.started_at_ms b.started_at_ms || a.started_at_ms == b.started_at_ms && ltb i j

-- `ordered[keep:]`
abbrev pub drop {ℓ} : {A : Type ℓ} → ℕ → List A → List A
drop n [] = []
drop n (x ∷ xs) = let rest = drop (n - 1) xs in if n == 0 then x ∷ xs else rest

abbrev pub remove_all : List AttemptId → Dict AttemptId Attempt → Dict AttemptId Attempt
remove_all [] attempts = attempts
remove_all (i ∷ is) attempts = remove_all is (remove i attempts)

-- `_apply_authoritative_active_count`, behind its test.
unfoldable pub with_active_count : ℕ → AccountRuntime → AccountRuntime
with_active_count count rt =
    let kept = min count (length rt.attempts) in
    record rt {
      attempts = remove_all (drop kept (keys (sort_by attempts_before rt.attempts))) rt.attempts;
      external_uncertain_holds = count - kept;
    }

-- A negative count, which raises, is no natural number.
unfoldable pub apply_authoritative_active_count :
    Journal → ℕ → AccountRuntime → AccountRuntime × Result (Unit {0})
apply_authoritative_active_count journal count rt =
    if has_active rt
    then (rt, raised value_error)
    else elim (journal.record_authoritative_active_count rt.account.account_id count) [
      | raised e ↦ (rt, raised e)
      | ok u ↦ (with_active_count count rt, journal.checkpoint)
    ]

-- A probe id that does not start with `probe_`, which raises, is no probe token.
unfoldable pub begin_recovery_probe :
    Journal → ProbeToken → AccountRuntime → AccountRuntime × Result Bool
begin_recovery_probe journal probe_id rt =
    if is_some rt.recovery_probe_id || uncertain_count rt == 0 || has_active rt
    then (rt, ok false)
    else elim (journal.record_recovery_probe_started rt.account.account_id probe_id) [
      | raised e ↦ (rt, raised e)
      | ok u ↦
          (record rt { recovery_probe_id = some probe_id }, journal.checkpoint >>= λ _. ok true)
    ]

abbrev pub earlier : Attempt → Attempt → Bool
earlier a b =
    ltb a.started_at_ms b.started_at_ms
    || a.started_at_ms == b.started_at_ms && ltb a.attempt_id b.attempt_id

abbrev earliest : Attempt → List Attempt → Attempt
earliest m [] = m
earliest m (x ∷ xs) = earliest (if earlier x m then x else m) xs

-- The oldest uncertain attempt leaves.
abbrev release_oldest : List Attempt → Dict AttemptId Attempt → Dict AttemptId Attempt
release_oldest [] attempts = attempts
release_oldest (x ∷ xs) attempts = remove (earliest x xs).attempt_id attempts

abbrev release_one : AccountRuntime → AccountRuntime
release_one rt =
    if rt.external_uncertain_holds == 0
    then record rt {
      attempts = release_oldest (keep is_uncertain (values rt.attempts)) rt.attempts;
    }
    else record rt { external_uncertain_holds = rt.external_uncertain_holds - 1 }

-- `_apply_recovery_probe_finished`
unfoldable pub apply_recovery_probe_finished : ProbeClassification → AccountRuntime → AccountRuntime
apply_recovery_probe_finished classification rt =
    record (elim classification [ ProbeClassification.available ↦ release_one rt | _ ↦ rt ]) {
      recovery_probe_id = none;
    }

unfoldable pub finish_recovery_probe :
    Journal → ProbeToken → ProbeClassification → AccountRuntime → AccountRuntime × Result (Unit {0})
finish_recovery_probe journal probe_id classification rt =
    if not (same rt.recovery_probe_id (some probe_id)) || has_active rt
    then (rt, raised value_error)
    else elim (journal.record_recovery_probe_finished rt.account.account_id probe_id
        classification) [
          | raised e ↦ (rt, raised e)
          | ok u ↦ (apply_recovery_probe_finished classification rt, journal.checkpoint)
        ]

-- `update_account`
unfoldable pub update_account :
    ProviderAccount → ℕ → AccountRuntime → AccountRuntime × Result (Unit {0})
update_account account clock_ms rt =
    let now_ms = (tick clock_ms rt).time_high_water_ms in
    let rolled = roll_monthly now_ms (tick clock_ms rt) in
    let candidate = next_monthly_reset account now_ms in
    if not (account.account_id == rt.account.account_id) then (rt, raised value_error) else (
      record rolled {
        account = account;
        monthly_reset_at_ms =
            if rolled.monthly_reset_at_ms == 0 || ltb rolled.monthly_reset_at_ms candidate
            then candidate
            else rolled.monthly_reset_at_ms;
      },
      ok tt,
    )
