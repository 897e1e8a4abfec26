-- ===== src/Gateway/Runtime/Limits.antt =====
-- src/llmmaxxing/gateway/runtime_state.py, `AccountRuntime.try_reserve`: a grant stays within the
-- account's limits.
use llmmaxxing.Base.{
  ℕ, ◌+◌, ◌≤◌, ◌<◌, ◌≡◌, refl, sym, subst, ◌∙◌, Bool, true, false, ◌&&◌, ◌||◌, not, none, some,
  arith, ltb, leb, ◌==◌, Bool-cases, ok, leb-false, length, is_some-false, length-keep_snoc-le, inl,
  inr, sum_of-keep_snoc-le, nat_eq,
}
use llmmaxxing.Base.Dict.{
  lookup, member, values, length-put_absent, values-put_absent, lookup-keep-none,
}
use llmmaxxing.Core.Ids.{Digest}
use llmmaxxing.Core.Models.Legs.{RequestProfile}
use llmmaxxing.Core.Models.Accounts.{is_known, enforced_max_in_flight}
use llmmaxxing.Gateway.Runtime.Requests.{
  ReservationRequest, granted, Journal, JournalReceipt, total_token_upper_bound,
}
use llmmaxxing.Gateway.Runtime.State.{
  AccountRuntime, active_count, rpm_starts, tpm_starts, total_tokens, in_rpm_window, in_tpm_window,
  purge_windows, roll_monthly, is_expired_start,
}
use llmmaxxing.Gateway.Runtime.Guards.{ledger_denial, is_known_attempt, circuit_denial}
use llmmaxxing.Gateway.Runtime.Reserve.{booked, refresh, pruned, try_reserve, start_of, attempt_of}
use llmmaxxing.Gateway.Runtime.Grants.{
  fresh, pruned-SameBooks, fresh-SameBooks, granted-Admitted, deny_if-none,
}
use llmmaxxing.Gateway.Runtime.Passed.{
  Passed, quota_denial-none, rpm_denial-none, tpm_denial-none, monthly_denial-none,
}

-- The limits of the account, at the runtime's own time.
pub record WithinLimits (rt : AccountRuntime) : Type 0 where
  pub parallel : active_count rt ≤ enforced_max_in_flight rt.account
  pub rpm :
      (n : ℕ)
      → is_known rt.account.rpm_limit ≡ true
      → rt.account.rpm_limit.value ≡ some n
      → length (rpm_starts rt.time_high_water_ms rt) ≤ n
  pub tpm :
      (n : ℕ)
      → is_known rt.account.tpm_limit ≡ true
      → rt.account.tpm_limit.value ≡ some n
      → total_tokens (tpm_starts rt.time_high_water_ms rt) ≤ n
  pub monthly :
      (n : ℕ)
      → is_known rt.account.monthly_quota_units ≡ true
      → rt.account.monthly_quota_units.value ≡ some n
      → rt.monthly_used ≤ n

-- An attempt that passed the ledger's guards is in none of the tables.
pub ledger_denial-fresh :
    (now_ms : ℕ) (r : ReservationRequest) (rt : AccountRuntime)
    → ledger_denial now_ms r rt ≡ none
    → (is_known_attempt r.attempt_id rt ≡ false) × (circuit_denial r rt ≡ none)
unfolding ledger_denial
ledger_denial-fresh now_ms r rt h =
    let (_, h₁) = deny_if-none _ _ h in
    let (_, h₂) = deny_if-none (ltb r.quota_units rt.account.quota_units_per_attempt) _ h₁ in
    let (_, h₃) = deny_if-none (leb r.deadline_at_ms now_ms) _ h₂ in
    deny_if-none (is_known_attempt r.attempt_id rt) _ h₃

le_trans : {a b c : ℕ} → a ≤ b → b ≤ c → a ≤ c
le_trans h k = omega (arith, h, k)

below_limit : {a n : ℕ} → a < n → a + 1 ≤ n
below_limit h = omega (arith, h)

-- The roll of the month keeps the time and the starts.
roll_monthly-time :
    (now_ms : ℕ) (rt : AccountRuntime)
    → rt.time_high_water_ms ≡ (roll_monthly now_ms rt).time_high_water_ms
unfolding roll_monthly
roll_monthly-time now_ms rt =
    elim (Bool-cases (not (rt.monthly_reset_at_ms == 0) && leb rt.monthly_reset_at_ms now_ms)) [
      | inl h ↦ rw h
      | inr h ↦ rw h
    ]

roll_monthly-starts :
    (now_ms : ℕ) (rt : AccountRuntime) → rt.starts ≡ (roll_monthly now_ms rt).starts
unfolding roll_monthly
roll_monthly-starts now_ms rt =
    elim (Bool-cases (not (rt.monthly_reset_at_ms == 0) && leb rt.monthly_reset_at_ms now_ms)) [
      | inl h ↦ rw h
      | inr h ↦ rw h
    ]

-- The upkeep keeps the time that the clock's reading set.
fresh_time :
    (clock_ms : ℕ) (rt : AccountRuntime)
    → (pruned clock_ms rt).time_high_water_ms ≡ (fresh clock_ms rt).time_high_water_ms
unfolding refresh purge_windows
fresh_time clock_ms rt =
    roll_monthly-time _ (purge_windows (pruned clock_ms rt).time_high_water_ms (pruned clock_ms rt))

module _ (digest : Digest) (r : ReservationRequest) (rt : AccountRuntime) where
  booked-active :
      lookup r.attempt_id rt.attempts ≡ none
      → active_count (booked digest r rt) ≡ active_count rt + 1
  unfolding booked
  booked-active h =
      rw (length-put_absent r.attempt_id (attempt_of digest r rt) rt.attempts h) (omega arith)

  booked-rpm :
      (now_ms : ℕ)
      → lookup r.attempt_id rt.starts ≡ none
      → length (rpm_starts now_ms (booked digest r rt)) ≤ length (rpm_starts now_ms rt) + 1
  unfolding booked
  booked-rpm now_ms h =
      rw (values-put_absent r.attempt_id (start_of r rt) rt.starts h)
        (length-keep_snoc-le (in_rpm_window rt.account now_ms) (values rt.starts) (start_of r rt))

  booked-tpm :
      (now_ms : ℕ)
      → lookup r.attempt_id rt.starts ≡ none
      → total_tokens (tpm_starts now_ms (booked digest r rt))
        ≤ total_tokens (tpm_starts now_ms rt) + total_token_upper_bound r
  unfolding booked
  booked-tpm now_ms h = rw (values-put_absent r.attempt_id (start_of r rt) rt.starts h) (
      sum_of-keep_snoc-le (in_tpm_window rt.account now_ms) (λ start. start.tokens)
        (values rt.starts) (start_of r rt))

  booked-WithinLimits :
      lookup r.attempt_id rt.attempts ≡ none
      → lookup r.attempt_id rt.starts ≡ none
      → Passed rt.time_high_water_ms r rt
      → WithinLimits (booked digest r rt)
  unfolding booked
  booked-WithinLimits no_attempt no_start (parallel, rpm, tpm, monthly) = record {
    parallel =
        let now = booked-active no_attempt in
        let room = leb-false (enforced_max_in_flight rt.account) (active_count rt) parallel in
        subst (λ n. n ≤ enforced_max_in_flight rt.account) (sym now) (omega (arith, room));
    rpm = λ n known value.
        le_trans (booked-rpm rt.time_high_water_ms no_start)
          (below_limit (rpm_denial-none rt.time_high_water_ms n rt rpm known value));
    tpm = λ n known value.
        le_trans (booked-tpm rt.time_high_water_ms no_start)
          (tpm_denial-none rt.time_high_water_ms n r rt tpm known value);
    monthly = λ n known value. monthly_denial-none n r rt monthly known value;
  }

unknown_parts : (a b c : Bool) → (a || b || c) ≡ false → (a ≡ false) × (b ≡ false)
unknown_parts true b c h = cc
unknown_parts false true c h = cc
unknown_parts false false c h = (refl, refl)

pruned-SameBooks-fresh :
    (clock_ms : ℕ) (rt : AccountRuntime)
    → (pruned clock_ms rt).attempts ≡ (fresh clock_ms rt).attempts
pruned-SameBooks-fresh clock_ms rt =
    (pruned-SameBooks clock_ms rt).attempts ∙ sym (fresh-SameBooks clock_ms rt).attempts

-- The tables of the state in which the quotas are tested have no entry that the ledger's had not.
pub fresh-absent :
    (clock_ms : ℕ) (r : ReservationRequest) (rt : AccountRuntime)
    → is_known_attempt r.attempt_id (pruned clock_ms rt) ≡ false
    → (lookup r.attempt_id (fresh clock_ms rt).attempts ≡ none)
      × (lookup r.attempt_id (fresh clock_ms rt).starts ≡ none)
unfolding refresh purge_windows
fresh-absent clock_ms r rt h =
    let live = pruned clock_ms rt in
    let (no_attempt, no_start) = unknown_parts _ _ (member r.attempt_id live.resolutions) h in
    (
      subst (λ d. lookup r.attempt_id d ≡ none) (pruned-SameBooks-fresh clock_ms rt)
          (is_some-false _ no_attempt),
      subst (λ d. lookup r.attempt_id d ≡ none)
          (roll_monthly-starts live.time_high_water_ms (purge_windows live.time_high_water_ms live))
          (lookup-keep-none (λ item. not (is_expired_start live.time_high_water_ms live item))
            r.attempt_id live.starts (is_some-false _ no_start)),
    )

-- A granted reservation leaves the account within its limit of attempts in flight and, of each
-- known quota dimension, within the limit of starts and of tokens in the rolling window and of
-- units in the month.
pub try_reserve-WithinLimits :
    (clock_ms : ℕ) (digest : RequestProfile → Digest) (journal : Journal) (r s : ReservationRequest)
    (c : JournalReceipt) (rt rt' : AccountRuntime)
    → try_reserve digest journal clock_ms r rt ≡ (rt', ok (granted s c))
    → WithinLimits rt'
try_reserve-WithinLimits clock_ms digest journal r s c rt rt' h =
    let a = granted-Admitted clock_ms digest journal r rt {rt' = rt'} {s = s} {c = c} h in
    let (known, _) = ledger_denial-fresh _ r (pruned clock_ms rt) a.passes in
    let (no_attempt, no_start) = fresh-absent clock_ms r rt known in
    subst WithinLimits a.result (
      booked-WithinLimits (digest r.profile) r (fresh clock_ms rt) no_attempt no_start (
        subst (λ now. Passed now r (fresh clock_ms rt)) (fresh_time clock_ms rt)
          (quota_denial-none _ r (fresh clock_ms rt) a.has_quota)))
