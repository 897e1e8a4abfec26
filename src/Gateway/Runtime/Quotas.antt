-- ===== src/Gateway/Runtime/Quotas.antt =====
-- src/llmmaxxing/gateway/runtime_state.py, `AccountRuntime.try_reserve`: the quota dimensions, in
-- the order in which they are tested, behind the upkeep of the windows.
use llmmaxxing.Base.{
  ℕ, ◌+◌, ◌-◌, ◌*◌, Bool, ◌&&◌, ◌||◌, Option, none, some, List, [], ◌∷◌, ltb, leb, ◌==◌,
  if◌then◌else◌, length, least, sort_by, max, Result, raised, ok, or_raise, ◌>>=◌, value_error,
  assertion_error,
}
use llmmaxxing.Core.Models.Accounts.{is_known, enforced_max_in_flight}
use llmmaxxing.Gateway.Runtime.Requests.{
  ReservationRequest, ReservationDenied, ReservationDenialReason, Start, total_token_upper_bound,
}
use llmmaxxing.Gateway.Runtime.State.{
  AccountRuntime, active_count, rpm_starts, tpm_starts, total_tokens,
}
use llmmaxxing.Gateway.Runtime.Guards.{denial, denial_until}

-- `min(start.started_at_ms for start in starts)` and the `max` of the same.
abbrev pub first_start : List Start → Result ℕ
first_start [] = raised value_error
first_start (x ∷ xs) = ok (least (λ start. start.started_at_ms) x xs)

abbrev greatest_start : ℕ → List Start → ℕ
greatest_start m [] = m
greatest_start m (x ∷ xs) = greatest_start (max m x.started_at_ms) xs

abbrev pub last_start : List Start → Result ℕ
last_start [] = raised value_error
last_start (x ∷ xs) = ok (greatest_start x.started_at_ms xs)

unfoldable pub rpm_denial : ℕ → AccountRuntime → Result (Option ReservationDenied)
rpm_denial now_ms rt =
    let starts = rpm_starts now_ms rt in
    if is_known rt.account.rpm_limit
    then (or_raise rt.account.rpm_limit.value assertion_error >>= λ limit.
        if leb limit (length starts)
        then (first_start starts >>= λ first. ok (
            some (
              denial_until ReservationDenialReason.rpm_exhausted
                (first + rt.account.rpm_window_seconds * 1000))))
        else ok none)
    else ok none

-- The loop of `_tpm_retry_at` over the starts in order, behind which stands the last start.
unfoldable pub retry_from : ℕ → ℕ → ℕ → ℕ → ℕ → List Start → ℕ
retry_from window_ms requested limit total last [] = last + window_ms
retry_from window_ms requested limit total last (x ∷ xs) =
    let rest = retry_from window_ms requested limit (total - x.tokens) last xs in
    if leb (total - x.tokens + requested) limit then x.started_at_ms + window_ms else rest

abbrev pub starts_before : Start → Start → Bool
starts_before a b =
    ltb a.started_at_ms b.started_at_ms
    || a.started_at_ms == b.started_at_ms && ltb a.attempt_id b.attempt_id

-- `_tpm_retry_at`
unfoldable pub tpm_retry_at : AccountRuntime → List Start → ℕ → ℕ → Result ℕ
tpm_retry_at rt starts requested limit = do
  last ← last_start starts
  ok (
      retry_from (rt.account.tpm_window_seconds * 1000) requested limit (total_tokens starts) last
        (sort_by starts_before starts))

unfoldable pub tpm_denial :
    ℕ → ReservationRequest → AccountRuntime → Result (Option ReservationDenied)
tpm_denial now_ms request rt =
    let starts = tpm_starts now_ms rt in
    let requested = total_token_upper_bound request in
    if is_known rt.account.tpm_limit
    then (or_raise rt.account.tpm_limit.value assertion_error >>= λ limit.
        if ltb limit requested
        then ok (some (denial ReservationDenialReason.tpm_exhausted))
        else if ltb limit (total_tokens starts + requested)
        then (tpm_retry_at rt starts requested limit >>= λ retry.
            ok (some (denial_until ReservationDenialReason.tpm_exhausted retry)))
        else ok none)
    else ok none

unfoldable pub monthly_denial :
    ReservationRequest → AccountRuntime → Result (Option ReservationDenied)
monthly_denial request rt =
    if is_known rt.account.monthly_quota_units
    then (or_raise rt.account.monthly_quota_units.value assertion_error >>= λ limit.
        if ltb limit (rt.monthly_used + request.quota_units)
        then ok (
            some
              (denial_until ReservationDenialReason.monthly_quota_exhausted rt.monthly_reset_at_ms))
        else ok none)
    else ok none

infixr 3 ◌orelse◌
-- A test that may raise, and the tests behind it.
abbrev pub ◌orelse◌ :
    Result (Option ReservationDenied)
    → Result (Option ReservationDenied)
    → Result (Option ReservationDenied)
raised e orelse rest = raised e
ok (some d) orelse rest = ok (some d)
ok none orelse rest = rest

unfoldable pub quota_denial :
    ℕ → ReservationRequest → AccountRuntime → Result (Option ReservationDenied)
quota_denial now_ms request rt =
    if is_known rt.account.monthly_quota_units
      && ltb 0 request.quota_units
      && rt.monthly_reset_at_ms == 0
    then ok (some (denial ReservationDenialReason.monthly_reset_unavailable))
    else if leb (enforced_max_in_flight rt.account) (active_count rt)
    then ok (some (denial ReservationDenialReason.parallel_exhausted))
    else rpm_denial now_ms rt orelse (tpm_denial now_ms request rt orelse monthly_denial request rt)
