-- ===== src/Gateway/Runtime/Passed.antt =====
-- src/llmmaxxing/gateway/runtime_state.py, `AccountRuntime.try_reserve`: what passing the tests of the
-- quota dimensions says.
use llmmaxxing.Base.{
  ℕ, ◌+◌, ◌≤◌, ◌<◌, ◌≡◌, refl, subst, Bool, true, false, ◌&&◌, Option, none, some, ltb, leb, ◌==◌,
  Result, raised, ok, or_raise, ◌>>=◌, assertion_error, leb-false, ltb-false, if◌then◌else◌, length,
  nat_eq,
}
use llmmaxxing.Core.Models.Accounts.{is_known, enforced_max_in_flight}
use llmmaxxing.Gateway.Runtime.Requests.{
  ReservationRequest, ReservationDenied, total_token_upper_bound,
}
use llmmaxxing.Gateway.Runtime.State.{
  AccountRuntime, active_count, rpm_starts, tpm_starts, total_tokens,
}
use llmmaxxing.Gateway.Runtime.Quotas.{
  quota_denial, rpm_denial, tpm_denial, monthly_denial, ◌orelse◌, first_start, tpm_retry_at,
}

orelse-ok_none :
    (a b : Result (Option ReservationDenied))
    → (a orelse b) ≡ ok none
    → (a ≡ ok none) × (b ≡ ok none)
orelse-ok_none (raised e) b h = cc
orelse-ok_none (ok (some d)) b h = cc
orelse-ok_none (ok none) b h = (refl, h)

-- A conditional refusal that was not made.
if-ok_some-ok_none :
    (b : Bool) (d : ReservationDenied) (m : Result (Option ReservationDenied))
    → (if b then ok (some d) else m) ≡ ok none
    → (b ≡ false) × (m ≡ ok none)
if-ok_some-ok_none true d m h = cc
if-ok_some-ok_none false d m h = (refl, h)

-- What passing the quota tests says.
abbrev pub Passed : ℕ → ReservationRequest → AccountRuntime → Type 0
Passed now_ms r rt =
    (leb (enforced_max_in_flight rt.account) (active_count rt) ≡ false)
    × (rpm_denial now_ms rt ≡ ok none)
    × (tpm_denial now_ms r rt ≡ ok none)
    × (monthly_denial r rt ≡ ok none)

pub quota_denial-none :
    (now_ms : ℕ) (r : ReservationRequest) (rt : AccountRuntime)
    → quota_denial now_ms r rt ≡ ok none
    → Passed now_ms r rt
unfolding quota_denial
quota_denial-none now_ms r rt h =
    let (_, h₁) =
      if-ok_some-ok_none
        (is_known rt.account.monthly_quota_units
          && ltb 0 r.quota_units
          && rt.monthly_reset_at_ms == 0)
        _ _ h in
    let (parallel, h₂) =
      if-ok_some-ok_none (leb (enforced_max_in_flight rt.account) (active_count rt)) _ _ h₁ in
    let (rpm, h₃) = orelse-ok_none _ _ h₂ in
    let (tpm, monthly) = orelse-ok_none _ _ h₃ in (parallel, rpm, tpm, monthly)

-- A known dimension has its limit tested.
known-limit-ok_none :
    (b : Bool) (o : Option ℕ) (test : ℕ → Result (Option ReservationDenied)) (n : ℕ)
    → (if b then (or_raise o assertion_error >>= test) else ok none) ≡ ok none
    → b ≡ true
    → o ≡ some n
    → test n ≡ ok none
known-limit-ok_none true (some m) test n h known value = subst (λ x. test x ≡ ok none) (cc) h
known-limit-ok_none true none test n h known value = cc
known-limit-ok_none false o test n h known value = cc

-- A refusal with a time to retry at that was not made.
if-bind-ok_none :
    (b : Bool) (m : Result ℕ) (f : ℕ → ReservationDenied)
    → (if b then (m >>= λ x. ok (some (f x))) else ok none) ≡ ok none
    → b ≡ false
if-bind-ok_none false m f h = refl
if-bind-ok_none true (raised e) f h = cc
if-bind-ok_none true (ok x) f h = cc

pub rpm_denial-none :
    (now_ms n : ℕ) (rt : AccountRuntime)
    → rpm_denial now_ms rt ≡ ok none
    → is_known rt.account.rpm_limit ≡ true
    → rt.account.rpm_limit.value ≡ some n
    → length (rpm_starts now_ms rt) < n
unfolding rpm_denial
rpm_denial-none now_ms n rt h known value =
    let h' =
      known-limit-ok_none (is_known rt.account.rpm_limit) rt.account.rpm_limit.value _ n h known
        value in
    leb-false n (length (rpm_starts now_ms rt)) (
      if-bind-ok_none (leb n (length (rpm_starts now_ms rt))) (first_start (rpm_starts now_ms rt)) _
        h')

pub tpm_denial-none :
    (now_ms n : ℕ) (r : ReservationRequest) (rt : AccountRuntime)
    → tpm_denial now_ms r rt ≡ ok none
    → is_known rt.account.tpm_limit ≡ true
    → rt.account.tpm_limit.value ≡ some n
    → total_tokens (tpm_starts now_ms rt) + total_token_upper_bound r ≤ n
unfolding tpm_denial
tpm_denial-none now_ms n r rt h known value =
    let starts = tpm_starts now_ms rt in
    let requested = total_token_upper_bound r in
    let h' =
      known-limit-ok_none (is_known rt.account.tpm_limit) rt.account.tpm_limit.value _ n h known
        value in
    let (_, h'') = if-ok_some-ok_none (ltb n requested) _ _ h' in
    ltb-false n (total_tokens starts + requested) (
      if-bind-ok_none (ltb n (total_tokens starts + requested)) (tpm_retry_at rt starts requested n)
        _ h'')

pub monthly_denial-none :
    (n : ℕ) (r : ReservationRequest) (rt : AccountRuntime)
    → monthly_denial r rt ≡ ok none
    → is_known rt.account.monthly_quota_units ≡ true
    → rt.account.monthly_quota_units.value ≡ some n
    → rt.monthly_used + r.quota_units ≤ n
unfolding monthly_denial
monthly_denial-none n r rt h known value =
    let h' =
      known-limit-ok_none (is_known rt.account.monthly_quota_units)
        rt.account.monthly_quota_units.value _ n h known value in
    ltb-false n (rt.monthly_used + r.quota_units)
      (if-ok_some-ok_none (ltb n (rt.monthly_used + r.quota_units)) _ _ h').0
