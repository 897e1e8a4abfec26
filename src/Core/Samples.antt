-- ===== src/Core/Samples.antt =====
-- Concrete accounts and events, at which the theorems of the core types apply.
use llmmaxxing.Base.{ℕ, ◌≡◌, refl, some, none, [], ◌∷◌, ok}
use llmmaxxing.Core.Reasons.{QuotaDimensionStatus}
use llmmaxxing.Core.StateMachines.{AccountState, KeyLifecycleState, key_transition, revoke}
use llmmaxxing.Core.StateMachines.Laws.{run_key, key_transition-revoked}
use llmmaxxing.Core.Models.Accounts.{
  ProviderAccount, QuotaDimension, derive_and_guard_state, guard_attested, fully_attested, is_bound,
  has_credential,
}
use llmmaxxing.Core.Models.Accounts.Attested.{IsServable, derive_and_guard_state-IsServable}

abbrev dimension : ℕ → QuotaDimension
dimension n = record { status = QuotaDimensionStatus.known; value = some n }

abbrev unlimited : QuotaDimension
unlimited = record { status = QuotaDimensionStatus.attested_absent; value = none }

abbrev onboarded : ProviderAccount
onboarded = record {
  account_id = 3;
  connection = "litellm";
  provider_token = "token";
  binding_ref = "ref";
  credential_fingerprint = some "sha256";
  credential_epoch = some 1;
  parallel_limit = dimension 2;
  local_parallel_ceiling = 4;
  rpm_limit = dimension 2;
  rpm_window_seconds = 60;
  tpm_limit = unlimited;
  tpm_window_seconds = 60;
  monthly_quota_units = unlimited;
  quota_units_per_attempt = 1;
  monthly_reset_at_ms = none;
  state = none;
}

abbrev activated : ProviderAccount
activated = record onboarded { state = some AccountState.active }

activates : derive_and_guard_state onboarded ≡ ok activated
unfolding derive_and_guard_state guard_attested fully_attested is_bound has_credential
activates = refl

derive_and_guard_state-IsServable_example : IsServable activated
derive_and_guard_state-IsServable_example =
    derive_and_guard_state-IsServable onboarded activated activates refl

revokes_again :
    run_key KeyLifecycleState.revoked (revoke ∷ revoke ∷ []) ≡ ok KeyLifecycleState.revoked
unfolding key_transition
revokes_again = refl

key_transition-revoked_example : KeyLifecycleState.revoked ≡ KeyLifecycleState.revoked
key_transition-revoked_example = key_transition-revoked (revoke ∷ revoke ∷ []) revokes_again
