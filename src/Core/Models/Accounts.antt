-- ===== src/Core/Models/Accounts.antt =====
-- src/llmmaxxing/core/models.py: `QuotaDimension` and `ProviderAccount`.
pub mod Attested
use Prim.Native.String.{String}
use text.Mathlib.Text.{◌==◌ as str_eq}
use llmmaxxing.Base.{
  ℕ, Bool, true, false, not, ◌&&◌, ◌||◌, Option, none, some, min, leb, if◌then◌else◌, is_some,
  or_default, Result, raised, ok, raise_if, ◌>>=◌, ◌>>◌, value_error, List, [], ◌∷◌, any, all, null,
}
use llmmaxxing.Core.Ids.{AccountId}
use llmmaxxing.Core.Reasons.{QuotaDimensionStatus}
use llmmaxxing.Core.StateMachines.{AccountState}

pub record QuotaDimension : Type 0 where
  pub status : QuotaDimensionStatus
  pub value : Option ℕ

abbrev pub is_known : QuotaDimension → Bool
is_known d = elim d.status [ QuotaDimensionStatus.known ↦ true | _ ↦ false ]

abbrev pub is_unknown : QuotaDimension → Bool
is_unknown d = elim d.status [ QuotaDimensionStatus.unknown ↦ true | _ ↦ false ]

abbrev pub is_attested_absent : QuotaDimension → Bool
is_attested_absent d = elim d.status [ QuotaDimensionStatus.attested_absent ↦ true | _ ↦ false ]

-- `_value_matches_status`
unfoldable pub value_matches_status : QuotaDimension → Result QuotaDimension
value_matches_status d = do
  raise_if (is_known d && not (is_some d.value)) value_error
  raise_if (not (is_known d) && is_some d.value) value_error
  ok d

pub record ProviderAccount : Type 0 where
  pub account_id : AccountId
  pub connection : String
  pub provider_token : String
  pub binding_ref : String
  pub credential_fingerprint : Option String
  pub credential_epoch : Option ℕ
  pub parallel_limit : QuotaDimension
  pub local_parallel_ceiling : ℕ
  pub rpm_limit : QuotaDimension
  pub rpm_window_seconds : ℕ
  pub tpm_limit : QuotaDimension
  pub tpm_window_seconds : ℕ
  pub monthly_quota_units : QuotaDimension
  pub quota_units_per_attempt : ℕ
  pub monthly_reset_at_ms : Option ℕ
  pub state : Option AccountState

unfoldable pub fully_attested : ProviderAccount → Bool
fully_attested a =
    is_known a.parallel_limit
    && all (λ d. not (is_unknown d)) (a.rpm_limit ∷ a.tpm_limit ∷ a.monthly_quota_units ∷ [])

-- `fully_attested` and the validator of the dimension make the value of `parallel_limit` present
-- where it is read; the default stands for the failed `assert`.
unfoldable pub enforced_max_in_flight : ProviderAccount → ℕ
enforced_max_in_flight a =
    if fully_attested a
    then min (or_default 0 a.parallel_limit.value) a.local_parallel_ceiling
    else 1

-- `bool(text)`
abbrev pub truthy : String → Bool
truthy text = not (str_eq text "")

abbrev pub binding : ProviderAccount → List String
binding a = a.connection ∷ a.provider_token ∷ a.binding_ref ∷ []

unfoldable pub is_bound : ProviderAccount → Bool
is_bound a = all truthy (binding a)

unfoldable pub has_credential : ProviderAccount → Bool
has_credential a = is_some a.credential_fingerprint && is_some a.credential_epoch

abbrev pub state_is_draft : Option AccountState → Bool
state_is_draft (some AccountState.draft) = true
state_is_draft _ = false

abbrev pub state_is_active : Option AccountState → Bool
state_is_active (some AccountState.active) = true
state_is_active _ = false

abbrev pub state_is_durable : Option AccountState → Bool
state_is_durable (some AccountState.disabled) = true
state_is_durable (some AccountState.tombstoned) = true
state_is_durable _ = false

-- The last step of the validator: a missing state is derived.
abbrev pub derived_state : ProviderAccount → AccountState
derived_state a = if is_bound a && has_credential a then AccountState.active else AccountState.draft

abbrev pub with_state : ProviderAccount → ProviderAccount
with_state a = record a { state = some (or_default (derived_state a) a.state) }

-- The part of the validator for an account whose dimensions are all attested.
unfoldable pub guard_attested : ProviderAccount → Result ProviderAccount
guard_attested a = do
  raise_if (state_is_active a.state && not (has_credential a)) value_error
  raise_if (state_is_active a.state && not (is_bound a)) value_error
  raise_if (state_is_durable a.state && not (has_credential a)) value_error
  raise_if (state_is_durable a.state && not (is_bound a)) value_error
  ok (with_state a)

unfoldable pub guard_unattested : ProviderAccount → Result ProviderAccount
guard_unattested a = do
  raise_if (is_some a.state && not (state_is_draft a.state)) value_error
  ok (record a { state = some AccountState.draft })

-- `_derive_and_guard_state`
unfoldable pub derive_and_guard_state : ProviderAccount → Result ProviderAccount
derive_and_guard_state a = do
  raise_if (is_attested_absent a.parallel_limit) value_error
  raise_if (is_known a.monthly_quota_units && not (is_some a.monthly_reset_at_ms)) value_error
  raise_if (not (is_known a.monthly_quota_units) && is_some a.monthly_reset_at_ms) value_error
  raise_if (any truthy (binding a) && not (all truthy (binding a))) value_error
  raise_if
      ((is_some a.credential_fingerprint || is_some a.credential_epoch)
        && not (is_some a.credential_fingerprint && is_some a.credential_epoch))
      value_error
  (if fully_attested a then guard_attested a else guard_unattested a)
