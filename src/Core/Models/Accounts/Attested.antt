-- ===== src/Core/Models/Accounts/Attested.antt =====
-- src/llmmaxxing/core/models.py, `ProviderAccount`: what the validator makes sure of.
use llmmaxxing.Base.{
  both_true, bools_differ, ◌≡◌, refl, sym, subst, ◌∙◌, Bool, true, false, not, ◌&&◌, ◌||◌, Option,
  none, some, Bool-cases, inl, inr, is_some, any, all, ok, value_error, guard-eq-ok, ok-injective,
  if◌then◌else◌, or_default,
}
use llmmaxxing.Core.StateMachines.{AccountState}
use llmmaxxing.Core.Models.Accounts.{
  ProviderAccount, is_known, is_attested_absent, fully_attested, is_bound, has_credential,
  state_is_draft, state_is_active, state_is_durable, guard_attested, guard_unattested,
  derive_and_guard_state, binding, truthy,
}

-- What an account must be to be sent to.
pub record IsServable (a : ProviderAccount) : Type 0 where
  pub attested : fully_attested a ≡ true
  pub bound : is_bound a ≡ true
  pub credential : has_credential a ≡ true

active_guard : (b c : Bool) → (b && not c) ≡ false → b ≡ true → c ≡ true
active_guard true true h k = refl
active_guard true false h k = cc
active_guard false c h k = cc

-- Where a state was missing and ACTIVE was derived, the derivation's test held.
derived-active :
    (test : Bool)
    → state_is_active (some (if test then AccountState.active else AccountState.draft)) ≡ true
    → test ≡ true
derived-active true h = refl
derived-active false h = cc

given-active :
    (bound credential : Bool) (state : Option AccountState)
    → (state_is_active state && not credential) ≡ false
    → (state_is_active state && not bound) ≡ false
    → state_is_active (
        some (
          or_default
            (if bound && credential then AccountState.active else AccountState.draft)
            state))
      ≡ true
    → (bound ≡ true) × (credential ≡ true)
given-active bound credential none h k active = both_true bound credential (derived-active _ active)
given-active bound credential (some s) h k active = (
  active_guard (state_is_active (some s)) bound k active,
  active_guard (state_is_active (some s)) credential h active,
)

guard_attested-IsServable :
    (a b : ProviderAccount)
    → fully_attested a ≡ true
    → guard_attested a ≡ ok b
    → state_is_active b.state ≡ true
    → IsServable b
unfolding guard_attested fully_attested is_bound has_credential
guard_attested-IsServable a b attested h active =
    let (g₁, h₁) =
      guard-eq-ok (state_is_active a.state && not (has_credential a)) value_error _ h in
    let (g₂, h₂) = guard-eq-ok (state_is_active a.state && not (is_bound a)) value_error _ h₁ in
    let (_, h₃) =
      guard-eq-ok (state_is_durable a.state && not (has_credential a)) value_error _ h₂ in
    let (_, h₄) = guard-eq-ok (state_is_durable a.state && not (is_bound a)) value_error _ h₃ in
    let e = ok-injective h₄ in
    let (bound, credential) =
      given-active (is_bound a) (has_credential a) a.state g₁ g₂
        (subst (λ x. state_is_active x.state ≡ true) (sym e) active) in
    subst IsServable e (record { attested = attested; bound = bound; credential = credential })

guard_unattested-inactive :
    (a b : ProviderAccount) → guard_unattested a ≡ ok b → state_is_active b.state ≡ false
unfolding guard_unattested
guard_unattested-inactive a b h =
    let (_, h₁) = guard-eq-ok (is_some a.state && not (state_is_draft a.state)) value_error _ h in
    subst (λ x. state_is_active x.state ≡ false) (ok-injective h₁) refl

-- An account that the validator lets be ACTIVE has every quota dimension attested, a complete
-- binding and a complete credential attestation, whether the state was given or derived.
pub derive_and_guard_state-IsServable :
    (a b : ProviderAccount)
    → derive_and_guard_state a ≡ ok b
    → state_is_active b.state ≡ true
    → IsServable b
unfolding derive_and_guard_state
derive_and_guard_state-IsServable a b h active =
    let (_, h₁) = guard-eq-ok (is_attested_absent a.parallel_limit) value_error _ h in
    let (_, h₂) =
      guard-eq-ok (is_known a.monthly_quota_units && not (is_some a.monthly_reset_at_ms))
        value_error _ h₁ in
    let (_, h₃) =
      guard-eq-ok (not (is_known a.monthly_quota_units) && is_some a.monthly_reset_at_ms)
        value_error _ h₂ in
    let (_, h₄) =
      guard-eq-ok (any truthy (binding a) && not (all truthy (binding a))) value_error _ h₃ in
    let (_, h₅) =
      guard-eq-ok
        ((is_some a.credential_fingerprint || is_some a.credential_epoch)
          && not (is_some a.credential_fingerprint && is_some a.credential_epoch))
        value_error _ h₄ in
    elim (Bool-cases (fully_attested a)) [
      | inl attested ↦ guard_attested-IsServable a b attested (rw attested at h₅) active
      | inr unattested ↦
          absurd (bools_differ (sym active ∙ guard_unattested-inactive a b (rw unattested at h₅)))
    ]
