-- ===== src/Core/Models/Keys.antt =====
-- src/llmmaxxing/core/models.py: credential verifiers and client key records.
pub mod Accepted
use Prim.Native.String.{String}
use llmmaxxing.Base.{
  ℕ, ◌-◌, ◌*◌, Bool, true, false, not, ◌&&◌, ◌||◌, List, [], ◌∷◌, ◌++◌, map, length, any, keep,
  null, unique, max, ltb, leb, ◌==◌, if◌then◌else◌, same, list_eq, nat_eq, sort_by, Result, raised,
  ok, raise_if, ◌>>=◌, ◌>>◌, value_error,
}
use llmmaxxing.Core.Ids.{KeyId, PolicyRevisionId}
use llmmaxxing.Core.StateMachines.{KeyLifecycleState, CredentialVerifierStatus}

-- `ClientCredentialVerifier` and `LegacyClientCredentialVerifier` differ in the name of the field
-- with the digest; here it is `fingerprint`.
pub record Verifier : Type 0 where
  pub generation : ℕ
  pub fingerprint : String
  pub pepper_version : String
  pub not_before_s : ℕ
  pub not_after_s : ℕ
  pub status : CredentialVerifierStatus

-- `_valid_window`
unfoldable pub valid_window : Verifier → Result Verifier
valid_window v = do raise_if (ltb v.not_after_s v.not_before_s) value_error; ok v

pub record ClientKeyRecord : Type 0 where
  pub key_id : KeyId
  pub policy_id : PolicyRevisionId
  pub state : KeyLifecycleState
  pub issued_at_s : ℕ
  pub expires_at_s : ℕ
  pub time_high_water_s : ℕ
  pub generation_high_water : ℕ
  pub credential_verifiers : List Verifier
  pub legacy_verifiers : List Verifier

abbrev pub generations : List Verifier → List ℕ
generations verifiers = map (λ v. v.generation) verifiers

abbrev pub verifiers_of : ClientKeyRecord → List Verifier
verifiers_of k = k.credential_verifiers ++ k.legacy_verifiers

abbrev pub is_increasing : List ℕ → Bool
is_increasing xs = same xs (sort_by ltb xs)

-- `max(generations)`
abbrev pub greatest_from : ℕ → List ℕ → ℕ
greatest_from m [] = m
greatest_from m (x ∷ xs) = greatest_from (max m x) xs

abbrev pub greatest : List ℕ → Result ℕ
greatest [] = raised value_error
greatest (x ∷ xs) = ok (greatest_from x xs)

abbrev pub is_active_verifier : Verifier → Bool
is_active_verifier v = elim v.status [ CredentialVerifierStatus.active ↦ true | _ ↦ false ]

abbrev pub is_accepted_verifier : Verifier → Bool
is_accepted_verifier v = elim v.status [
  | CredentialVerifierStatus.active ↦ true
  | CredentialVerifierStatus.retiring ↦ true
  | _ ↦ false
]

abbrev pub is_revoked : KeyLifecycleState → Bool
is_revoked state = elim state [ KeyLifecycleState.revoked ↦ true | _ ↦ false ]

abbrev pub is_enabled : KeyLifecycleState → Bool
is_enabled state = elim state [ KeyLifecycleState.enabled ↦ true | _ ↦ false ]

abbrev pub is_terminal_key : ClientKeyRecord → Bool
is_terminal_key k = is_revoked k.state || leb k.expires_at_s k.time_high_water_s

-- `len(active) != 1 or active[0].generation != generation_high_water`
abbrev pub lacks_one_active : ℕ → List Verifier → Bool
lacks_one_active high_water (v ∷ []) = not (v.generation == high_water)
lacks_one_active high_water _ = true

-- The last part of the validator: what is accepted fits the state.
unfoldable pub check_accepted : ClientKeyRecord → Result ClientKeyRecord
check_accepted k =
    let accepted = keep is_accepted_verifier (verifiers_of k) in
    let active = keep is_active_verifier (verifiers_of k) in
    if ltb 2 (length accepted)
    then raised value_error
    else if is_terminal_key k
    then (if not (null accepted) then raised value_error else ok k)
    else if lacks_one_active k.generation_high_water active
    then raised value_error
    else ok k

abbrev pub out_of_lifetime : ClientKeyRecord → Verifier → Bool
out_of_lifetime k v = ltb v.not_before_s k.issued_at_s || ltb k.expires_at_s v.not_after_s

-- `_valid_lifetime_and_generations`
unfoldable pub valid_lifetime_and_generations : ClientKeyRecord → Result ClientKeyRecord
valid_lifetime_and_generations k = do
  raise_if (leb k.expires_at_s k.issued_at_s) value_error
  raise_if (ltb (365 * 86400) (k.expires_at_s - k.issued_at_s)) value_error
  raise_if (ltb k.time_high_water_s k.issued_at_s) value_error
  raise_if (not (is_increasing (generations k.credential_verifiers))) value_error
  raise_if (not (is_increasing (generations k.legacy_verifiers))) value_error
  raise_if (null (verifiers_of k)) value_error
  raise_if (ltb 2 (length (verifiers_of k)) || not (unique (generations (verifiers_of k))))
      value_error
  newest ← greatest (generations (verifiers_of k))
  raise_if (not (newest == k.generation_high_water)) value_error
  raise_if (any (out_of_lifetime k) (verifiers_of k)) value_error
  check_accepted k
