-- ===== src/Gateway/Routing/Classifier.antt =====
-- src/llmmaxxing/gateway/routing.py: `FailureObservation`, `FailureRule` and `FailureClassifier`. The
-- SHA-256 of an observation's canonical text is a parameter.
pub mod Evidence
use Prim.Native.String.{String, count}
use text.Mathlib.Text.{find?}
use llmmaxxing.Base.{
  ℕ, suc, ◌+◌, ◌-◌, ◌*◌, ◌/◌, ◌%◌, ◌≤◌, ◌<◌, min, max, ◌≡◌, refl, sym, ap, ◌∙◌, subst, ◌≢◌, ◌↔◌,
  ◌⊎◌, inl, inr, Bool, true, false, not, ◌&&◌, ◌||◌, Option, none, some, List, [], ◌∷◌, ◌++◌, map,
  arith, ltb, leb, ◌==◌, if◌then◌else◌, Result, raised, ok, ◌>>=◌, ◌>>◌, raise_if, or_raise,
  value_error, same, contains, unique, keep, find, any, all, null, length, Has, nat_eq, list_eq,
  option_eq, bool_eq, string_eq, Bool-cases, both_true, both_false, negated_true, negated_false,
  if_true, if_false, is_some, or_default, Option-cases, All,
}
use llmmaxxing.Core.Ids.{Digest}
use llmmaxxing.Core.Reasons.{FailureCause, FailureScope, DispatchCause}
use llmmaxxing.Core.Models.Accounts.{truthy}

pub record FailureObservation : Type 0 where
  pub status_code : ℕ
  pub error_code : Option String
  pub message : String
  pub pre_response_bytes : Bool

pub record FailureRule : Type 0 where
  pub cause : FailureCause
  pub scope : FailureScope
  pub status_codes : List ℕ
  pub error_codes : List String
  pub message_contains : List String

abbrev pub cause_unknown : FailureCause → Bool
cause_unknown cause = elim cause [ FailureCause.unknown ↦ true | _ ↦ false ]

abbrev pub scope_unknown : FailureScope → Bool
scope_unknown scope = elim scope [ FailureScope.unknown ↦ true | _ ↦ false ]

-- `FailureRule.__post_init__`
unfoldable pub failure_rule : FailureRule → Result FailureRule
failure_rule r = do
  raise_if (cause_unknown r.cause || scope_unknown r.scope) value_error
  raise_if (null r.status_codes || any (λ status. ltb status 100 || ltb 599 status) r.status_codes)
      value_error
  raise_if (any (λ value. not (truthy value) || ltb 160 (count value)) r.error_codes) value_error
  raise_if (any (λ value. not (truthy value) || ltb 1024 (count value)) r.message_contains)
      value_error
  ok r

-- `observation.error_code in self.error_codes`
abbrev pub listed_code : Option String → List String → Bool
listed_code none codes = false
listed_code (some code) codes = contains code codes

-- `FailureRule.matches`
unfoldable pub matches : FailureObservation → FailureRule → Bool
matches o r =
    if not (contains o.status_code r.status_codes)
    then false
    else if not (null r.error_codes) && not (listed_code o.error_code r.error_codes)
    then false
    else all (λ fragment. is_some (find? o.message fragment)) r.message_contains

pub record FailureClassification : Type 0 where
  pub cause : FailureCause
  pub scope : FailureScope
  pub evidence_digest : Digest
  pub pre_response_bytes : Bool

-- `FailureClassification.__post_init__`: that the digest's text is well formed is part of its type.
unfoldable pub failure_classification : FailureClassification → Result FailureClassification
failure_classification c = do
  raise_if (not (same (cause_unknown c.cause) (scope_unknown c.scope))) value_error
  ok c

-- `_FAILURE_DISPATCH`
abbrev pub failure_dispatch : FailureCause → Option DispatchCause
failure_dispatch FailureCause.capacity = some DispatchCause.capacity
failure_dispatch FailureCause.transient_failure = some DispatchCause.failure
failure_dispatch FailureCause.quota = some DispatchCause.quota
failure_dispatch FailureCause.unknown = none

unfoldable pub dispatch_cause : FailureClassification → Option DispatchCause
dispatch_cause c = if not c.pre_response_bytes then none else failure_dispatch c.cause

-- The cause and the scope of the only match.
abbrev pub verdict : List FailureRule → FailureCause × FailureScope
verdict (r ∷ []) = (r.cause, r.scope)
verdict _ = (FailureCause.unknown, FailureScope.unknown)

-- `FailureClassifier.__init__`
unfoldable pub failure_classifier : List FailureRule → Result (List FailureRule)
failure_classifier rules = do raise_if (null rules) value_error; ok rules

unfoldable pub classify :
    (FailureObservation → Digest)
    → List FailureRule
    → FailureObservation
    → Result FailureClassification
classify digest rules o =
    let found = verdict (keep (matches o) rules) in
    failure_classification (record {
      cause = found.0;
      scope = found.1;
      evidence_digest = digest o;
      pre_response_bytes = o.pre_response_bytes;
    })
