-- ===== src/Gateway/Routing/Classifier/Evidence.antt =====
-- What a classification says of the rules, and when it lets a request fall back to another leg.
use llmmaxxing.Base.{
  ◌≡◌, refl, sym, ap, ◌∙◌, subst, inl, inr, Bool, true, false, not, ◌||◌, Option, none, some, List,
  [], ◌∷◌, ok, value_error, same, keep, nat_eq, list_eq, option_eq, bool_eq, string_eq, Bool-cases,
  both_false, negated_true, All, unless-eq-some, guard-eq-ok,
}
use llmmaxxing.Core.Ids.{Digest}
use llmmaxxing.Core.Reasons.{DispatchCause}
use llmmaxxing.Gateway.Routing.Classifier.{
  FailureObservation, FailureRule, failure_rule, matches, FailureClassification,
  failure_classification, dispatch_cause, failure_dispatch, verdict, classify, cause_unknown,
  scope_unknown,
}

abbrev pub IsRule : FailureRule → Type 0
IsRule r = failure_rule r ≡ ok r

-- Exactly one of the rules matches the observation, and it is this one.
abbrev pub OnlyMatch : FailureObservation → List FailureRule → FailureRule → Type 0
OnlyMatch o rules r = keep (matches o) rules ≡ r ∷ []

rule_known : (r : FailureRule) → IsRule r → (cause_unknown r.cause || scope_unknown r.scope) ≡ false
unfolding failure_rule
rule_known r h = (guard-eq-ok (cause_unknown r.cause || scope_unknown r.scope) value_error _ h).0

verdict-agrees :
    (rs : List FailureRule)
    → All IsRule rs
    → same (cause_unknown (verdict rs).0) (scope_unknown (verdict rs).1) ≡ true
verdict-agrees [] h = refl
verdict-agrees (r ∷ []) h =
    let (c, s) = both_false (cause_unknown r.cause) (scope_unknown r.scope) (rule_known r h.0) in
    rw (c, s)
verdict-agrees (r ∷ s ∷ rs) h = refl

All-keep : (p : FailureRule → Bool) (rs : List FailureRule) → All IsRule rs → All IsRule (keep p rs)
All-keep p [] h = tt
All-keep p (r ∷ rs) h = elim (Bool-cases (p r)) [
  | inl hit ↦ rw hit (h.0, All-keep p rs h.1)
  | inr miss ↦ rw miss (All-keep p rs h.1)
]

verdict-known :
    (rs : List FailureRule) {d : DispatchCause}
    → failure_dispatch (verdict rs).0 ≡ some d
    → (r : FailureRule) × (rs ≡ r ∷ []) × (failure_dispatch r.cause ≡ some d)
verdict-known [] h = cc
verdict-known (r ∷ []) h = (r, refl, h)
verdict-known (r ∷ s ∷ rs) h = cc

-- What stands behind a cause to fall back with.
abbrev pub Explained :
    List FailureRule → FailureObservation → FailureClassification → Option DispatchCause → Type 0
Explained rules o c none = Unit
Explained rules o c (some d) =
    (o.pre_response_bytes ≡ true)
    × ((r : FailureRule) × OnlyMatch o rules r
        × (c.cause ≡ r.cause)
        × (c.scope ≡ r.scope)
        × (failure_dispatch r.cause ≡ some d))

explain :
    (rules : List FailureRule) (o : FailureObservation) (c : FailureClassification)
    (d : Option DispatchCause)
    → c.pre_response_bytes ≡ o.pre_response_bytes
    → (c.cause, c.scope) ≡ verdict (keep (matches o) rules)
    → dispatch_cause c ≡ d
    → Explained rules o c d
unfolding dispatch_cause
explain rules o c none p v h = tt
explain rules o c (some d) p v h =
    let (early, known) = unless-eq-some (not c.pre_response_bytes) _ h in
    let (r, only, named) =
      verdict-known (keep (matches o) rules)
        (subst (λ x. failure_dispatch x ≡ some d) (ap (λ x. x.0) v) known) in
    (
      sym p ∙ negated_true _ early,
      (
        r,
        only,
        ap (λ x. x.0) v ∙ ap (λ rs. (verdict rs).0) only,
        ap (λ x. x.1) v ∙ ap (λ rs. (verdict rs).1) only,
        named,
      ),
    )

-- Over rules that pass their validator, every observation is classified; and where the
-- classification names a cause to fall back with, no byte of the response was sent and exactly one
-- rule matches, whose cause and scope it takes and whose cause leads to that cause.
pub classify-Explained :
    (digest : FailureObservation → Digest) (rules : List FailureRule) (o : FailureObservation)
    → All IsRule rules
    → (c : FailureClassification) × (classify digest rules o ≡ ok c)
      × Explained rules o c (dispatch_cause c)
unfolding classify failure_classification
classify-Explained digest rules o h =
    let found = verdict (keep (matches o) rules) in
    let c : FailureClassification = record {
      cause = found.0;
      scope = found.1;
      evidence_digest = digest o;
      pre_response_bytes = o.pre_response_bytes;
    } in
    (
      c,
      rw (verdict-agrees (keep (matches o) rules) (All-keep (matches o) rules h)) refl,
      explain rules o c (dispatch_cause c) refl refl refl,
    )
