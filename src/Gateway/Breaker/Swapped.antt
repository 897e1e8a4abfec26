-- ===== src/Gateway/Breaker/Swapped.antt =====
-- What a compare-and-swap that answers `true` has done to the circuit of its scope.
use llmmaxxing.Base.{
  ◌≡◌, refl, sym, ap, ◌∙◌, ◌⊎◌, inl, inr, Bool, true, false, not, Option, none, some, ltb, Result,
  raised, ok, value_error, same, nat_eq, list_eq, option_eq, bool_eq, string_eq, Bool-cases,
  if_true, if_false, or_default, guard-eq-ok, same→eq, ok-injective,
}
use llmmaxxing.Base.Dict.{lookup-put_self}
use llmmaxxing.Core.Ids.{DeploymentGenerationId}
use llmmaxxing.Core.Reasons.{FailureScope}
use llmmaxxing.Gateway.Runtime.Circuits.{
  CircuitValue, CircuitScope, circuit_eq, closed_at, state_fields_match, bad_closed, bad_opened,
  bad_half_open,
}
use llmmaxxing.Gateway.Runtime.Requests.{Journal}
use llmmaxxing.Gateway.Runtime.State.{AccountRuntime, circuit_value}
use llmmaxxing.Gateway.Runtime.Recovery.{
  swap, settle_swap, with_circuit, compare_and_swap_circuit, compare_and_swap_account_circuit,
}
use llmmaxxing.Gateway.Breaker.{scoped, is_account, swap_scoped, swap_made, on_swap}

settle_swap-true :
    (answer checkpoint : Result (Unit {0})) (swapped rt rt' : AccountRuntime)
    → settle_swap answer checkpoint swapped rt ≡ (rt', ok true)
    → rt' ≡ swapped
unfolding settle_swap
settle_swap-true (raised e) checkpoint swapped rt rt' h = cc
settle_swap-true (ok u) checkpoint swapped rt rt' h = sym (ap (λ x. x.0) h)

module _ (journal : Journal) (scope : CircuitScope) (generation : Option DeploymentGenerationId)
    (current expected replacement : CircuitValue) (swapped rt rt' : AccountRuntime) where
  swap-true :
      swap journal scope generation current expected replacement swapped rt ≡ (rt', ok true)
      → (current ≡ expected) × ((rt' ≡ swapped) ⊎ ((rt' ≡ rt) × (replacement ≡ expected)))
  unfolding swap
  swap-true h = elim (Bool-cases (same current expected)) [
    | inr other ↦ absurd (differ (sym (if_true _ _ _ (ap not other)) ∙ h))
    | inl equal ↦ elim (Bool-cases (ltb replacement.epoch expected.epoch)) [
      | inl sinks ↦ absurd (fails (sym (if_false _ _ _ (ap not equal) ∙ if_true _ _ _ sinks) ∙ h))
      | inr rises ↦ elim (Bool-cases (same replacement expected)) [
        | inl again ↦ (
          same→eq current expected equal,
          inr (
            sym (
                ap (λ x. x.0)
                  (sym (if_false _ _ _ (ap not equal) ∙ if_false _ _ _ rises ∙ if_true _ _ _ again)
                    ∙ h)),
            same→eq replacement expected again,
          ),
        )
        | inr new ↦ (
          same→eq current expected equal,
          inl (
              settle_swap-true
                (journal.update_circuit rt.account.account_id scope generation replacement)
                journal.checkpoint swapped rt rt'
                (sym (if_false _ _ _ (ap not equal) ∙ if_false _ _ _ rises ∙ if_false _ _ _ new)
                  ∙ h)),
        )
      ]
    ]
  ]
    where
      differ : ◌≡◌ {A = AccountRuntime × Result Bool} (rt, ok false) (rt', ok true) → ⊥
      differ k = cc

      fails : ◌≡◌ {A = AccountRuntime × Result Bool} (rt, raised value_error) (rt', ok true) → ⊥
      fails k = cc

module _ (journal : Journal) (scope : FailureScope) (generation : DeploymentGenerationId)
    (expected replacement : CircuitValue) (rt rt' : AccountRuntime) where
  -- The circuit was what was expected, and is what was proposed.
  pub swap_scoped-true :
      swap_scoped journal scope generation expected replacement rt ≡ (rt', ok true)
      → (scoped scope generation rt ≡ expected) × (scoped scope generation rt' ≡ replacement)
  unfolding swap_scoped compare_and_swap_circuit compare_and_swap_account_circuit
  swap_scoped-true h = elim (Bool-cases (is_account scope)) [
    | inl a ↦
        let (found, written) =
          swap-true journal CircuitScope.account none rt.account_circuit expected replacement _ rt
            rt' (sym (if_true _ _ _ a) ∙ h) in
        (
          if_true _ _ _ a ∙ found,
          if_true _ _ _ a ∙ elim written [
            | inl w ↦ ap (λ x. x.account_circuit) w
            | inr (kept, again) ↦ ap (λ x. x.account_circuit) kept ∙ found ∙ sym again
          ],
        )
    | inr d ↦
        let (found, written) =
          swap-true journal CircuitScope.deployment (some generation) (circuit_value generation rt)
            expected replacement (with_circuit generation expected replacement rt) rt rt'
            (sym (if_false _ _ _ d) ∙ h) in
        (
          if_false _ _ _ d ∙ found,
          if_false _ _ _ d ∙ elim written [
            | inl w ↦
                ap (circuit_value generation) w
                ∙ ap (or_default (closed_at 0)) (lookup-put_self generation replacement rt.circuits)
            | inr (kept, again) ↦ ap (circuit_value generation) kept ∙ found ∙ sym again
          ],
        )
  ]

-- A swap of a made replacement that answers with a value: the replacement was made, and swapped.
pub swap_made-some :
    {A : Type 0} (journal : Journal) (scope : FailureScope) (generation : DeploymentGenerationId)
    (expected : CircuitValue) (answer : CircuitValue → A) (rt rt' : AccountRuntime)
    (made : Result CircuitValue) {a : A}
    → swap_made journal scope generation expected answer rt made ≡ (rt', ok (some a))
    → (v : CircuitValue) × (made ≡ ok v)
      × (a ≡ answer v)
      × (scoped scope generation rt ≡ expected)
      × (scoped scope generation rt' ≡ v)
swap_made-some journal scope generation expected answer rt rt' (raised e) h = cc
swap_made-some journal scope generation expected answer rt rt' (ok v) {a} h =
    let (e, done) = answered (swap_scoped journal scope generation expected v rt) h in
    let (found, written) = swap_scoped-true journal scope generation expected v rt rt' done in
    (v, refl, e, found, written)
  where
    answered :
        (p : AccountRuntime × Result Bool)
        → on_swap (answer v) p ≡ (rt', ok (some a))
        → (a ≡ answer v) × (p ≡ (rt', ok true))
    answered (x, raised e) k = cc
    answered (x, ok true) k = (cc, ap (λ y. (y, ok true)) (ap (λ y. y.0) k))
    answered (x, ok false) k = cc

-- The validator of a circuit returns the value that it is given.
pub state_fields_match-same :
    (v : CircuitValue) {r : CircuitValue} → state_fields_match v ≡ ok r → v ≡ r
unfolding state_fields_match
state_fields_match-same v h =
    let (_, h1) = guard-eq-ok (bad_closed v) value_error _ h in
    let (_, h2) = guard-eq-ok (bad_opened v) value_error _ h1 in
    let (_, h3) = guard-eq-ok (bad_half_open v) value_error _ h2 in ok-injective h3
