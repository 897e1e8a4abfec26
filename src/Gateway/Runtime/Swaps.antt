-- ===== src/Gateway/Runtime/Swaps.antt =====
-- src/llmmaxxing/gateway/runtime_state.py: the circuits' compare-and-swap.
use llmmaxxing.Base.{
  ◌≤◌, ◌≡◌, refl, sym, subst, ◌⊎◌, inl, inr, Option, some, arith, Bool-cases, Result, raised, ok,
  same, same→eq, ltb, ltb-false, nat_eq, or_default, ==_iff, ◌==◌, List, none, ◌∷◌, [], ◌∷◌,
}
use llmmaxxing.Base.Dict.{lookup-put_hit, lookup-put_other}
use llmmaxxing.Core.Ids.{DeploymentGenerationId}
use llmmaxxing.Gateway.Runtime.Circuits.{CircuitValue, CircuitScope, closed_at, circuit_eq}
use llmmaxxing.Gateway.Runtime.Requests.{Journal}
use llmmaxxing.Gateway.Runtime.State.{AccountRuntime, circuit_value}
use llmmaxxing.Gateway.Runtime.Recovery.{
  swap, settle_swap, with_circuit, compare_and_swap_circuit, compare_and_swap_account_circuit,
  with_account_circuit,
}

-- Either nothing is written, or the value that was expected stood there and its epoch does not
-- sink.
abbrev pub Swapped :
    CircuitValue
    → CircuitValue
    → CircuitValue
    → AccountRuntime
    → AccountRuntime
    → AccountRuntime
    → Type 0
Swapped current expected replacement swapped rt rt' =
    (rt' ≡ rt) ⊎ ((current ≡ expected) × (expected.epoch ≤ replacement.epoch) × (rt' ≡ swapped))

settle_swap_cases :
    (answer checkpoint : Result (Unit {0})) (swapped rt : AccountRuntime)
    → ((settle_swap answer checkpoint swapped rt).0 ≡ rt)
      ⊎ ((settle_swap answer checkpoint swapped rt).0 ≡ swapped)
unfolding settle_swap
settle_swap_cases (raised e) checkpoint swapped rt = inl refl
settle_swap_cases (ok u) checkpoint swapped rt = inr refl

pub swap_cases :
    (journal : Journal) (scope : CircuitScope) (generation : Option DeploymentGenerationId)
    (current expected replacement : CircuitValue) (swapped rt : AccountRuntime)
    → Swapped current expected replacement swapped rt
        (swap journal scope generation current expected replacement swapped rt).0
unfolding swap
swap_cases journal scope generation current expected replacement swapped rt =
    elim (Bool-cases (same current expected)) [
      | inr other ↦ inl (rw other refl)
      | inl equal ↦ elim (Bool-cases (ltb replacement.epoch expected.epoch)) [
        | inl sinks ↦ inl (rw (equal, sinks) refl)
        | inr rises ↦ elim (Bool-cases (same replacement expected)) [
          | inl again ↦ inl (rw (equal, rises, again) refl)
          | inr new ↦
              elim (settle_swap_cases
                (journal.update_circuit rt.account.account_id scope generation replacement)
                journal.checkpoint swapped rt) [
                  | inl kept ↦ inl (rw (equal, rises, new) kept)
                  | inr written ↦ inr (
                    same→eq current expected equal,
                    ltb-false _ _ rises,
                    rw (equal, rises, new) written,
                  )
                ]
        ]
      ]
    ]

with_circuit-epoch_le :
    (generation other : DeploymentGenerationId) (expected replacement : CircuitValue)
    (rt : AccountRuntime)
    → circuit_value generation rt ≡ expected
    → expected.epoch ≤ replacement.epoch
    → (circuit_value other rt).epoch
      ≤ (circuit_value other (with_circuit generation expected replacement rt)).epoch
with_circuit-epoch_le generation other expected replacement rt found rises =
    elim (Bool-cases (generation == other)) [
      | inr away ↦
          subst (λ o. (circuit_value other rt).epoch ≤ (or_default (closed_at 0) o).epoch)
            (sym (lookup-put_other generation other replacement rt.circuits away)) (omega arith)
      | inl here ↦
          subst (λ o. (circuit_value other rt).epoch ≤ (or_default (closed_at 0) o).epoch)
            (sym (lookup-put_hit generation other replacement rt.circuits here))
            (subst (λ g. (circuit_value g rt).epoch ≤ replacement.epoch)
              ((==_iff generation other).0 here)
              (subst (λ v. v.epoch ≤ replacement.epoch) (sym found) rises))
    ]

-- No circuit's epoch is lower.
pub record Rises (rt rt' : AccountRuntime) : Type 0 where
  pub account : rt.account_circuit.epoch ≤ rt'.account_circuit.epoch
  pub deployments :
      (generation : DeploymentGenerationId)
      → (circuit_value generation rt).epoch ≤ (circuit_value generation rt').epoch

self-Rises : (rt : AccountRuntime) → Rises rt rt
self-Rises rt = record { account = omega arith; deployments = λ generation. omega arith }

Rises-trans : {a b c : AccountRuntime} → Rises a b → Rises b c → Rises a c
Rises-trans p q = record {
  account = omega (arith, p.account, q.account);
  deployments = λ generation. omega (arith, p.deployments generation, q.deployments generation);
}

-- A call of one of the two compare-and-swaps: what is expected, and what takes its place.
pub data Swap : Type 0 where
  at_deployment : DeploymentGenerationId → CircuitValue → CircuitValue → Swap
  at_account : CircuitValue → CircuitValue → Swap

abbrev swapped_by : Journal → Swap → AccountRuntime → AccountRuntime
swapped_by journal (at_deployment generation expected replacement) rt =
    (compare_and_swap_circuit journal generation expected replacement rt).0
swapped_by journal (at_account expected replacement) rt =
    (compare_and_swap_account_circuit journal expected replacement rt).0

abbrev pub after_swaps : Journal → List Swap → AccountRuntime → AccountRuntime
after_swaps journal [] rt = rt
after_swaps journal (s ∷ swaps) rt = after_swaps journal swaps (swapped_by journal s rt)

swapped_by-Rises :
    (journal : Journal) (s : Swap) (rt : AccountRuntime) → Rises rt (swapped_by journal s rt)
unfolding compare_and_swap_circuit compare_and_swap_account_circuit
swapped_by-Rises journal (at_deployment generation expected replacement) rt =
    elim (swap_cases journal CircuitScope.deployment (some generation) (circuit_value generation rt)
      expected replacement (with_circuit generation expected replacement rt) rt) [
        | inl kept ↦ subst (Rises rt) (sym kept) (self-Rises rt)
        | inr (found, rises, written) ↦ subst (Rises rt) (sym written) (record {
          account = omega arith;
          deployments =
              λ other. with_circuit-epoch_le generation other expected replacement rt found rises;
        })
      ]
swapped_by-Rises journal (at_account expected replacement) rt =
    elim (swap_cases journal CircuitScope.account none rt.account_circuit expected replacement
      (with_account_circuit expected replacement rt) rt) [
        | inl kept ↦ subst (Rises rt) (sym kept) (self-Rises rt)
        | inr (found, rises, written) ↦ subst (Rises rt) (sym written) (record {
          account = subst (λ v. v.epoch ≤ replacement.epoch) (sym found) rises;
          deployments = λ other. omega arith;
        })
      ]

-- After any swaps, of deployments' circuits and of the account's, whatever they expect and propose
-- and whatever the journal answers, no deployment's circuit and not the account's has a lower epoch.
pub after_swaps-Rises :
    (journal : Journal) (swaps : List Swap) (rt : AccountRuntime)
    → Rises rt (after_swaps journal swaps rt)
after_swaps-Rises journal [] rt = self-Rises rt
after_swaps-Rises journal (s ∷ swaps) rt =
    Rises-trans (swapped_by-Rises journal s rt)
      (after_swaps-Rises journal swaps (swapped_by journal s rt))
