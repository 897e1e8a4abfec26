-- ===== src/Gateway/Runtime/Probes.antt =====
-- src/llmmaxxing/gateway/runtime_state.py, `AccountRuntime.try_reserve`: the probe of a half-open
-- circuit admits one attempt.
use llmmaxxing.Base.{
  bools_differ, ℕ, ◌≡◌, refl, sym, subst, ◌∙◌, true, false, not, none, List, [], ◌∷◌, arith, ok,
  same, same_refl, any, any-none, Has, inl, inr, nat_eq, ◌≢◌,
}
use llmmaxxing.Base.Dict.{Dict, member, lookup-put}
use llmmaxxing.Core.Ids.{AttemptId, ProbeToken, Digest}
use llmmaxxing.Core.Models.Legs.{RequestProfile}
use llmmaxxing.Gateway.Runtime.Circuits.{opened, circuit_eq, state_eq}
use llmmaxxing.Gateway.Runtime.Requests.{ReservationRequest, granted, Journal, JournalReceipt}
use llmmaxxing.Gateway.Runtime.State.{AccountRuntime, circuit_value}
use llmmaxxing.Gateway.Runtime.Guards.{circuit_denial, probe_ids}
use llmmaxxing.Gateway.Runtime.Reserve.{booked, consume, pruned, try_reserve}
use llmmaxxing.Gateway.Runtime.Grants.{
  fresh, SameBooks, pruned-SameBooks, fresh-SameBooks, granted-Admitted, deny_if-none,
}
use llmmaxxing.Gateway.Runtime.Limits.{ledger_denial-fresh}

consume-keeps :
    (p : ProbeToken) (ps : List ProbeToken) (attempt_id : AttemptId) (d : Dict ProbeToken AttemptId)
    → member p d ≡ true
    → member p (consume ps attempt_id d) ≡ true
consume-keeps p [] a d h = h
consume-keeps p (q ∷ ps) a d h = consume-keeps p ps a _ (rw (lookup-put q p a d) (ground arith))

-- Every token of the request is consumed.
consume-member :
    (p : ProbeToken) (ps : List ProbeToken) (attempt_id : AttemptId) (d : Dict ProbeToken AttemptId)
    → Has p ps
    → member p (consume ps attempt_id d) ≡ true
consume-member p [] a d h = absurd h
consume-member p (q ∷ ps) a d (inl e) =
    consume-keeps p ps a _ (rw (lookup-put q p a d, e, same_refl q) refl)
consume-member p (q ∷ ps) a d (inr h) = consume-member p ps a _ h

circuit_denial-probes :
    (r : ReservationRequest) (rt : AccountRuntime)
    → circuit_denial r rt ≡ none
    → any (λ p. member p rt.consumed_circuit_probes) (probe_ids r rt) ≡ false
unfolding circuit_denial
circuit_denial-probes r rt h =
    let current = circuit_value r.deployment_generation_id rt in
    let (_, h₁) = deny_if-none (not (same rt.account_circuit r.account_circuit)) _ h in
    let (_, h₂) = deny_if-none (same rt.account_circuit.state opened) _ h₁ in
    let (_, h₃) = deny_if-none (not (same current r.circuit)) _ h₂ in
    let (_, h₄) = deny_if-none (same current.state opened) _ h₃ in
    (deny_if-none (any (λ p. member p rt.consumed_circuit_probes) (probe_ids r rt)) _ h₄).0

probe_ids-SameBooks :
    (r : ReservationRequest) (rt rt' : AccountRuntime)
    → SameBooks rt rt'
    → probe_ids r rt' ≡ probe_ids r rt
probe_ids-SameBooks r rt rt' s = rw (s.circuits, s.account_circuit)

module _ (digest : RequestProfile → Digest) (clock_ms : ℕ) (journal : Journal)
    (r s : ReservationRequest) (c : JournalReceipt) (rt rt' : AccountRuntime)
    (h : try_reserve digest journal clock_ms r rt ≡ (rt', ok (granted s c))) where
  unused_probe :
      (p : ProbeToken) → Has p (probe_ids r rt) → member p rt.consumed_circuit_probes ≡ false
  unused_probe p m =
      let a = granted-Admitted clock_ms digest journal r rt {rt' = rt'} {s = s} {c = c} h in
      let books = pruned-SameBooks clock_ms rt in
      let (_, k) = ledger_denial-fresh _ r (pruned clock_ms rt) a.passes in
      subst (λ d. member p d ≡ false) books.consumed
        (any-none (λ q. member q (pruned clock_ms rt).consumed_circuit_probes) {x = p} _
          (circuit_denial-probes r (pruned clock_ms rt) k)
          (subst (Has p) (sym (probe_ids-SameBooks r rt (pruned clock_ms rt) books)) m))

  used_probe :
      (p : ProbeToken) → Has p (probe_ids r rt) → member p rt'.consumed_circuit_probes ≡ true
  unfolding booked
  used_probe p m =
      let a = granted-Admitted clock_ms digest journal r rt {rt' = rt'} {s = s} {c = c} h in
      subst (λ x. member p x.consumed_circuit_probes ≡ true) a.result
        (consume-member p (probe_ids r (fresh clock_ms rt)) r.attempt_id _ (
          subst (Has p)
            (sym (probe_ids-SameBooks r rt (fresh clock_ms rt) (fresh-SameBooks clock_ms rt))) m))

-- The probe token of a half-open circuit admits one attempt: after a grant under the token no
-- request whose circuits carry it is granted on the state that the grant leaves.
pub try_reserve-probe_once :
    (digest : RequestProfile → Digest) (clock_ms clock_ms' : ℕ) (journal journal' : Journal)
    (r r' s s' : ReservationRequest) (c c' : JournalReceipt) (rt rt₁ rt₂ : AccountRuntime)
    (p : ProbeToken)
    → try_reserve digest journal clock_ms r rt ≡ (rt₁, ok (granted s c))
    → Has p (probe_ids r rt)
    → Has p (probe_ids r' rt₁)
    → try_reserve digest journal' clock_ms' r' rt₁ ≢ (rt₂, ok (granted s' c'))
try_reserve-probe_once digest t t' j j' r r' s s' c c' rt rt₁ rt₂ p first m m' second =
    let used = used_probe digest t j r s c rt rt₁ first p m in
    let unused = unused_probe digest t' j' r' s' c' rt₁ rt₂ second p m' in
    bools_differ (sym used ∙ unused)
