-- ===== src/Gateway/Budget/Sends.antt =====
-- src/llmmaxxing/gateway/routing.py, `AttemptBudget`: what a request may send.
use llmmaxxing.Base.{
  both_false, negated_true, ◌≤◌, ◌≡◌, refl, subst, Bool, true, false, not, ◌&&◌, List, [], ◌∷◌,
  ◌++◌, arith, leb, leb-false, ◌==◌, if◌then◌else◌, length, length-append, any, All, ok,
  value_error, guard-eq-ok, ok-injective,
}
use llmmaxxing.Core.Ids.{AttemptId}
use llmmaxxing.Gateway.Budget.{
  Candidate, DispatchedAttempt, AttemptBudget, send_closed, is_repeat, can_send, sent, record_send,
}

-- Two sends on one leg at the same epochs of both circuits.
abbrev pub same_send : DispatchedAttempt → DispatchedAttempt → Bool
same_send a b =
    a.leg_id == b.leg_id
    && a.circuit_epoch == b.circuit_epoch
    && a.account_circuit_epoch == b.account_circuit_epoch

abbrev pub NoRepeat : List DispatchedAttempt → Type 0
NoRepeat [] = Unit
NoRepeat (a ∷ as') = All (λ b. same_send a b ≡ false) as' × NoRepeat as'

-- At most three sends, no two of them the same.
pub record IsValid (budget : AttemptBudget) : Type 0 where
  pub bounded : length budget.attempts ≤ 3
  pub distinct : NoRepeat budget.attempts

nested :
    (b c d : Bool)
    → (if b then false else if c then false else d) ≡ true
    → (b ≡ false) × (c ≡ false)
nested true c d h = cc
nested false true d h = cc
nested false false d h = (refl, refl)

All-snoc :
    (P : DispatchedAttempt → Type 0) (as' : List DispatchedAttempt) (b : DispatchedAttempt)
    → All P as'
    → P b
    → All P (as' ++ b ∷ [])
All-snoc P [] b h k = (k, tt)
All-snoc P (a ∷ as') b h k = (h.0, All-snoc P as' b h.1 k)

NoRepeat-snoc :
    (as' : List DispatchedAttempt) (b : DispatchedAttempt)
    → NoRepeat as'
    → any (λ a. same_send a b) as' ≡ false
    → NoRepeat (as' ++ b ∷ [])
NoRepeat-snoc [] b h k = (tt, tt)
NoRepeat-snoc (a ∷ as') b h k =
    let (first, rest) = both_false (same_send a b) _ k in
    (All-snoc (λ c. same_send a c ≡ false) as' b h.0 first, NoRepeat-snoc as' b h.1 rest)

-- What a permitted send says of the budget.
can_send-parts :
    (c : Candidate) (budget : AttemptBudget)
    → can_send c budget ≡ true
    → (send_closed budget ≡ false) × (any (is_repeat c) budget.attempts ≡ false)
unfolding can_send
can_send-parts c budget h = nested _ _ _ h

-- A send that is recorded keeps the budget valid: at most three sends, no two on one leg at the same
-- circuit epochs, and none once a response has started.
pub record_send-IsValid :
    (c : Candidate) (attempt_id : AttemptId) (budget budget' : AttemptBudget)
    → IsValid budget
    → record_send c attempt_id budget ≡ ok budget'
    → IsValid budget' × (budget'.response_started ≡ false)
unfolding record_send send_closed
record_send-IsValid c attempt_id budget budget' v h =
    let (allowed, h') = guard-eq-ok (not (can_send c budget)) value_error _ h in
    let (opened, fresh) = can_send-parts c budget (negated_true _ allowed) in
    let (silent, room) =
      both_false budget.response_started (leb 3 (length budget.attempts)) opened in
    subst (λ b. IsValid b × (b.response_started ≡ false)) (ok-injective h')
      (
        record {
          bounded = omega (
            arith,
            length-append budget.attempts (sent c attempt_id ∷ []),
            leb-false 3 (length budget.attempts) room,
          );
          distinct = NoRepeat-snoc budget.attempts (sent c attempt_id) v.distinct fresh;
        },
        silent,
      )
