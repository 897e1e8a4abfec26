-- ===== src/Gateway/Admission/Dispatch.antt =====
-- What a turn of the pump has made sure of when it asks for a reservation.
use llmmaxxing.Base.{
  ℕ, ◌+◌, ◌≤◌, ◌<◌, ◌≡◌, sym, ap, ◌∙◌, subst, inl, inr, Bool, true, false, not, ◌||◌, Option, none,
  some, List, [], ◌∷◌, arith, leb, if◌then◌else◌, Result, raised, ok, same, any, all, nat_eq,
  list_eq, option_eq, bool_eq, string_eq, Bool-cases, both_false, negated_true, if_true, if_false,
  or_default, bools_differ, leb-false, Failure,
}
use llmmaxxing.Base.Dict.{Dict, lookup-put_self}
use llmmaxxing.Core.Ids.{RequestId, AccountId, KeyId}
use llmmaxxing.Core.Reasons.{DispatchCause, cause_eq}
use llmmaxxing.Core.Models.Legs.{leg_eq}
use llmmaxxing.Core.Models.Ceilings.{RequestAuthorizationCeiling}
use llmmaxxing.Gateway.Budget.{can_send, Candidate}
use llmmaxxing.Gateway.Queue.Choice.{QueueSelection}
use llmmaxxing.Gateway.Routing.Eligible.{select}
use llmmaxxing.Gateway.Routing.Choice.{Chosen, select-Chosen}
use llmmaxxing.Gateway.Admission.{AdmissionController, Waiter, active_of, acquire_active}
use llmmaxxing.Gateway.Admission.Pump.{
  Moment, Turn, again, skipped, reserving, context_of, with_waiter, synced, settled_cause,
  reserve_with, dispatch_at, is_unavailable,
}

-- A place among the key's active requests is taken only below the bound.
pub acquire_active-bounded :
    (key_id : KeyId) (maximum : ℕ) (active : Dict KeyId ℕ)
    → (acquire_active key_id maximum active).1 ≡ true
    → active_of key_id (acquire_active key_id maximum active).0 ≤ maximum
unfolding acquire_active
acquire_active-bounded key_id maximum active h =
    elim (Bool-cases (leb maximum (active_of key_id active))) [
      | inl full ↦
          absurd (bools_differ (sym h ∙ ap (λ (x : Dict KeyId ℕ × Bool). x.1) (if_true _ _ _ full)))
      | inr room ↦
          subst (λ (x : Dict KeyId ℕ × Bool). active_of key_id x.0 ≤ maximum)
            (sym (if_false _ _ _ room))
            (subst (λ o. or_default 0 o ≤ maximum)
              (sym (lookup-put_self key_id (active_of key_id active + 1) active))
              (omega (arith, leb-false _ _ room)))
    ]

-- The reservation's candidate was selected under the authorization `a` of that moment, can be sent
-- under the request's budget, was among the previews, and the key is within its concurrency.
pub record Reserves (t : Moment) (cause : DispatchCause) (withheld : List AccountId)
    (seen : List Candidate) (w : Waiter) (a : RequestAuthorizationCeiling) (candidate : Candidate)
    (c' : AdmissionController) : Type 0 where
  pub chosen :
      Chosen t.gate t.engine.bundle.backend_manifest_hash a w.request.profile cause t.view
        (context_of t w)
        withheld
        candidate
  pub in_time : t.now_ms < w.effective_deadline_at_ms
  pub in_budget : can_send candidate (synced t w).request.attempt_budget ≡ true
  pub previewed : any (λ p. same candidate.authorized_leg p.authorized_leg) seen ≡ true
  pub within : active_of w.request.client.key_id c'.active_by_key ≤ a.max_concurrency

some_previewed :
    {A : Type 0} (p : A → Bool) (xs : List A) → all (λ x. not (p x)) xs ≡ false → any p xs ≡ true
some_previewed p [] h = cc
some_previewed p (x ∷ xs) h = ground (arith, some_previewed p xs)

module _ (s : QueueSelection) (w : Waiter) (a : RequestAuthorizationCeiling) (seen : List Candidate)
    (c c' : AdmissionController) (s' : QueueSelection) (a' : RequestAuthorizationCeiling)
    (candidate : Candidate) where
  reserve_with-some :
      (o : Option Candidate)
      → reserve_with s w a seen c o ≡ (c', ok (reserving s' a' candidate))
      → (o ≡ some candidate)
        × (a' ≡ a)
        × (any (λ p. same candidate.authorized_leg p.authorized_leg) seen ≡ true)
        × (can_send candidate w.request.attempt_budget ≡ true)
        × (active_of w.request.client.key_id c'.active_by_key ≤ a.max_concurrency)
  reserve_with-some none h = cc
  reserve_with-some (some x) h =
      let taken = acquire_active w.request.client.key_id a.max_concurrency c.active_by_key in
      elim (Bool-cases (
        all (λ p. not (same x.authorized_leg p.authorized_leg)) seen
        || not (can_send x w.request.attempt_budget))) [
          | inl out ↦ absurd (differs (sym (if_true _ _ _ out) ∙ h))
          | inr fits ↦ elim (Bool-cases (not taken.1)) [
            | inl full ↦ absurd (differs (sym (if_false _ _ _ fits ∙ if_true _ _ _ full) ∙ h))
            | inr room ↦
                let k = sym (if_false _ _ _ fits ∙ if_false _ _ _ room) ∙ h in
                let (listed, sent) = both_false _ _ fits in
                let (e, f) = same_turn k in
                (
                  ap some e,
                  f,
                  subst (λ y. any (λ p. same y.authorized_leg p.authorized_leg) seen ≡ true) e
                      (some_previewed (λ p. same x.authorized_leg p.authorized_leg) seen listed),
                  subst (λ y. can_send y w.request.attempt_budget ≡ true) e (negated_true _ sent),
                  subst
                      (λ (d : AdmissionController).
                        active_of w.request.client.key_id d.active_by_key ≤ a.max_concurrency)
                      (ap (λ (y : AdmissionController × Result Turn). y.0) k)
                      (acquire_active-bounded w.request.client.key_id a.max_concurrency
                        c.active_by_key (negated_true _ room)),
                )
          ]
        ]
    where
      differs :
          {d : AdmissionController} {id : RequestId}
          → ◌≡◌ {A = AdmissionController × Result Turn}
              (d, ok (skipped id))
              (c', ok (reserving s' a' candidate))
          → ⊥
      differs k = cc

      same_turn :
          {d : AdmissionController} {x : Candidate}
          → ◌≡◌ {A = AdmissionController × Result Turn}
              (d, ok (reserving s a x))
              (c', ok (reserving s' a' candidate))
          → (x ≡ candidate) × (a' ≡ a)
      same_turn k = (cc, cc)

pub reserving_at :
    (t : Moment) (s s' : QueueSelection) (withheld : List AccountId) (cause : DispatchCause)
    (seen : List Candidate) (c c' : AdmissionController)
    (p : Waiter × Result RequestAuthorizationCeiling) (a : RequestAuthorizationCeiling)
    (candidate : Candidate)
    → dispatch_at t s withheld cause seen c p ≡ (c', ok (reserving s' a candidate))
    → (p.1 ≡ ok a) × Reserves t cause withheld seen p.0 a candidate c'
reserving_at t s s' withheld cause seen c c' (w, raised e) a candidate h =
    absurd (failing (is_unavailable e) _ _ _ h)
  where
    failing :
        (b : Bool) (d d' : AdmissionController) (f : Failure)
        → ◌≡◌ {A = AdmissionController × Result Turn}
            (if b then (d, ok again) else (d', raised f))
            (c', ok (reserving s' a candidate))
        → ⊥
    failing true d d' f k = cc
    failing false d d' f k = cc
reserving_at t s s' withheld cause seen c c' (w, ok b) a candidate h =
    elim (Bool-cases (leb w.effective_deadline_at_ms t.now_ms)) [
      | inl late ↦ absurd (ends (sym (if_true _ _ _ late) ∙ h))
      | inr early ↦
          let ready = synced t (settled_cause cause w) in
          let pick =
            select t.gate t.engine.bundle.backend_manifest_hash b w.request.profile cause t.view
              (context_of t w) withheld in
          let (picked, e, listed, sent, within) =
            reserve_with-some s ready b seen (with_waiter s.entry.request_id ready c) c' s' a
              candidate pick (sym (if_false _ _ _ early) ∙ h) in
          (
            ap ok (sym e),
            subst (λ x. Reserves t cause withheld seen w x candidate c') (sym e)
                (record {
                  chosen =
                      select-Chosen t.gate t.engine.bundle.backend_manifest_hash b w.request.profile
                        cause t.view (context_of t w) withheld candidate picked;
                  in_time = leb-false _ _ early;
                  in_budget = sent;
                  previewed = listed;
                  within = within;
                }),
          )
    ]
  where
    ends :
        {d : AdmissionController}
        → ◌≡◌ {A = AdmissionController × Result Turn}
            (d, ok again)
            (c', ok (reserving s' a candidate))
        → ⊥
    ends k = cc
