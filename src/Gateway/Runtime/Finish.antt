-- ===== src/Gateway/Runtime/Finish.antt =====
-- src/llmmaxxing/gateway/runtime_state.py, `AccountRuntime._finish`: a resolution is final.
use llmmaxxing.Base.{
  ℕ, ◌≡◌, ◌≢◌, refl, sym, ap, subst, false, ◌||◌, ◌==◌, some, none, arith, Option-cases, Bool-cases,
  inl, inr, Result, raised, ok, Failure, lease_transition, nat_eq, ok-injective, ◌>>=◌, ==_refl,
  ==_iff,
}
use llmmaxxing.Base.Dict.{lookup, lookup-put_self}
use llmmaxxing.Core.Ids.{AttemptId, Digest}
use llmmaxxing.Gateway.Runtime.Requests.{
  Attempt, AttemptResolution, ResolvedAttempt, Journal, JournalReceipt, Start,
}
use llmmaxxing.Gateway.Runtime.State.{AccountRuntime}
use llmmaxxing.Gateway.Runtime.Leases.{
  entry_of, finish, finish_open, settle_resolution, resolved, exceeds, entry_of,
}

-- The ledger's entry of a resolution that returned.
abbrev Recorded : AttemptId → Digest → JournalReceipt → AccountRuntime → Type 0
Recorded attempt_id digest receipt rt =
    (entry : ResolvedAttempt) × (lookup attempt_id rt.resolutions ≡ some entry)
    × (entry.resolution_digest ≡ digest)
    × (entry.receipt ≡ receipt)

after_checkpoint :
    (checkpoint : Result (Unit {0})) {c c' : JournalReceipt}
    → (checkpoint >>= λ _. ok c) ≡ ok c'
    → c ≡ c'
after_checkpoint (ok u) h = ok-injective h
after_checkpoint (raised e) h = cc

resolved-Recorded :
    (digest : Digest) (resolution : AttemptResolution) (start : Start) (attempt : Attempt)
    (attempt_id : AttemptId) (receipt : JournalReceipt) (rt : AccountRuntime)
    → Recorded attempt_id digest receipt
        (resolved digest resolution start attempt attempt_id receipt rt)
unfolding resolved
resolved-Recorded digest resolution start attempt attempt_id receipt rt =
    let entry = entry_of digest receipt attempt rt in
    (entry, lookup-put_self attempt_id entry rt.resolutions, refl, refl)

pub raised_ok {ℓ} : {A : Type ℓ} {e : Failure} {a : A} → raised e ≢ ok a
raised_ok h = cc

settle_resolution-Recorded :
    (answer : Result JournalReceipt) (checkpoint : Result (Unit {0})) (digest : Digest)
    (resolution : AttemptResolution) (attempt : Attempt) (attempt_id : AttemptId)
    (rt rt' : AccountRuntime) (receipt : JournalReceipt)
    → settle_resolution answer checkpoint digest resolution attempt attempt_id rt
      ≡ (rt', ok receipt)
    → Recorded attempt_id digest receipt rt'
unfolding settle_resolution
settle_resolution-Recorded (raised e) checkpoint digest resolution attempt i rt rt' receipt h = cc
settle_resolution-Recorded (ok c) checkpoint digest resolution attempt i rt rt' receipt h =
    elim (Option-cases (lookup i rt.starts)) [
      | inl missing ↦ absurd (raised_ok (ap (λ p. p.1) (rw (settle_resolution, missing) at h)))
      | inr (start, found) ↦
          let k = rw (settle_resolution, found) at h in
          subst (Recorded i digest receipt) (ap (λ p. p.0) k) (
            subst (λ x. Recorded i digest x (resolved digest resolution start attempt i c rt))
              (after_checkpoint checkpoint (ap (λ p. p.1) k))
              (resolved-Recorded digest resolution start attempt i c rt))
    ]

unequal : (a b : ℕ) → a ≢ b → (a == b) ≡ false
unequal a b h = ground arith

finish_open-Recorded :
    (journal : Journal) (clock_ms : ℕ) (digest : Digest) (resolution : AttemptResolution)
    (attempt : Attempt) (attempt_id : AttemptId) (rt rt' : AccountRuntime)
    (receipt : JournalReceipt)
    → finish_open journal clock_ms digest resolution attempt attempt_id rt ≡ (rt', ok receipt)
    → Recorded attempt_id digest receipt rt'
unfolding finish_open
finish_open-Recorded journal clock_ms digest resolution attempt i rt rt' receipt h =
    elim (Bool-cases (
      exceeds resolution.actual_token_units attempt.reserved_tokens
      || exceeds resolution.actual_quota_units attempt.quota_units)) [
        | inl over ↦ absurd (raised_ok (ap (λ p. p.1) (rw over at h)))
        | inr within ↦
            settle_resolution-Recorded _ journal.checkpoint digest resolution attempt i _ rt'
              receipt (rw within at h)
      ]

module _ (digest : AttemptResolution → Digest) (journal : Journal) (clock_ms : ℕ)
    (attempt_id : AttemptId) (resolution : AttemptResolution) (rt rt' : AccountRuntime)
    (receipt : JournalReceipt) where
  finish-old :
      (old : ResolvedAttempt)
      → lookup attempt_id rt.resolutions ≡ some old
      → finish digest journal clock_ms attempt_id resolution rt ≡ (rt', ok receipt)
      → Recorded attempt_id (digest resolution) receipt rt'
  unfolding finish
  finish-old old found h = elim (Bool-cases (old.resolution_digest == digest resolution)) [
    | inl equal ↦
        let k = rw (finish, found, equal) at h in
        subst (Recorded attempt_id (digest resolution) receipt) (ap (λ p. p.0) k)
          (old, found, (==_iff _ _).0 equal, ok-injective (ap (λ p. p.1) k))
    | inr other ↦ absurd (raised_ok (ap (λ p. p.1) (rw (finish, found, other) at h)))
  ]

  finish-new :
      lookup attempt_id rt.resolutions ≡ none
      → finish digest journal clock_ms attempt_id resolution rt ≡ (rt', ok receipt)
      → Recorded attempt_id (digest resolution) receipt rt'
  unfolding finish
  finish-new fresh h = elim (Option-cases (lookup attempt_id rt.attempts)) [
    | inl missing ↦ absurd (raised_ok (ap (λ p. p.1) (rw (finish, fresh, missing) at h)))
    | inr (attempt, found) ↦
        finish_open-Recorded journal clock_ms (digest resolution) resolution attempt attempt_id rt
          rt' receipt (rw (finish, fresh, found) at h)
  ]

  finish-Recorded :
      finish digest journal clock_ms attempt_id resolution rt ≡ (rt', ok receipt)
      → Recorded attempt_id (digest resolution) receipt rt'
  finish-Recorded h = elim (Option-cases (lookup attempt_id rt.resolutions)) [
    | inl fresh ↦ finish-new fresh h
    | inr (old, found) ↦ finish-old old found h
  ]

-- A resolution is final: when `finish` returned a receipt, the same resolution again returns the
-- same receipt and changes nothing, and one with another digest raises `InvalidLeaseTransition`
-- and changes nothing, whatever the journal and the clock then say.
pub finish_final :
    (digest : AttemptResolution → Digest) (journal journal' : Journal) (clock_ms clock_ms' : ℕ)
    (attempt_id : AttemptId) (resolution other : AttemptResolution) (rt rt' : AccountRuntime)
    (receipt : JournalReceipt)
    → finish digest journal clock_ms attempt_id resolution rt ≡ (rt', ok receipt)
    → (finish digest journal' clock_ms' attempt_id resolution rt' ≡ (rt', ok receipt))
      × (digest other ≢ digest resolution
          → finish digest journal' clock_ms' attempt_id other rt' ≡ (rt', raised lease_transition))
unfolding finish
finish_final digest journal journal' t t' i resolution other rt rt' receipt h =
    let (entry, found, same_digest, same_receipt) =
      finish-Recorded digest journal t i resolution rt rt' receipt h in
    (
      rw (finish, found, same_digest, ==_refl (digest resolution), same_receipt),
      λ differs. rw (
        finish,
        found,
        same_digest,
        unequal (digest resolution) (digest other) (λ e. differs (sym e)),
      ),
    )
