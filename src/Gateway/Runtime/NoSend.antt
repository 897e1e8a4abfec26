-- ===== src/Gateway/Runtime/NoSend.antt =====
-- src/llmmaxxing/gateway/runtime_state.py, `AccountRuntime.try_reserve_async`: a grant that is taken
-- back before the send leaves no trace in the counters.
use llmmaxxing.Base.{
  ℕ, ◌≡◌, refl, sym, ap, subst, ◌∙◌, Bool, true, false, ◌||◌, ◌==◌, ◌++◌, ◌∷◌, [], some, none,
  arith, Bool-cases, inl, inr, Result, raised, ok, nat_eq, length, length-keep_snoc_out, keep, not,
  ◌&&◌, leb, sum_of-keep_snoc_zero, is_some-false,
}
use llmmaxxing.Base.Dict.{
  lookup, member, values, lookup-put_self, put-put, remove-put_absent, values-put_absent,
}
use llmmaxxing.Core.Ids.{AttemptId, Digest}
use llmmaxxing.Core.Models.Legs.{RequestProfile}
use llmmaxxing.Gateway.Runtime.Requests.{
  Attempt, AttemptResolution, Journal, JournalReceipt, Start, ReservationRequest, granted,
}
use llmmaxxing.Gateway.Runtime.State.{
  AccountRuntime, tick, active_count, rpm_starts, tpm_starts, total_tokens, in_rpm_window,
  in_tpm_window, purge_windows, roll_monthly,
}
use llmmaxxing.Gateway.Runtime.Guards.{is_known_attempt}
use llmmaxxing.Gateway.Runtime.Reserve.{booked, pruned, try_reserve, attempt_of, start_of, refresh}
use llmmaxxing.Gateway.Runtime.Leases.{
  finish, finish_open, settle_resolution, resolved, exceeds, corrected, no_send,
}
use llmmaxxing.Gateway.Runtime.Grants.{fresh, granted-Admitted}
use llmmaxxing.Gateway.Runtime.Limits.{ledger_denial-fresh, fresh-absent}
use llmmaxxing.Gateway.Runtime.Finish.{raised_ok}

settle_resolution-resolved :
    (answer : Result JournalReceipt) (checkpoint : Result (Unit {0})) (digest : Digest)
    (resolution : AttemptResolution) (attempt : Attempt) (attempt_id : AttemptId)
    (rt rt' : AccountRuntime) (receipt : JournalReceipt) (start : Start)
    → lookup attempt_id rt.starts ≡ some start
    → settle_resolution answer checkpoint digest resolution attempt attempt_id rt
      ≡ (rt', ok receipt)
    → (c : JournalReceipt) × (resolved digest resolution start attempt attempt_id c rt ≡ rt')
unfolding settle_resolution
settle_resolution-resolved (raised e) checkpoint digest resolution attempt i rt rt' receipt start
      began h =
    absurd (raised_ok (ap (λ p. p.1) h))
settle_resolution-resolved (ok c) checkpoint digest resolution attempt i rt rt' receipt start began
      h =
    (c, ap (λ p. p.0) (rw (settle_resolution, began) at h))

-- What the resolution of an attempt that is open leaves.
finish-resolved :
    (digest : AttemptResolution → Digest) (journal : Journal) (clock_ms : ℕ)
    (attempt_id : AttemptId) (resolution : AttemptResolution) (rt rt' : AccountRuntime)
    (receipt : JournalReceipt) (attempt : Attempt) (start : Start)
    → lookup attempt_id rt.resolutions ≡ none
    → lookup attempt_id rt.attempts ≡ some attempt
    → lookup attempt_id rt.starts ≡ some start
    → (exceeds resolution.actual_token_units attempt.reserved_tokens
        || exceeds resolution.actual_quota_units attempt.quota_units)
      ≡ false
    → finish digest journal clock_ms attempt_id resolution rt ≡ (rt', ok receipt)
    → (c : JournalReceipt) × (resolved
          (digest resolution)
          resolution
          start
          attempt
          attempt_id
          c
          (tick clock_ms rt)
        ≡ rt')
unfolding finish finish_open tick
finish-resolved digest journal clock_ms i resolution rt rt' receipt attempt start fresh found began
      within h =
    settle_resolution-resolved
      (journal.record_resolution i resolution (digest resolution)
        (tick clock_ms rt).time_high_water_ms)
      journal.checkpoint (digest resolution) resolution attempt i (tick clock_ms rt) rt' receipt
      start began (rw (finish, fresh, found, finish_open, within) at h)

-- The counters of an account.
pub record SameCounters (rt rt' : AccountRuntime) : Type 0 where
  pub active : active_count rt' ≡ active_count rt
  pub month : rt'.monthly_used ≡ rt.monthly_used
  pub starts : (now_ms : ℕ) → length (rpm_starts now_ms rt') ≡ length (rpm_starts now_ms rt)
  pub tokens :
      (now_ms : ℕ) → total_tokens (tpm_starts now_ms rt') ≡ total_tokens (tpm_starts now_ms rt)

module _ (digest : Digest) (resolution_digest : Digest) (r : ReservationRequest)
    (c : JournalReceipt) (clock_ms : ℕ) (rt : AccountRuntime)
    (no_attempt : lookup r.attempt_id rt.attempts ≡ none)
    (no_start : lookup r.attempt_id rt.starts ≡ none) where
  -- The books after the attempt was taken back.
  abbrev undone : AccountRuntime
  undone =
      resolved resolution_digest no_send (start_of r rt) (attempt_of digest r rt) r.attempt_id c
        (tick clock_ms (booked digest r rt))

  undone-starts : values undone.starts ≡ values rt.starts ++ corrected no_send (start_of r rt) ∷ []
  unfolding resolved tick booked
  undone-starts =
      rw (put-put r.attempt_id (start_of r rt) (corrected no_send (start_of r rt)) rt.starts)
        (values-put_absent r.attempt_id (corrected no_send (start_of r rt)) rt.starts no_start)

  undone-SameCounters : SameCounters rt undone
  unfolding resolved tick booked
  undone-SameCounters = record {
    active = rw (remove-put_absent r.attempt_id (attempt_of digest r rt) rt.attempts no_attempt);
    month = ground arith;
    starts = λ now_ms.
        ap (λ xs. length (keep (in_rpm_window rt.account now_ms) xs)) undone-starts
        ∙ length-keep_snoc_out (in_rpm_window rt.account now_ms) (values rt.starts)
            (corrected no_send (start_of r rt)) refl;
    tokens = λ now_ms.
        ap (λ xs. total_tokens (keep (in_tpm_window rt.account now_ms) xs)) undone-starts
        ∙ sum_of-keep_snoc_zero (in_tpm_window rt.account now_ms) (λ start. start.tokens)
            (values rt.starts) (corrected no_send (start_of r rt)) refl;
  }

roll_monthly-resolutions :
    (now_ms : ℕ) (rt : AccountRuntime) → rt.resolutions ≡ (roll_monthly now_ms rt).resolutions
unfolding roll_monthly
roll_monthly-resolutions now_ms rt =
    elim (Bool-cases (not (rt.monthly_reset_at_ms == 0) && leb rt.monthly_reset_at_ms now_ms)) [
      | inl h ↦ rw h
      | inr h ↦ rw h
    ]

known_resolution : (a b c : Bool) → (a || b || c) ≡ false → c ≡ false
known_resolution true b c h = cc
known_resolution false true c h = cc
known_resolution false false c h = h

fresh-unresolved :
    (clock_ms : ℕ) (r : ReservationRequest) (rt : AccountRuntime)
    → is_known_attempt r.attempt_id (pruned clock_ms rt) ≡ false
    → lookup r.attempt_id (fresh clock_ms rt).resolutions ≡ none
unfolding refresh purge_windows
fresh-unresolved clock_ms r rt h =
    let live = pruned clock_ms rt in
    subst (λ d. lookup r.attempt_id d ≡ none)
      (roll_monthly-resolutions live.time_high_water_ms
        (purge_windows live.time_high_water_ms live))
      (is_some-false _ (
        known_resolution (member r.attempt_id live.attempts) (member r.attempt_id live.starts) _ h))

-- A grant that is taken back before its send leaves the account's counters as the reservation
-- found them: the attempts in flight, the month's units and, at every time, the starts and the
-- tokens of the rolling windows.
pub try_reserve-no_send :
    (digest : RequestProfile → Digest) (resolution_digest : AttemptResolution → Digest)
    (journal journal' : Journal) (clock_ms clock_ms' : ℕ) (r s : ReservationRequest)
    (c c' : JournalReceipt) (rt rt₁ rt₂ : AccountRuntime)
    → try_reserve digest journal clock_ms r rt ≡ (rt₁, ok (granted s c))
    → finish resolution_digest journal' clock_ms' r.attempt_id no_send rt₁ ≡ (rt₂, ok c')
    → SameCounters (fresh clock_ms rt) rt₂
unfolding booked
try_reserve-no_send digest resolution_digest journal journal' t t' r s c c' rt rt₁ rt₂ h k =
    let a = granted-Admitted t digest journal r rt {rt' = rt₁} {s = s} {c = c} h in
    let (known, _) = ledger_denial-fresh _ r (pruned t rt) a.passes in
    let (no_attempt, no_start) = fresh-absent t r rt known in
    let live = fresh t rt in
    let (receipt, e) =
      finish-resolved resolution_digest journal' t' r.attempt_id no_send
        (booked (digest r.profile) r live) rt₂ c' (attempt_of (digest r.profile) r live)
        (start_of r live) (fresh-unresolved t r rt known)
        (lookup-put_self r.attempt_id (attempt_of (digest r.profile) r live) live.attempts)
        (lookup-put_self r.attempt_id (start_of r live) live.starts) (ground arith)
        (subst (λ x. finish resolution_digest journal' t' r.attempt_id no_send x ≡ (rt₂, ok c'))
          (sym a.result) k) in
    subst (SameCounters live) e (
      undone-SameCounters (digest r.profile) (resolution_digest no_send) r receipt t' live
        no_attempt no_start)
