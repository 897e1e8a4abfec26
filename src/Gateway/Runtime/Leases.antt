-- ===== src/Gateway/Runtime/Leases.antt =====
-- src/llmmaxxing/gateway/runtime_state.py: dispatch and resolution of an attempt, by which the
-- methods of `Lease` act.
use llmmaxxing.Base.{
  ℕ, ◌+◌, ◌-◌, Bool, true, false, not, ◌&&◌, ◌||◌, Option, none, some, ltb, leb, ◌==◌,
  if◌then◌else◌, is_some, or_default, same, Result, raised, ok, ◌>>=◌, lease_transition, key_error,
  nat_eq, option_eq,
}
use llmmaxxing.Base.Dict.{lookup, member, put, remove}
use llmmaxxing.Core.Ids.{AttemptId, Digest}
use llmmaxxing.Core.Reasons.{TerminalOutcome}
use llmmaxxing.Gateway.Runtime.Requests.{
  Attempt, AttemptState, AttemptResolution, ResolvedAttempt, Journal, JournalReceipt, Start,
  dispatch_of,
}
use llmmaxxing.Gateway.Runtime.State.{AccountRuntime, tick}

-- `Lease.terminal`, `Lease.dispatched`, `_attempt_exists`
abbrev pub is_terminal : AttemptId → AccountRuntime → Bool
is_terminal attempt_id rt = member attempt_id rt.resolutions

unfoldable pub is_dispatched : AttemptId → AccountRuntime → Bool
is_dispatched attempt_id rt = elim (lookup attempt_id rt.attempts) [
  | none ↦ false
  | some attempt ↦ is_some attempt.dispatched_at_ms
]

unfoldable pub attempt_exists : AttemptId → AccountRuntime → Bool
attempt_exists attempt_id rt = member attempt_id rt.attempts && not (is_terminal attempt_id rt)

abbrev dispatched_with : Attempt → ℕ → JournalReceipt → Attempt
dispatched_with attempt at_ms receipt = record attempt {
  dispatched_at_ms = some at_ms;
  dispatch_receipt = some receipt;
}

-- The record of the dispatch, and the checkpoint behind it.
unfoldable pub settle_dispatch :
    Result JournalReceipt
    → Result (Unit {0})
    → Attempt
    → AttemptId
    → AccountRuntime
    → AccountRuntime × Result JournalReceipt
settle_dispatch (raised e) checkpoint attempt attempt_id rt = (rt, raised e)
settle_dispatch (ok receipt) checkpoint attempt attempt_id rt = (
  record rt {
    attempts = put attempt_id (dispatched_with attempt rt.time_high_water_ms receipt) rt.attempts;
  },
  checkpoint >>= λ _. ok receipt,
)

unfoldable pub dispatch_attempt :
    Journal → ℕ → Attempt → AttemptId → AccountRuntime → AccountRuntime × Result JournalReceipt
dispatch_attempt journal clock_ms attempt attempt_id rt =
    let ticked = tick clock_ms rt in
    elim attempt.dispatch_receipt [
      | some receipt ↦ (rt, ok receipt)
      | none ↦
          if leb attempt.deadline_at_ms ticked.time_high_water_ms
          then (ticked, raised lease_transition)
          else settle_dispatch (journal.record_dispatch attempt_id ticked.time_high_water_ms)
              journal.checkpoint attempt attempt_id ticked
    ]

-- `_mark_dispatched`
unfoldable pub mark_dispatched :
    Journal → ℕ → AttemptId → AccountRuntime → AccountRuntime × Result JournalReceipt
mark_dispatched journal clock_ms attempt_id rt =
    if is_terminal attempt_id rt
    then (rt, raised lease_transition)
    else elim (lookup attempt_id rt.attempts) [
      | none ↦ (rt, raised lease_transition)
      | some attempt ↦ dispatch_attempt journal clock_ms attempt attempt_id rt
    ]

-- `_provider_send_completed`
unfoldable pub provider_send_completed : Journal → AttemptId → AccountRuntime → Result (Unit {0})
provider_send_completed journal attempt_id rt =
    if not (attempt_exists attempt_id rt)
    then raised lease_transition
    else journal.provider_send_completed attempt_id

-- The start of an attempt, corrected by what was observed.
abbrev pub corrected : AttemptResolution → Start → Start
corrected resolution start = record start {
  counted_start = if same resolution.actual_starts (some 0) then false else start.counted_start;
  tokens = or_default start.tokens resolution.actual_token_units;
}

-- The month's use: the reservation's charge gives way to the observed one in the same month.
abbrev pub reconciled : AttemptResolution → Attempt → AccountRuntime → ℕ
reconciled resolution attempt rt = elim resolution.actual_quota_units [
  | none ↦ rt.monthly_used
  | some actual ↦
      if attempt.monthly_reset_at_ms == rt.monthly_reset_at_ms
      then rt.monthly_used + actual - attempt.quota_units
      else rt.monthly_used
]

abbrev pub entry_of : Digest → JournalReceipt → Attempt → AccountRuntime → ResolvedAttempt
entry_of digest receipt attempt rt = record {
  resolution_digest = digest;
  receipt = receipt;
  resolved_at_ms = rt.time_high_water_ms;
  dispatch = dispatch_of attempt;
}

unfoldable pub resolved :
    Digest
    → AttemptResolution
    → Start
    → Attempt
    → AttemptId
    → JournalReceipt
    → AccountRuntime
    → AccountRuntime
resolved digest resolution start attempt attempt_id receipt rt = record rt {
  starts = put attempt_id (corrected resolution start) rt.starts;
  monthly_used = reconciled resolution attempt rt;
  attempts =
      if resolution.release_capacity
      then remove attempt_id rt.attempts
      else put attempt_id (record attempt { state = AttemptState.uncertain }) rt.attempts;
  resolutions = put attempt_id (entry_of digest receipt attempt rt) rt.resolutions;
}

-- The durable record of the resolution, the tables behind it, and the checkpoint.
unfoldable pub settle_resolution :
    Result JournalReceipt
    → Result (Unit {0})
    → Digest
    → AttemptResolution
    → Attempt
    → AttemptId
    → AccountRuntime
    → AccountRuntime × Result JournalReceipt
settle_resolution (raised e) checkpoint digest resolution attempt attempt_id rt = (rt, raised e)
settle_resolution (ok receipt) checkpoint digest resolution attempt attempt_id rt =
    elim (lookup attempt_id rt.starts) [
      | none ↦ (rt, raised key_error)
      | some start ↦ (
        resolved digest resolution start attempt attempt_id receipt rt,
        checkpoint >>= λ _. ok receipt,
      )
    ]

abbrev pub exceeds : Option ℕ → ℕ → Bool
exceeds none reserved = false
exceeds (some actual) reserved = ltb reserved actual

unfoldable pub finish_open :
    Journal
    → ℕ
    → Digest
    → AttemptResolution
    → Attempt
    → AttemptId
    → AccountRuntime
    → AccountRuntime × Result JournalReceipt
finish_open journal clock_ms digest resolution attempt attempt_id rt =
    let ticked = tick clock_ms rt in
    if exceeds resolution.actual_token_units attempt.reserved_tokens
      || exceeds resolution.actual_quota_units attempt.quota_units
    then (rt, raised lease_transition)
    else settle_resolution
        (journal.record_resolution attempt_id resolution digest ticked.time_high_water_ms)
        journal.checkpoint digest resolution attempt attempt_id ticked

-- `_finish`. The digest of a resolution, SHA-256 of its canonical JSON, is not code of the
-- repository.
unfoldable pub finish :
    (AttemptResolution → Digest)
    → Journal
    → ℕ
    → AttemptId
    → AttemptResolution
    → AccountRuntime
    → AccountRuntime × Result JournalReceipt
finish digest journal clock_ms attempt_id resolution rt = elim (lookup attempt_id rt.resolutions) [
  | some old ↦
      if old.resolution_digest == digest resolution
      then (rt, ok old.receipt)
      else (rt, raised lease_transition)
  | none ↦ elim (lookup attempt_id rt.attempts) [
    | none ↦ (rt, raised lease_transition)
    | some attempt ↦
        finish_open journal clock_ms (digest resolution) resolution attempt attempt_id rt
  ]
]

-- The resolution with which `try_reserve_async` takes back a grant whose caller was cancelled.
abbrev pub no_send : AttemptResolution
no_send = record {
  outcome = TerminalOutcome.client_cancelled;
  release_capacity = true;
  actual_starts = some 0;
  actual_token_units = some 0;
  actual_quota_units = some 0;
}
