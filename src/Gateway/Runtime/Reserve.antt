-- ===== src/Gateway/Runtime/Reserve.antt =====
-- src/llmmaxxing/gateway/runtime_state.py: `AccountRuntime.try_reserve`. An operation returns the
-- state that it leaves with what it returns or raises.
use llmmaxxing.Base.{
  Bool, ℕ, ◌+◌, Option, none, some, List, [], ◌∷◌, same, if◌then◌else◌, Result, raised, ok, ◌>>=◌,
  nat_eq,
}
use llmmaxxing.Base.Dict.{Dict, put}
use llmmaxxing.Core.Ids.{AttemptId, ProbeToken, Digest}
use llmmaxxing.Core.Models.Legs.{RequestProfile}
use llmmaxxing.Gateway.Runtime.Circuits.{half_open, state_eq}
use llmmaxxing.Gateway.Runtime.Requests.{
  ReservationRequest, ReservationDenied, ReservationDenialReason, Reservation, granted, denied,
  Start, Attempt, AttemptState, DurableReservation, Journal, Append, total_token_upper_bound,
}
use llmmaxxing.Gateway.Runtime.State.{
  AccountRuntime, tick, prune_resolutions, purge_windows, roll_monthly,
}
use llmmaxxing.Gateway.Runtime.Guards.{denial, entry_denial, ledger_denial, probe_ids}
use llmmaxxing.Gateway.Runtime.Quotas.{quota_denial}

abbrev account_probe : AccountRuntime → Option ProbeToken
account_probe rt =
    if same rt.account_circuit.state half_open then rt.account_circuit.probe_id else none

abbrev pub durable_of : Digest → ReservationRequest → AccountRuntime → DurableReservation
durable_of profile_digest r rt = record {
  request_id = r.request_id;
  attempt_id = r.attempt_id;
  account_id = r.account_id;
  leg_id = r.leg_id;
  deployment_generation_id = r.deployment_generation_id;
  identity = r.runtime_identity;
  deadline_at_ms = r.deadline_at_ms;
  profile_digest = profile_digest;
  started_at_ms = rt.time_high_water_ms;
  reserved_tokens = total_token_upper_bound r;
  quota_units = r.quota_units;
  monthly_reset_at_ms = rt.monthly_reset_at_ms;
  circuit_epoch = r.circuit.epoch;
  account_circuit_epoch = r.account_circuit.epoch;
  circuit_probe_id = r.circuit.probe_id;
  account_circuit_probe_id = account_probe rt;
}

abbrev pub attempt_of : Digest → ReservationRequest → AccountRuntime → Attempt
attempt_of profile_digest r rt = record {
  attempt_id = r.attempt_id;
  request_id = r.request_id;
  leg_id = r.leg_id;
  deployment_generation_id = r.deployment_generation_id;
  identity = r.runtime_identity;
  deadline_at_ms = r.deadline_at_ms;
  profile_digest = profile_digest;
  circuit_epoch = r.circuit.epoch;
  account_circuit_epoch = r.account_circuit.epoch;
  circuit_probe_id = r.circuit.probe_id;
  account_circuit_probe_id = account_probe rt;
  monthly_reset_at_ms = rt.monthly_reset_at_ms;
  started_at_ms = rt.time_high_water_ms;
  dispatched_at_ms = none;
  dispatch_receipt = none;
  reserved_tokens = total_token_upper_bound r;
  quota_units = r.quota_units;
  state = AttemptState.active;
}

abbrev pub start_of : ReservationRequest → AccountRuntime → Start
start_of r rt = record {
  attempt_id = r.attempt_id;
  started_at_ms = rt.time_high_water_ms;
  tokens = total_token_upper_bound r;
  counted_start = Bool.true;
}

abbrev pub consume :
    List ProbeToken → AttemptId → Dict ProbeToken AttemptId → Dict ProbeToken AttemptId
consume [] attempt_id consumed = consumed
consume (p ∷ ps) attempt_id consumed = consume ps attempt_id (put p attempt_id consumed)

-- The tables behind a durable reservation.
unfoldable pub booked : Digest → ReservationRequest → AccountRuntime → AccountRuntime
booked profile_digest r rt = record rt {
  consumed_circuit_probes = consume (probe_ids r rt) r.attempt_id rt.consumed_circuit_probes;
  starts = put r.attempt_id (start_of r rt) rt.starts;
  attempts = put r.attempt_id (attempt_of profile_digest r rt) rt.attempts;
  monthly_used = rt.monthly_used + r.quota_units;
}

-- The answer of the journal to the reservation, and the checkpoint behind it.
unfoldable pub settle_append :
    Append
    → Result (Unit {0})
    → Digest
    → ReservationRequest
    → AccountRuntime
    → AccountRuntime × Result Reservation
settle_append (Append.durable receipt) checkpoint profile_digest r rt =
    (booked profile_digest r rt, checkpoint >>= λ _. ok (granted r receipt))
settle_append Append.stopped checkpoint profile_digest r rt =
    (rt, ok (denied (denial ReservationDenialReason.journal_capacity_stop)))
settle_append Append.unavailable checkpoint profile_digest r rt =
    (rt, ok (denied (denial ReservationDenialReason.journal_unavailable)))
settle_append (Append.failed e) checkpoint profile_digest r rt = (rt, raised e)

-- The quota guards, and the reservation behind them.
unfoldable pub admit :
    Journal
    → Digest
    → ReservationRequest
    → AccountRuntime
    → Result (Option ReservationDenied)
    → AccountRuntime × Result Reservation
admit journal profile_digest r rt (raised e) = (rt, raised e)
admit journal profile_digest r rt (ok (some d)) = (rt, ok (denied d))
admit journal profile_digest r rt (ok none) =
    settle_append (journal.reserve_before_send (durable_of profile_digest r rt)) journal.checkpoint
      profile_digest r rt

-- The windows and the month, as a reservation brings them up to date.
unfoldable pub refresh : ℕ → AccountRuntime → AccountRuntime
refresh now_ms rt = roll_monthly now_ms (purge_windows now_ms rt)

unfoldable pub reserve_at :
    Journal
    → Digest
    → ReservationRequest
    → AccountRuntime
    → Option ReservationDenied
    → AccountRuntime × Result Reservation
reserve_at journal profile_digest r rt (some d) = (rt, ok (denied d))
reserve_at journal profile_digest r rt none =
    let fresh = refresh rt.time_high_water_ms rt in
    admit journal profile_digest r fresh (quota_denial rt.time_high_water_ms r fresh)

-- The ledger that the clock's reading prunes.
unfoldable pub pruned : ℕ → AccountRuntime → AccountRuntime
pruned clock_ms rt = prune_resolutions (tick clock_ms rt).time_high_water_ms (tick clock_ms rt)

unfoldable pub reserve_open :
    Journal
    → ℕ
    → Digest
    → ReservationRequest
    → AccountRuntime
    → Option ReservationDenied
    → AccountRuntime × Result Reservation
reserve_open journal clock_ms profile_digest r rt (some d) = (rt, ok (denied d))
reserve_open journal clock_ms profile_digest r rt none =
    let live = pruned clock_ms rt in
    reserve_at journal profile_digest r live (ledger_denial live.time_high_water_ms r live)

-- SHA-256 of the canonical JSON of a profile is not code of the repository.
unfoldable pub try_reserve :
    (RequestProfile → Digest)
    → Journal
    → ℕ
    → ReservationRequest
    → AccountRuntime
    → AccountRuntime × Result Reservation
try_reserve profile_digest journal clock_ms r rt =
    reserve_open journal clock_ms (profile_digest r.profile) r rt (entry_denial journal r rt)
