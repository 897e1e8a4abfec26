-- ===== src/Gateway/Runtime/Guards.antt =====
-- src/llmmaxxing/gateway/runtime_state.py, `AccountRuntime.try_reserve`: its early returns, in
-- their order, in the three runs between which the state's upkeep stands.
use llmmaxxing.Base.{
  ℕ, ◌+◌, Bool, true, false, not, ◌||◌, Option, none, some, List, [], ◌∷◌, ◌++◌, ltb, leb, ◌==◌,
  if◌then◌else◌, same, length, any, count_of, option_eq, nat_eq,
}
use llmmaxxing.Base.Dict.{member}
use llmmaxxing.Core.Ids.{AttemptId, ProbeToken}
use llmmaxxing.Core.Models.Accounts.{state_is_active}
use llmmaxxing.Gateway.Runtime.Circuits.{CircuitValue, opened, half_open, circuit_eq, state_eq}
use llmmaxxing.Gateway.Runtime.Requests.{
  ReservationRequest, ReservationDenied, ReservationDenialReason, Journal, JournalStatus,
}
use llmmaxxing.Gateway.Runtime.State.{AccountRuntime, circuit_value}

abbrev pub denial : ReservationDenialReason → ReservationDenied
denial reason = record { reason = reason; retry_at_ms = none }

abbrev pub denial_until : ReservationDenialReason → ℕ → ReservationDenied
denial_until reason retry_at_ms = record { reason = reason; retry_at_ms = some retry_at_ms }

-- `if test: return denied`
abbrev pub deny_if : Bool → ReservationDenied → Option ReservationDenied → Option ReservationDenied
deny_if true d rest = some d
deny_if false d rest = rest

abbrev is_recovery_required : JournalStatus → Bool
is_recovery_required status = elim status [ JournalStatus.recovery_required ↦ true | _ ↦ false ]

abbrev is_admission_stop : JournalStatus → Bool
is_admission_stop status = elim status [ JournalStatus.admission_stop ↦ true | _ ↦ false ]

-- Before the clock is read.
unfoldable pub entry_denial :
    Journal → ReservationRequest → AccountRuntime → Option ReservationDenied
entry_denial journal request rt =
    deny_if (is_recovery_required journal.status) (denial ReservationDenialReason.recovery_required)
      (deny_if (is_admission_stop journal.status)
        (denial ReservationDenialReason.journal_capacity_stop)
        (deny_if (not (request.account_id == rt.account.account_id))
          (denial ReservationDenialReason.account_not_found)
          (deny_if (not (same rt.recovery_probe_id none))
            (denial ReservationDenialReason.recovery_required)
            (deny_if (not (state_is_active rt.account.state))
              (denial ReservationDenialReason.account_not_active) none))))

-- The attempts without a resolution.
abbrev unresolved : AccountRuntime → ℕ
unresolved rt = count_of (λ item. not (member item.0 rt.resolutions)) rt.attempts

abbrev pub is_known_attempt : AttemptId → AccountRuntime → Bool
is_known_attempt attempt_id rt =
    member attempt_id rt.attempts || member attempt_id rt.starts || member attempt_id rt.resolutions

-- The probe token of a half-open circuit.
abbrev pub probe_of : CircuitValue → List ProbeToken
probe_of v =
    if same v.state half_open
    then elim v.probe_id [ none ↦ [] | some probe_id ↦ probe_id ∷ [] ]
    else []

abbrev pub probe_ids : ReservationRequest → AccountRuntime → List ProbeToken
probe_ids request rt =
    probe_of rt.account_circuit ++ probe_of (circuit_value request.deployment_generation_id rt)

unfoldable pub circuit_denial : ReservationRequest → AccountRuntime → Option ReservationDenied
circuit_denial request rt =
    let current = circuit_value request.deployment_generation_id rt in
    deny_if (not (same rt.account_circuit request.account_circuit))
      (denial ReservationDenialReason.circuit_changed)
      (deny_if (same rt.account_circuit.state opened)
        (denial_until ReservationDenialReason.circuit_unavailable rt.account_circuit.retry_at_ms)
        (deny_if (not (same current request.circuit))
          (denial ReservationDenialReason.circuit_changed)
          (deny_if (same current.state opened)
            (denial_until ReservationDenialReason.circuit_unavailable current.retry_at_ms)
            (deny_if
              (any (λ probe_id. member probe_id rt.consumed_circuit_probes) (probe_ids request rt))
              (denial ReservationDenialReason.circuit_unavailable) none))))

-- Behind the pruning of the ledger.
unfoldable pub ledger_denial : ℕ → ReservationRequest → AccountRuntime → Option ReservationDenied
ledger_denial now_ms request rt =
    deny_if (leb rt.resolution_ledger_limit (length rt.resolutions + unresolved rt))
      (denial ReservationDenialReason.journal_capacity_stop)
      (deny_if (ltb request.quota_units rt.account.quota_units_per_attempt)
        (denial ReservationDenialReason.invalid_quota_charge)
        (deny_if (leb request.deadline_at_ms now_ms)
          (denial ReservationDenialReason.deadline_exceeded)
          (deny_if (is_known_attempt request.attempt_id rt)
            (denial ReservationDenialReason.attempt_duplicate) (circuit_denial request rt))))
