-- ===== src/Gateway/Runtime/Requests.antt =====
-- src/llmmaxxing/gateway/runtime_state.py: requests, denials, resolutions, and the entries of an
-- account's tables; src/llmmaxxing/gateway/journal.py: the calls of the journal that it makes.
use llmmaxxing.Base.{
  ℕ, ◌+◌, Bool, not, Option, none, some, ◌==◌, ltb, Result, ok, raise_if, ◌>>◌, value_error,
  Failure,
}
use llmmaxxing.Core.Ids.{
  AccountId, RequestId, AttemptId, RouteLegId, DeploymentGenerationId, BundleHash, ProbeToken,
  Digest,
}
use llmmaxxing.Core.Reasons.{TerminalOutcome}
use llmmaxxing.Core.Models.Legs.{RequestProfile}
use llmmaxxing.Gateway.Runtime.Circuits.{CircuitValue, CircuitScope}

pub data ReservationDenialReason : Type 0 where
  account_not_active account_not_found attempt_duplicate : ReservationDenialReason
  circuit_changed circuit_unavailable deadline_exceeded : ReservationDenialReason
  invalid_quota_charge journal_capacity_stop journal_unavailable : ReservationDenialReason
  monthly_quota_exhausted monthly_reset_unavailable : ReservationDenialReason
  parallel_exhausted recovery_required rpm_exhausted tpm_exhausted : ReservationDenialReason

pub data ProbeClassification : Type 0 where
  available capacity_exhausted inconclusive : ProbeClassification

pub record RuntimeIdentity : Type 0 where
  pub installation_id : ℕ
  pub dispatcher_fence : ℕ
  pub boot_id : ℕ
  pub bundle_generation : ℕ
  pub bundle_hash : BundleHash

pub record ReservationRequest : Type 0 where
  pub request_id : RequestId
  pub attempt_id : AttemptId
  pub account_id : AccountId
  pub leg_id : RouteLegId
  pub deployment_generation_id : DeploymentGenerationId
  pub runtime_identity : RuntimeIdentity
  pub deadline_at_ms : ℕ
  pub profile : RequestProfile
  pub input_tokens_upper_bound : ℕ
  pub account_circuit : CircuitValue
  pub max_output_tokens : ℕ
  pub max_reasoning_tokens : ℕ
  pub quota_units : ℕ
  pub circuit : CircuitValue

abbrev pub total_token_upper_bound : ReservationRequest → ℕ
total_token_upper_bound r =
    r.input_tokens_upper_bound + r.max_output_tokens + r.max_reasoning_tokens

abbrev pub max_int : ℕ
max_int = 9223372036854775807

-- `_charge_covers_profile`
unfoldable pub charge_covers_profile : ReservationRequest → Result ReservationRequest
charge_covers_profile r = do
  raise_if (ltb r.input_tokens_upper_bound r.profile.input_tokens_max) value_error
  raise_if (not (r.max_output_tokens == r.profile.output_tokens_max)) value_error
  raise_if (not (r.max_reasoning_tokens == r.profile.reasoning_tokens_max)) value_error
  raise_if (ltb max_int (total_token_upper_bound r)) value_error
  ok r

pub record AttemptResolution : Type 0 where
  pub outcome : TerminalOutcome
  pub release_capacity : Bool
  pub actual_starts : Option ℕ
  pub actual_token_units : Option ℕ
  pub actual_quota_units : Option ℕ

pub record ReservationDenied : Type 0 where
  pub reason : ReservationDenialReason
  pub retry_at_ms : Option ℕ

pub record JournalReceipt : Type 0 where
  pub durable_lsn : ℕ
  pub record_digest : Digest

-- What `try_reserve` returns; a granted lease carries its request and the journal's receipt.
pub data Reservation : Type 0 where
  granted : ReservationRequest → JournalReceipt → Reservation
  denied : ReservationDenied → Reservation

pub record Start : Type 0 where
  pub attempt_id : AttemptId
  pub started_at_ms : ℕ
  pub tokens : ℕ
  pub counted_start : Bool

-- The two values of `_Attempt.state`.
pub data AttemptState : Type 0 where
  active uncertain : AttemptState

pub record Attempt : Type 0 where
  pub attempt_id : AttemptId
  pub request_id : RequestId
  pub leg_id : RouteLegId
  pub deployment_generation_id : DeploymentGenerationId
  pub identity : RuntimeIdentity
  pub deadline_at_ms : ℕ
  pub profile_digest : Digest
  pub circuit_epoch : ℕ
  pub account_circuit_epoch : ℕ
  pub circuit_probe_id : Option ProbeToken
  pub account_circuit_probe_id : Option ProbeToken
  pub monthly_reset_at_ms : ℕ
  pub started_at_ms : ℕ
  pub dispatched_at_ms : Option ℕ
  pub dispatch_receipt : Option JournalReceipt
  pub reserved_tokens : ℕ
  pub quota_units : ℕ
  pub state : AttemptState

pub record Dispatch : Type 0 where
  pub request_id : RequestId
  pub attempt_id : AttemptId
  pub leg_id : RouteLegId
  pub deployment_generation_id : DeploymentGenerationId
  pub circuit_epoch : ℕ
  pub account_circuit_epoch : ℕ
  pub circuit_probe_id : Option ProbeToken
  pub account_circuit_probe_id : Option ProbeToken
  pub dispatched_at_ms : ℕ

pub record ResolvedAttempt : Type 0 where
  pub resolution_digest : Digest
  pub receipt : JournalReceipt
  pub resolved_at_ms : ℕ
  pub dispatch : Option Dispatch

-- `AccountRuntime._dispatch`
unfoldable pub dispatch_of : Attempt → Option Dispatch
dispatch_of a = elim a.dispatched_at_ms [
  | none ↦ none
  | some at_ms ↦ some (record {
    request_id = a.request_id;
    attempt_id = a.attempt_id;
    leg_id = a.leg_id;
    deployment_generation_id = a.deployment_generation_id;
    circuit_epoch = a.circuit_epoch;
    account_circuit_epoch = a.account_circuit_epoch;
    circuit_probe_id = a.circuit_probe_id;
    account_circuit_probe_id = a.account_circuit_probe_id;
    dispatched_at_ms = at_ms;
  })
]

-- The payload that is made durable before a send.
pub record DurableReservation : Type 0 where
  pub request_id : RequestId
  pub attempt_id : AttemptId
  pub account_id : AccountId
  pub leg_id : RouteLegId
  pub deployment_generation_id : DeploymentGenerationId
  pub identity : RuntimeIdentity
  pub deadline_at_ms : ℕ
  pub profile_digest : Digest
  pub started_at_ms : ℕ
  pub reserved_tokens : ℕ
  pub quota_units : ℕ
  pub monthly_reset_at_ms : ℕ
  pub circuit_epoch : ℕ
  pub account_circuit_epoch : ℕ
  pub circuit_probe_id : Option ProbeToken
  pub account_circuit_probe_id : Option ProbeToken

pub data JournalStatus : Type 0 where
  healthy admission_stop recovery_required closed : JournalStatus

-- What `reserve_before_send` does: it returns a receipt, raises `JournalUnavailable` with the text
-- of `ADMISSION_STOP` or with another text, or raises something else, as for a payload that does not
-- validate or where the writer failed.
pub data Append : Type 0 where
  durable : JournalReceipt → Append
  stopped unavailable : Append
  failed : Failure → Append

-- The journal as an account's runtime sees it during one operation: its status, the answer to each
-- call, and what a checkpoint that is due, or forced, raises.
pub record Journal : Type 0 where
  pub status : JournalStatus
  pub reserve_before_send : DurableReservation → Append
  pub record_dispatch : AttemptId → ℕ → Result JournalReceipt
  pub record_resolution : AttemptId → AttemptResolution → Digest → ℕ → Result JournalReceipt
  pub update_circuit :
      AccountId → CircuitScope → Option DeploymentGenerationId → CircuitValue → Result (Unit {0})
  pub record_authoritative_active_count : AccountId → ℕ → Result (Unit {0})
  pub record_recovery_probe_started : AccountId → ProbeToken → Result (Unit {0})
  pub record_recovery_probe_finished :
      AccountId → ProbeToken → ProbeClassification → Result (Unit {0})
  pub provider_send_completed : AttemptId → Result (Unit {0})
  pub checkpoint : Result (Unit {0})
