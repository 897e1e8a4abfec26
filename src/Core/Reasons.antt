-- ===== src/Core/Reasons.antt =====
-- src/llmmaxxing/core/reasons.py: the closed vocabularies that routing and admission branch on.
-- Each has its members' order as a code, through which `==` on the members is tested.
use llmmaxxing.Base.{ℕ, ◌≡◌, ◌↔◌, Bool, arith, ◌==◌, Eq}

pub data TerminalOutcome : Type 0 where
  authz_denied auth_state_unavailable unsupported_request backpressure_rejected : TerminalOutcome
  route_unavailable deadline_exceeded upstream_failed client_cancelled : TerminalOutcome
  response_stream_failed completed : TerminalOutcome

pub data RouteTrigger : Type 0 where
  primary capacity_spill failure_fallback quota_fallback manual_emergency shadow : RouteTrigger

pub data EndpointKind : Type 0 where
  chat text embeddings rerank audio_speech audio_transcription image : EndpointKind

pub data DispatchCause : Type 0 where
  primary capacity failure quota manual_emergency shadow : DispatchCause

pub data FailureCause : Type 0 where
  capacity transient_failure quota unknown : FailureCause

pub data FailureScope : Type 0 where
  account deployment unknown : FailureScope

pub data Modality : Type 0 where
  chat text responses messages embedding rerank : Modality
  audio_speech audio_transcription audio_translation image : Modality

pub data QuotaDimensionStatus : Type 0 where
  known unknown attested_absent : QuotaDimensionStatus

abbrev trigger_code : RouteTrigger → ℕ
trigger_code RouteTrigger.primary = 0
trigger_code RouteTrigger.capacity_spill = 1
trigger_code RouteTrigger.failure_fallback = 2
trigger_code RouteTrigger.quota_fallback = 3
trigger_code RouteTrigger.manual_emergency = 4
trigger_code RouteTrigger.shadow = 5

pub trigger_code_iff :
    (a b : RouteTrigger) → ((trigger_code a == trigger_code b) ≡ Bool.true) ↔ (a ≡ b)
trigger_code_iff a b = ground arith

instance abbrev pub trigger_eq : Eq RouteTrigger
trigger_eq = record { beq = λ a b. trigger_code a == trigger_code b; beq_iff = trigger_code_iff }

abbrev endpoint_code : EndpointKind → ℕ
endpoint_code EndpointKind.chat = 0
endpoint_code EndpointKind.text = 1
endpoint_code EndpointKind.embeddings = 2
endpoint_code EndpointKind.rerank = 3
endpoint_code EndpointKind.audio_speech = 4
endpoint_code EndpointKind.audio_transcription = 5
endpoint_code EndpointKind.image = 6

pub endpoint_code_iff :
    (a b : EndpointKind) → ((endpoint_code a == endpoint_code b) ≡ Bool.true) ↔ (a ≡ b)
endpoint_code_iff a b = ground arith

instance abbrev pub endpoint_eq : Eq EndpointKind
endpoint_eq = record {
  beq = λ a b. endpoint_code a == endpoint_code b;
  beq_iff = endpoint_code_iff;
}

abbrev modality_code : Modality → ℕ
modality_code Modality.chat = 0
modality_code Modality.text = 1
modality_code Modality.responses = 2
modality_code Modality.messages = 3
modality_code Modality.embedding = 4
modality_code Modality.rerank = 5
modality_code Modality.audio_speech = 6
modality_code Modality.audio_transcription = 7
modality_code Modality.audio_translation = 8
modality_code Modality.image = 9

pub modality_code_iff :
    (a b : Modality) → ((modality_code a == modality_code b) ≡ Bool.true) ↔ (a ≡ b)
modality_code_iff a b = ground arith

instance abbrev pub modality_eq : Eq Modality
modality_eq = record {
  beq = λ a b. modality_code a == modality_code b;
  beq_iff = modality_code_iff;
}

abbrev cause_code : DispatchCause → ℕ
cause_code DispatchCause.primary = 0
cause_code DispatchCause.capacity = 1
cause_code DispatchCause.failure = 2
cause_code DispatchCause.quota = 3
cause_code DispatchCause.manual_emergency = 4
cause_code DispatchCause.shadow = 5

pub cause_code_iff : (a b : DispatchCause) → ((cause_code a == cause_code b) ≡ Bool.true) ↔ (a ≡ b)
cause_code_iff a b = ground arith

instance abbrev pub cause_eq : Eq DispatchCause
cause_eq = record { beq = λ a b. cause_code a == cause_code b; beq_iff = cause_code_iff }

abbrev scope_code : FailureScope → ℕ
scope_code FailureScope.account = 0
scope_code FailureScope.deployment = 1
scope_code FailureScope.unknown = 2

pub scope_code_iff : (a b : FailureScope) → ((scope_code a == scope_code b) ≡ Bool.true) ↔ (a ≡ b)
scope_code_iff a b = ground arith

instance abbrev pub scope_eq : Eq FailureScope
scope_eq = record { beq = λ a b. scope_code a == scope_code b; beq_iff = scope_code_iff }
