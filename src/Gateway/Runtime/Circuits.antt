-- ===== src/Gateway/Runtime/Circuits.antt =====
-- src/llmmaxxing/gateway/runtime_state.py: the value of a circuit breaker and its validator.
use llmmaxxing.Base.{
  ℕ, ◌≡◌, ◌↔◌, Bool, not, ◌&&◌, ◌||◌, Option, none, arith, ◌==◌, Eq, same, same_refl, same→eq,
  is_some, Result, ok, raise_if, ◌>>◌, value_error, option_eq, nat_eq, pair_eq, list_eq, List, [],
  ◌∷◌,
}
use llmmaxxing.Core.Ids.{ProbeToken, Digest}

pub data CircuitState : Type 0 where
  closed opened half_open : CircuitState

pub data CircuitCause : Type 0 where
  capacity transient_failure quota manual : CircuitCause

pub data CircuitScope : Type 0 where
  account deployment : CircuitScope

abbrev state_code : CircuitState → ℕ
state_code closed = 0
state_code opened = 1
state_code half_open = 2

pub state_code_iff : (a b : CircuitState) → ((state_code a == state_code b) ≡ Bool.true) ↔ (a ≡ b)
state_code_iff a b = ground arith

instance abbrev pub state_eq : Eq CircuitState
state_eq = record { beq = λ a b. state_code a == state_code b; beq_iff = state_code_iff }

abbrev circuit_cause_code : CircuitCause → ℕ
circuit_cause_code capacity = 0
circuit_cause_code transient_failure = 1
circuit_cause_code quota = 2
circuit_cause_code manual = 3

pub circuit_cause_code_iff :
    (a b : CircuitCause) → ((circuit_cause_code a == circuit_cause_code b) ≡ Bool.true) ↔ (a ≡ b)
circuit_cause_code_iff a b = ground arith

instance abbrev pub circuit_cause_eq : Eq CircuitCause
circuit_cause_eq = record {
  beq = λ a b. circuit_cause_code a == circuit_cause_code b;
  beq_iff = circuit_cause_code_iff;
}

pub record CircuitValue : Type 0 where
  pub state : CircuitState
  pub cause : Option CircuitCause
  pub epoch : ℕ
  pub opened_at_ms : ℕ
  pub retry_at_ms : ℕ
  pub backoff_step : ℕ
  pub evidence_digest : Option Digest
  pub probe_id : Option ProbeToken

-- `CircuitValue.closed(epoch)`
abbrev pub closed_at : ℕ → CircuitValue
closed_at epoch = record {
  state = closed;
  cause = none;
  epoch = epoch;
  opened_at_ms = 0;
  retry_at_ms = 0;
  backoff_step = 0;
  evidence_digest = none;
  probe_id = none;
}

abbrev pub has_evidence : CircuitValue → Bool
has_evidence v = is_some v.cause && is_some v.evidence_digest

abbrev pub bad_closed : CircuitValue → Bool
bad_closed v =
    same v.state closed
    && (has_evidence v
        || not (v.opened_at_ms == 0)
        || not (v.retry_at_ms == 0)
        || not (v.backoff_step == 0)
        || is_some v.probe_id)

abbrev pub bad_opened : CircuitValue → Bool
bad_opened v =
    same v.state opened
    && (not (has_evidence v) || v.opened_at_ms == 0 || v.retry_at_ms == 0 || is_some v.probe_id)

abbrev pub bad_half_open : CircuitValue → Bool
bad_half_open v =
    same v.state half_open
    && (not (has_evidence v)
        || v.opened_at_ms == 0
        || not (v.retry_at_ms == 0)
        || not (is_some v.probe_id))

-- `_state_fields_match`
unfoldable pub state_fields_match : CircuitValue → Result CircuitValue
state_fields_match v = do
  raise_if (bad_closed v) value_error
  raise_if (bad_opened v) value_error
  raise_if (bad_half_open v) value_error
  ok v

-- `==` of two circuit values: field by field.
abbrev Parts : Type 0
Parts = (CircuitState × Option CircuitCause) × (List ℕ × (Option Digest × Option ProbeToken))

abbrev parts : CircuitValue → Parts
parts v = (
  (v.state, v.cause),
  (v.epoch ∷ v.opened_at_ms ∷ v.retry_at_ms ∷ v.backoff_step ∷ [], (v.evidence_digest, v.probe_id)),
)

instance abbrev parts_eq : Eq Parts
parts_eq = pair_eq ⦃e = pair_eq⦄ ⦃f = pair_eq⦄

parts-injective : (v w : CircuitValue) → parts v ≡ parts w → v ≡ w
parts-injective v w h = cc

pub circuit_beq_iff : (v w : CircuitValue) → (same (parts v) (parts w) ≡ Bool.true) ↔ (v ≡ w)
circuit_beq_iff v w =
    (λ h. parts-injective v w (same→eq (parts v) (parts w) h), λ h. rw (← h) (same_refl (parts v)))

instance abbrev pub circuit_eq : Eq CircuitValue
circuit_eq = record { beq = λ v w. same (parts v) (parts w); beq_iff = circuit_beq_iff }
