-- ===== src/Core/StateMachines.antt =====
-- src/llmmaxxing/core/state_machines.py: the key lifecycle and the activation pipeline.
pub mod Laws
use llmmaxxing.Base.{Result, ok, raised, value_error}

pub data KeyLifecycleState : Type 0 where
  draft enabled suspended revoked : KeyLifecycleState

pub data CredentialVerifierStatus : Type 0 where
  active retiring retired expired : CredentialVerifierStatus

pub data AccountState : Type 0 where
  draft active disabled tombstoned : AccountState

-- The event strings that the transition table names; any other event is `other`.
pub data KeyEvent : Type 0 where
  activate suspend resume revoke other : KeyEvent

-- `_KEY_TRANSITIONS` and its lookup.
unfoldable pub key_transition : KeyLifecycleState → KeyEvent → Result KeyLifecycleState
key_transition KeyLifecycleState.draft activate = ok KeyLifecycleState.enabled
key_transition KeyLifecycleState.enabled suspend = ok KeyLifecycleState.suspended
key_transition KeyLifecycleState.suspended resume = ok KeyLifecycleState.enabled
key_transition KeyLifecycleState.draft revoke = ok KeyLifecycleState.revoked
key_transition KeyLifecycleState.enabled revoke = ok KeyLifecycleState.revoked
key_transition KeyLifecycleState.suspended revoke = ok KeyLifecycleState.revoked
key_transition KeyLifecycleState.revoked revoke = ok KeyLifecycleState.revoked
key_transition state event = raised value_error

pub data ActivationStage : Type 0 where
  preparing_backend backend_ready staging_gateway gateway_staged committing applied :
      ActivationStage

unfoldable pub next_activation_stage : ActivationStage → Result ActivationStage
next_activation_stage preparing_backend = ok backend_ready
next_activation_stage backend_ready = ok staging_gateway
next_activation_stage staging_gateway = ok gateway_staged
next_activation_stage gateway_staged = ok committing
next_activation_stage committing = ok applied
next_activation_stage applied = raised value_error
