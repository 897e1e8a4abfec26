-- ===== src/Gateway/Runtime/Views.antt =====
-- src/llmmaxxing/gateway/runtime_state.py: `OperationalRuntimeView`, the snapshot of the accounts that
-- routing reads. Left out are the journal's report of its own health, the attempts and the account
-- of a dispatch, which only reports read.
use llmmaxxing.Base.{ℕ, List}
use llmmaxxing.Core.Ids.{AccountId, DeploymentGenerationId}
use llmmaxxing.Gateway.Runtime.Circuits.{CircuitValue}
use llmmaxxing.Gateway.Runtime.Requests.{Dispatch, JournalStatus}
use llmmaxxing.Gateway.Runtime.Recovery.{AccountCapacity}

pub record CircuitOperationalValue : Type 0 where
  pub account_id : AccountId
  pub deployment_generation_id : DeploymentGenerationId
  pub value : CircuitValue

pub record OperationalRuntimeView : Type 0 where
  pub recovery_state : JournalStatus
  pub time_high_water_ms : ℕ
  pub accounts : List AccountCapacity
  pub dispatches : List Dispatch
  pub circuits : List CircuitOperationalValue
