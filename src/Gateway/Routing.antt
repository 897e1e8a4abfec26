-- ===== src/Gateway/Routing.antt =====
-- src/llmmaxxing/gateway/routing.py: emergency windows, failure classification and the test of a
-- leg's capabilities.
pub mod Overlap
pub mod Classifier
pub mod Engine
pub mod Authorized
pub mod Eligible
pub mod Blocked
pub mod Serves
pub mod Needs
pub mod Fit
pub mod Choice
pub mod Fallback
mod Samples
mod Cases
use Prim.Native.String.{String}
use llmmaxxing.Base.{
  ℕ, ◌+◌, ◌-◌, Bool, true, false, not, ◌&&◌, ◌||◌, Option, none, some, List, [], ◌∷◌, ltb, leb,
  ◌==◌, if◌then◌else◌, any, all, keep, contains, unique, null, Result, ok, raise_if, ◌>>=◌, ◌>>◌,
  value_error, nat_eq,
}
use llmmaxxing.Core.Ids.{RouteLegId, Digest}
use llmmaxxing.Core.Reasons.{
  FailureCause, FailureScope, DispatchCause, EndpointKind, Modality, endpoint_eq, modality_eq,
}
use llmmaxxing.Core.Models.Legs.{LegCapabilities, AuthorizedLeg, RequestProfile}

pub record EmergencyActivation : Type 0 where
  pub leg_ids : List RouteLegId
  pub dispatcher_fence : ℕ
  pub activated_at_ms : ℕ
  pub expires_at_ms : ℕ

-- `_bounded_unique_window`
unfoldable pub bounded_unique_window : EmergencyActivation → Result EmergencyActivation
bounded_unique_window e = do
  raise_if (not (unique e.leg_ids)) value_error
  raise_if (not (ltb e.activated_at_ms e.expires_at_ms)) value_error
  raise_if (ltb 3600000 (e.expires_at_ms - e.activated_at_ms)) value_error
  ok e

unfoldable pub permits : EmergencyActivation → RouteLegId → ℕ → ℕ → ℕ → Bool
permits e leg_id now_ms deadline_at_ms dispatcher_fence =
    contains leg_id e.leg_ids
    && dispatcher_fence == e.dispatcher_fence
    && (leb e.activated_at_ms now_ms && ltb now_ms e.expires_at_ms)
    && leb deadline_at_ms e.expires_at_ms

-- The body of `_capabilities_allow`, on the capabilities of the leg.
abbrev pub allows : LegCapabilities → RequestProfile → Bool
allows c p =
    contains p.endpoint c.endpoints
    && contains p.modality c.modalities
    && leb (p.input_tokens_max + p.output_tokens_max + p.reasoning_tokens_max) c.context_tokens
    && (p.tools_count == 0 || c.tools)
    && (not p.forced_tool_required || c.forced_tool)
    && (not p.response_schema_present || c.response_schema)
    && (not p.stream || c.streaming)
    && (p.reasoning_tokens_max == 0 || c.reasoning)
    && (p.history_turns == 0 || c.history_continuation)

-- `_capabilities_allow`
abbrev pub capabilities_allow : AuthorizedLeg → RequestProfile → Bool
capabilities_allow leg profile = allows leg.capabilities profile
