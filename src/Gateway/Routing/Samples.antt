-- ===== src/Gateway/Routing/Samples.antt =====
-- Two concrete ceilings and a request, and windows of an emergency.
use llmmaxxing.Base.{ℕ, ◌≡◌, refl, true, false, ◌&&◌, [], ◌∷◌, ok}
use llmmaxxing.Core.Reasons.{EndpointKind, Modality}
use llmmaxxing.Core.Models.Legs.{LegCapabilities, RequestProfile, overlap}
use llmmaxxing.Gateway.Routing.{EmergencyActivation, bounded_unique_window, permits, allows}
use llmmaxxing.Gateway.Routing.Overlap.{allows-overlap}

abbrev capabilities : ℕ → LegCapabilities
capabilities context_tokens = record {
  endpoints = EndpointKind.chat ∷ EndpointKind.text ∷ [];
  modalities = Modality.chat ∷ [];
  context_tokens = context_tokens;
  tools = true;
  forced_tool = true;
  response_schema = false;
  streaming = true;
  reasoning = false;
  history_continuation = true;
  shadow = false;
}

abbrev tool_request : RequestProfile
tool_request = record {
  route_group_id = 1;
  endpoint = EndpointKind.chat;
  modality = Modality.chat;
  stream = true;
  input_tokens_max = 300;
  output_tokens_max = 100;
  reasoning_tokens_max = 0;
  tools_count = 2;
  forced_tool_required = true;
  response_schema_present = false;
  history_turns = 1;
  deadline_ms = 5000;
}

allows-overlap_example :
    allows (overlap (capabilities 1000) (capabilities 500)) tool_request
    ≡ (allows (capabilities 1000) tool_request && allows (capabilities 500) tool_request)
allows-overlap_example =
    allows-overlap (capabilities 1000) (capabilities 500) tool_request refl refl

abbrev one_hour : EmergencyActivation
one_hour = record {
  leg_ids = 4 ∷ 7 ∷ [];
  dispatcher_fence = 2;
  activated_at_ms = 1000;
  expires_at_ms = 3601000;
}

window_of_an_hour : bounded_unique_window one_hour ≡ ok one_hour
unfolding bounded_unique_window
window_of_an_hour = refl

closed_at_expiry : permits one_hour 7 3601000 3600000 2 ≡ false
unfolding permits
closed_at_expiry = refl
