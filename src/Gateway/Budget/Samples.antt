-- ===== src/Gateway/Budget/Samples.antt =====
-- A concrete request that sends once.
use llmmaxxing.Base.{◌≡◌, refl, true, false, [], ◌∷◌, arith, ok}
use llmmaxxing.Core.Reasons.{RouteTrigger, EndpointKind, Modality, DispatchCause}
use llmmaxxing.Gateway.Runtime.Circuits.{closed_at}
use llmmaxxing.Gateway.Budget.{
  Candidate, AttemptBudget, new_budget, record_send, can_send, send_closed, sent,
}
use llmmaxxing.Gateway.Budget.Sends.{IsValid, record_send-IsValid}

abbrev candidate : Candidate
candidate = record {
  authorized_leg = record {
    leg_id = 1;
    account_id = 3;
    generation_id = 50;
    order = 0;
    allowed_triggers = RouteTrigger.primary ∷ [];
    capabilities = record {
      endpoints = EndpointKind.chat ∷ [];
      modalities = Modality.chat ∷ [];
      context_tokens = 8000;
      tools = true;
      forced_tool = false;
      response_schema = false;
      streaming = true;
      reasoning = false;
      history_continuation = true;
      shadow = false;
    };
  };
  cause = DispatchCause.primary;
  account_circuit = closed_at 0;
  deployment_circuit = closed_at 2;
}

abbrev after_send : AttemptBudget
after_send = record (new_budget 5) { attempts = sent candidate 9 ∷ [] }

new-IsValid : IsValid (new_budget 5)
new-IsValid = record { bounded = omega arith; distinct = tt }

sends_first : record_send candidate 9 (new_budget 5) ≡ ok after_send
unfolding record_send can_send send_closed
sends_first = refl

record_send-IsValid_example : IsValid after_send × (after_send.response_started ≡ false)
record_send-IsValid_example =
    record_send-IsValid candidate 9 (new_budget 5) after_send new-IsValid sends_first
