-- ===== src/Gateway/Fixtures.antt =====
-- Concrete accounts, requests, legs, keys and a bundle, at which the theorems are applied.
use llmmaxxing.Base.{List, ℕ, ◌+◌, true, false, some, [], ◌∷◌, ok, nat_eq}
use llmmaxxing.Core.Reasons.{RouteTrigger, EndpointKind, Modality, QuotaDimensionStatus}
use llmmaxxing.Core.Models.Accounts.{ProviderAccount, QuotaDimension}
use llmmaxxing.Gateway.Runtime.Circuits.{CircuitValue, closed_at}
use llmmaxxing.Gateway.Runtime.Requests.{
  ReservationRequest, Journal, JournalReceipt, JournalStatus, Append,
}
use llmmaxxing.Core.StateMachines.{AccountState, KeyLifecycleState, CredentialVerifierStatus}
use llmmaxxing.Core.Models.Legs.{RequestProfile, LegCapabilities, AuthorizedLeg}
use llmmaxxing.Core.Models.Ceilings.{RequestAuthorizationCeiling}
use llmmaxxing.Core.Models.Keys.{Verifier, ClientKeyRecord}
use llmmaxxing.Core.Models.Routes.{KeyPolicyRevision}
use llmmaxxing.Core.Models.Bundles.{PolicyBundle}
use llmmaxxing.Gateway.Routing.Engine.{AuthenticatedClient}

abbrev pub known_at : ℕ → QuotaDimension
known_at n = record { status = QuotaDimensionStatus.known; value = some n }

abbrev pub account : ProviderAccount
account = record {
  account_id = 3;
  connection = "litellm";
  provider_token = "token";
  binding_ref = "ref";
  credential_fingerprint = some "sha256";
  credential_epoch = some 1;
  parallel_limit = known_at 1;
  local_parallel_ceiling = 4;
  rpm_limit = known_at 2;
  rpm_window_seconds = 60;
  tpm_limit = known_at 100;
  tpm_window_seconds = 60;
  monthly_quota_units = known_at 50;
  quota_units_per_attempt = 1;
  monthly_reset_at_ms = some 900000;
  state = some AccountState.active;
}

abbrev pub profile : RequestProfile
profile = record {
  route_group_id = 1;
  endpoint = EndpointKind.chat;
  modality = Modality.chat;
  stream = true;
  input_tokens_max = 20;
  output_tokens_max = 10;
  reasoning_tokens_max = 5;
  tools_count = 0;
  forced_tool_required = false;
  response_schema_present = false;
  history_turns = 0;
  deadline_ms = 5000;
}

abbrev pub request : ℕ → CircuitValue → ReservationRequest
request attempt_id circuit = record {
  request_id = 40 + attempt_id;
  attempt_id = attempt_id;
  account_id = 3;
  leg_id = 8;
  deployment_generation_id = 50;
  runtime_identity = record {
    installation_id = 1;
    dispatcher_fence = 1;
    boot_id = 1;
    bundle_generation = 1;
    bundle_hash = 9;
  };
  deadline_at_ms = 6000;
  profile = profile;
  input_tokens_upper_bound = 20;
  account_circuit = closed_at 0;
  max_output_tokens = 10;
  max_reasoning_tokens = 5;
  quota_units = 2;
  circuit = circuit;
}

abbrev pub receipt : JournalReceipt
receipt = record { durable_lsn = 1; record_digest = 77 }

abbrev pub journal : Journal
journal = record {
  status = JournalStatus.healthy;
  reserve_before_send = λ durable. Append.durable receipt;
  record_dispatch = λ attempt_id at_ms. ok receipt;
  record_resolution = λ attempt_id resolution digest at_ms. ok receipt;
  update_circuit = λ account_id scope generation value. ok tt;
  record_authoritative_active_count = λ account_id count. ok tt;
  record_recovery_probe_started = λ account_id probe_id. ok tt;
  record_recovery_probe_finished = λ account_id probe_id classification. ok tt;
  provider_send_completed = λ attempt_id. ok tt;
  checkpoint = ok tt;
}

abbrev pub serving : LegCapabilities
serving = record {
  endpoints = EndpointKind.chat ∷ [];
  modalities = Modality.chat ∷ [];
  context_tokens = 8000;
  tools = true;
  forced_tool = false;
  response_schema = false;
  streaming = true;
  reasoning = true;
  history_continuation = true;
  shadow = false;
}

abbrev pub authorized : AuthorizedLeg
authorized = record {
  leg_id = 8;
  account_id = 3;
  generation_id = 50;
  order = 1;
  allowed_triggers = RouteTrigger.primary ∷ [];
  capabilities = serving;
}

abbrev pub ceiling_of : ℕ → List AuthorizedLeg → RequestAuthorizationCeiling
ceiling_of bundle_generation legs = record {
  key_id = 5;
  credential_generation = 1;
  policy_id = 6;
  bundle_generation = bundle_generation;
  bundle_hash = 9;
  route_group_id = 1;
  authorized_legs = legs;
  queue_tier = 2;
  queue_weight = 4;
  max_concurrency = 3;
  max_waiters = 8;
  deadline_ms = 5000;
}

abbrev pub verifier : Verifier
verifier = record {
  generation = 1;
  fingerprint = "f0";
  pepper_version = "v1";
  not_before_s = 100;
  not_after_s = 5000;
  status = CredentialVerifierStatus.active;
}

abbrev pub key_record : ClientKeyRecord
key_record = record {
  key_id = 5;
  policy_id = 6;
  state = KeyLifecycleState.enabled;
  issued_at_s = 100;
  expires_at_s = 5000;
  time_high_water_s = 200;
  generation_high_water = 1;
  credential_verifiers = verifier ∷ [];
  legacy_verifiers = [];
}

abbrev pub policy : KeyPolicyRevision
policy = record {
  policy_id = 6;
  route_group_ids = 1 ∷ [];
  authorized_legs = authorized ∷ [];
  queue_tier = 2;
  queue_weight = 4;
  max_concurrency = 3;
  max_waiters = 8;
  deadline_ms = 5000;
}

abbrev pub bundle : PolicyBundle
bundle = record {
  generation = 1;
  keys = key_record ∷ [];
  policies = policy ∷ [];
  accounts = account ∷ [];
  route_groups =
      record {
        route_group_id = 1;
        name = "chat";
        legs =
            record {
              leg_id = 8;
              order = 1;
              triggers = RouteTrigger.primary ∷ [];
              account_id = 3;
              generation_id = 50;
              capabilities = serving;
            }
            ∷ [];
      }
      ∷ [];
  backend_manifest_hash = 70;
}

abbrev pub client : AuthenticatedClient
client = record {
  key_id = 5;
  accepted_credential_generation = 1;
  policy_id = 6;
  key_state = KeyLifecycleState.enabled;
  key_expires_at_s = 5000;
  applied_bundle_generation = 1;
  applied_bundle_hash = 9;
}
