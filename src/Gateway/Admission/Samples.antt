-- ===== src/Gateway/Admission/Samples.antt =====
-- A request that is admitted, whose authorization is renewed, and for which a leg is reserved.
use llmmaxxing.Base.{
  ◌+◌, ◌≤◌, ◌≡◌, refl, true, false, none, some, List, [], ◌∷◌, arith, Result, raised, ok,
  value_error, nat_eq, list_eq, option_eq, bool_eq, string_eq,
}
use llmmaxxing.Core.Reasons.{DispatchCause, RouteTrigger}
use llmmaxxing.Core.StateMachines.{AccountState}
use llmmaxxing.Core.Models.Legs.{AuthorizedLeg, leg_meet, capabilities_meet}
use llmmaxxing.Core.Models.Bundles.{PolicyBundle}
use llmmaxxing.Core.Models.Routes.{unique_legs}
use llmmaxxing.Core.Models.Ceilings.{RequestAuthorizationCeiling, ceiling, intersection}
use llmmaxxing.Core.Models.Ceilings.Contract.{Tighter}
use llmmaxxing.Gateway.Fixtures.{
  authorized, ceiling_of, key_record, policy, bundle, client, profile,
}
use llmmaxxing.Gateway.Auth.{AuthRuntimeView, queued_identity_is_authorized}
use llmmaxxing.Gateway.Budget.{new_budget, sync_runtime, send_closed, can_send, Candidate}
use llmmaxxing.Gateway.Queue.{WdrrQueue, enqueue, key_position}
use llmmaxxing.Gateway.Queue.Entries.{QueueEntry, queue_entry, scarce, no_fairness}
use llmmaxxing.Gateway.Queue.{propose, unprotected_accounts, protected_scarce_accounts}
use llmmaxxing.Gateway.Queue.Entries.{encode_state}
use llmmaxxing.Gateway.Queue.Choice.{
  QueueSelection, propose_from, minimum, min_from, oldest, oldest_from, choose_tier, settle,
  replenish, key_order, choose_key, next_key, fairness_after,
}
use llmmaxxing.Gateway.Runtime.Circuits.{closed_at}
use llmmaxxing.Gateway.Runtime.Requests.{JournalStatus, ReservationDenied, ReservationDenialReason}
use llmmaxxing.Gateway.Runtime.Views.{OperationalRuntimeView}
use llmmaxxing.Gateway.Routing.Engine.{tables_of, authorize}
use llmmaxxing.Gateway.Routing.Eligible.{candidates, eligible, select, operationally_available}
use llmmaxxing.Gateway.Admission.{
  AdmissionController, AdmissionRequest, Waiter, new_waiter, acquire, acquire_guards,
  acquire_active, release_active, current_authorization, identity_allows, denial_cause,
}
use llmmaxxing.Gateway.Admission.Grant.{granted_reservation}
use llmmaxxing.Gateway.Admission.Moves.{Move, moved, moved-InStep}
use llmmaxxing.Gateway.Queue.{commit}
use llmmaxxing.Gateway.Budget.{record_send}
use llmmaxxing.Gateway.Admission.Narrowing.{Renewal, renewed, renewed-admitted}
use llmmaxxing.Gateway.Admission.Pump.{
  preview, aligned, Moment, Turn, turn, reserving, dispatch_at, denied_reservation, again,
}
use llmmaxxing.Gateway.Admission.Dispatch.{Reserves}
use llmmaxxing.Gateway.Admission.Renewed.{dispatch_at-Reserves}
use llmmaxxing.Gateway.Admission.Steps.{InStep, entry_of}

abbrev admitted : AdmissionRequest
admitted = record {
  request_id = 40;
  client = client;
  profile = profile;
  authorization_ceiling = ceiling_of 1 (authorized ∷ []);
  runtime_identity = record {
    installation_id = 1;
    dispatcher_fence = 1;
    boot_id = 1;
    bundle_generation = 1;
    bundle_hash = 9;
  };
  deadline_at_ms = 6000;
  cause = DispatchCause.primary;
  attempt_budget = new_budget 40;
  emergency = none;
}

abbrev auth_view : AuthRuntimeView
auth_view = record {
  key_index = (5, key_record) ∷ [];
  denied_key_ids = [];
  accepted_peppers = "v1" ∷ [];
  trusted_now_s = 300;
}

abbrev entry : QueueEntry
entry = record {
  request_id = 40;
  key_id = 5;
  tier = 2;
  weight = 4;
  authorized_legs = authorized ∷ [];
  scarcity = scarce;
}

abbrev no_requests : WdrrQueue
no_requests = record {
  queued = [];
  fairness = no_fairness;
  next_sequence = 1;
  version = 0;
  max_consecutive_higher_grants = 8;
}

abbrev fresh : AdmissionController
fresh = record { queue = no_requests; waiters = []; active_by_key = []; max_waiters_global = 64 }

fresh-InStep : InStep fresh
fresh-InStep = record {
  agree = λ id. refl;
  few = omega arith;
  waiters_distinct = tt;
  queue_distinct = tt;
}

abbrev view : OperationalRuntimeView
view = record {
  recovery_state = JournalStatus.healthy;
  time_high_water_ms = 1000;
  accounts =
      record {
        account_id = 3;
        state = AccountState.active;
        parallel_limit = 2;
        active_attempts = 0;
        uncertain_attempts = 0;
        rpm_starts = 0;
        tpm_tokens = 0;
        monthly_quota_units = 0;
        account_circuit = closed_at 2;
        monthly_reset_at_ms = 0;
        recovery_probe_in_flight = false;
        consumed_probe_tokens = 0;
      }
      ∷ [];
  dispatches = [];
  circuits = [];
}

entry_made : entry_of admitted ≡ ok entry
unfolding queue_entry
entry_made = refl

abbrev waiting : AdmissionController
waiting = record fresh {
  queue = record no_requests {
    queued = (40, record { entry = entry; sequence = 1 }) ∷ [];
    next_sequence = 2;
    version = 1;
  };
  waiters = (40, new_waiter 1000 admitted) ∷ [];
}

admits : acquire 1000 view (ok auth_view) admitted fresh ≡ (waiting, ok tt)
unfolding acquire acquire_guards send_closed sync_runtime queued_identity_is_authorized queue_entry
    enqueue
admits = refl

abbrev renewals : List Renewal
renewals =
    record { engine = tables_of 9 bundle; auth_view = ok auth_view; queue = waiting.queue }
    ∷ record { engine = tables_of 9 bundle; auth_view = raised value_error; queue = waiting.queue }
    ∷ []

renewed-admitted_example :
    Tighter
      (renewed renewals (new_waiter 1000 admitted)).effective_ceiling
      (ceiling_of 1 (authorized ∷ []))
    × ((renewed renewals (new_waiter 1000 admitted)).effective_deadline_at_ms ≤ 6000)
    × ((renewed renewals (new_waiter 1000 admitted)).effective_deadline_at_ms ≤ 1000 + 5000)
renewed-admitted_example = renewed-admitted renewals 1000 admitted

abbrev moment : Moment
moment = record {
  now_ms = 1200;
  engine = tables_of 9 bundle;
  gate = λ leg manifest. ok true;
  auth_view = ok auth_view;
  view = view;
}

abbrev chosen : Candidate
chosen = record {
  authorized_leg = authorized;
  cause = DispatchCause.primary;
  account_circuit = closed_at 2;
  deployment_circuit = closed_at 0;
}

abbrev selection : QueueSelection
selection = record { entry = entry; queue_version = 1; fairness = no_fairness }

abbrev dispatching : AdmissionController
dispatching = record waiting { active_by_key = (5, 1) ∷ [] }

asks :
    dispatch_at moment selection [] DispatchCause.primary (chosen ∷ []) waiting (
      current_authorization moment.engine moment.auth_view waiting.queue (new_waiter 1000 admitted))
    ≡ (dispatching, ok (reserving selection (ceiling_of 1 (authorized ∷ [])) chosen))
unfolding current_authorization queued_identity_is_authorized authorize ceiling unique_legs
    intersection leg_meet capabilities_meet key_position sync_runtime select candidates eligible
    operationally_available can_send send_closed acquire_active
asks = refl

dispatch_at-Reserves_example :
    (identity_allows client (ok auth_view) ≡ true)
    × Tighter (ceiling_of 1 (authorized ∷ [])) (ceiling_of 1 (authorized ∷ []))
    × Reserves moment DispatchCause.primary []
        (chosen ∷ [])
        (current_authorization moment.engine moment.auth_view waiting.queue
          (new_waiter 1000 admitted)).0
        (ceiling_of 1 (authorized ∷ []))
        chosen
        dispatching
dispatch_at-Reserves_example =
    dispatch_at-Reserves moment selection selection [] DispatchCause.primary (chosen ∷ []) waiting
      dispatching (new_waiter 1000 admitted) (ceiling_of 1 (authorized ∷ [])) chosen asks

-- A leg that may also take what spills over: its account is at the limit of its request rate, which
-- the view does not show.
abbrev spilling : AuthorizedLeg
spilling = record authorized {
  allowed_triggers = RouteTrigger.primary ∷ RouteTrigger.capacity_spill ∷ [];
}

abbrev spill_bundle : PolicyBundle
spill_bundle = record bundle { policies = record policy { authorized_legs = spilling ∷ [] } ∷ [] }

abbrev spill_moment : Moment
spill_moment = record moment { engine = tables_of 9 spill_bundle }

abbrev falling_back : Waiter
falling_back =
    record (new_waiter 1000
      (record admitted { authorization_ceiling = ceiling_of 1 (spilling ∷ []) })) {
        fallback_once = some DispatchCause.capacity;
      }

abbrev spill_waiting : AdmissionController
spill_waiting = record waiting {
  queue = record waiting.queue {
    queued =
        (40, record { entry = record entry { authorized_legs = spilling ∷ [] }; sequence = 1 })
        ∷ [];
  };
  waiters = (40, falling_back) ∷ [];
}

abbrev rate_denial : ReservationDenied
rate_denial = record { reason = ReservationDenialReason.rpm_exhausted; retry_at_ms = some 60000 }

-- The pump asks again for the reservation that was just denied, from the state that it was denied
-- in: nothing is excluded between the two.
abbrev asked : AdmissionController × Result Turn
asked = turn spill_moment spill_moment [] spill_waiting

abbrev asked_for : Waiter
asked_for = record falling_back { fallback_once = none }

abbrev spill_asked : AdmissionController
spill_asked = record spill_waiting { waiters = (40, asked_for) ∷ []; active_by_key = (5, 1) ∷ [] }

asks_again :
    (s : QueueSelection) × (a : RequestAuthorizationCeiling) × (x : Candidate) × (asked
      ≡ (spill_asked, ok (reserving s a x)))
unfolding turn preview aligned propose propose_from minimum min_from oldest oldest_from choose_tier
    settle replenish key_order choose_key next_key fairness_after encode_state
    protected_scarce_accounts unprotected_accounts current_authorization
    queued_identity_is_authorized authorize ceiling unique_legs intersection leg_meet
    capabilities_meet key_position sync_runtime select candidates eligible operationally_available
    can_send send_closed acquire_active
asks_again = (_, _, _, refl)

denied_again : denied_reservation 40 asked_for rate_denial spill_asked ≡ (spill_waiting, again)
unfolding denied_reservation release_active denial_cause
denied_again = refl

moved-InStep_example : InStep (moved (Move.admits 1000 view (ok auth_view) admitted) fresh)
moved-InStep_example =
    moved-InStep (Move.admits 1000 view (ok auth_view) admitted) fresh
      ((omega arith, omega arith), refl, refl) fresh-InStep

-- A request whose ceiling has no leg is raised, and leaves a waiter that the queue has no entry for.
abbrev legless : AdmissionRequest
legless = record admitted {
  authorization_ceiling = record admitted.authorization_ceiling { authorized_legs = [] };
}

leaves_waiter : acquire 1000 view (ok auth_view) legless fresh ≡ (
  record fresh { waiters = (admitted.request_id, new_waiter 1000 legless) ∷ [] },
  raised value_error,
)
unfolding acquire acquire_guards send_closed sync_runtime queued_identity_is_authorized queue_entry
    enqueue
leaves_waiter = refl

sends : granted_reservation (ok tt) selection (new_waiter 1000 admitted) chosen 77 dispatching ≡ (
  record dispatching { queue = record waiting.queue { queued = []; version = 2 }; waiters = [] },
  ok tt,
)
unfolding granted_reservation record_send can_send send_closed commit
sends = refl
