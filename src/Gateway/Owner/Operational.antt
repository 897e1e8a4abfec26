-- ===== src/Gateway/Owner/Operational.antt =====
-- src/llmmaxxing/gateway/runtime_state.py: `RuntimeState.operational_view` and its `try_reserve`. A view
-- reads each account's capacity, which rolls that account's windows on, so the state that it
-- leaves is returned too. The journal's status is an argument.
use llmmaxxing.Base.{
  ℕ, max, Bool, true, false, ◌&&◌, ◌||◌, Option, none, some, List, [], ◌∷◌, ◌++◌, map, ltb, ◌==◌,
  if◌then◌else◌, Result, ok, nat_eq, list_eq, option_eq, bool_eq, string_eq, sort_by,
}
use llmmaxxing.Base.Dict.{Dict, lookup, put, values, dict_by}
use llmmaxxing.Core.Ids.{AccountId, Digest}
use llmmaxxing.Core.Models.Legs.{RequestProfile}
use llmmaxxing.Core.Models.Bundles.{concat_map}
use llmmaxxing.Gateway.Runtime.Requests.{
  Dispatch, dispatch_of, Journal, JournalStatus, ReservationRequest, Reservation,
  ReservationDenialReason, denied,
}
use llmmaxxing.Gateway.Runtime.State.{AccountRuntime}
use llmmaxxing.Gateway.Runtime.Recovery.{AccountCapacity, capacity}
use llmmaxxing.Gateway.Runtime.Reserve.{try_reserve}
use llmmaxxing.Gateway.Runtime.Views.{OperationalRuntimeView, CircuitOperationalValue}
use llmmaxxing.Gateway.Owner.{RuntimeState}

-- `sorted(items, key=lambda item: str(item[0]))`
abbrev pub by_id {ℓ} : {V : Type ℓ} → List (ℕ × V) → List (ℕ × V)
by_id items = sort_by (λ a b. ltb a.0 b.0) items

-- The capacities in order, each read from its runtime.
abbrev pub capacities :
    ℕ
    → List (AccountId × AccountRuntime)
    → Dict AccountId AccountRuntime
    → Dict AccountId AccountRuntime × List AccountCapacity
capacities clock_ms [] runtimes = (runtimes, [])
capacities clock_ms ((id, rt) ∷ items) runtimes =
    let (rt', read) = capacity clock_ms rt in
    let (after, rest) = capacities clock_ms items (put id rt' runtimes) in (after, read ∷ rest)

abbrev pub those_there : List (Option Dispatch) → List Dispatch
those_there [] = []
those_there (none ∷ xs) = those_there xs
those_there (some d ∷ xs) = d ∷ those_there xs

-- What one account has sent: its attempts, then what it has resolved.
abbrev pub dispatched_of : AccountRuntime → List Dispatch
dispatched_of rt =
    those_there (map (λ a. dispatch_of a) (values rt.attempts))
    ++ those_there (map (λ r. r.dispatch) (values rt.resolutions))

abbrev pub dispatch_before : Dispatch → Dispatch → Bool
dispatch_before a b =
    ltb a.dispatched_at_ms b.dispatched_at_ms
    || a.dispatched_at_ms == b.dispatched_at_ms && ltb a.attempt_id b.attempt_id

-- One dispatch for each attempt, in the order of their times.
unfoldable pub dispatches_of : Dict AccountId AccountRuntime → List Dispatch
dispatches_of runtimes =
    sort_by dispatch_before
      (values (dict_by (λ d. d.attempt_id) (concat_map dispatched_of (values runtimes))))

abbrev pub circuits_of : AccountId × AccountRuntime → List CircuitOperationalValue
circuits_of (id, rt) =
    map (λ item. record { account_id = id; deployment_generation_id = item.0; value = item.1 })
      (by_id rt.circuits)

abbrev pub latest : ℕ → List AccountRuntime → ℕ
latest clock_ms [] = clock_ms
latest clock_ms (rt ∷ []) = rt.time_high_water_ms
latest clock_ms (rt ∷ next ∷ rts) =
    let rest = latest clock_ms (next ∷ rts) in max rt.time_high_water_ms rest

unfoldable pub operational_view :
    JournalStatus → ℕ → RuntimeState → RuntimeState × OperationalRuntimeView
operational_view status clock_ms s =
    let (runtimes, accounts) = capacities clock_ms (by_id s.runtimes) s.runtimes in
    (
      record s { runtimes = runtimes },
      record {
        recovery_state = status;
        time_high_water_ms = latest clock_ms (values runtimes);
        accounts = accounts;
        dispatches = dispatches_of runtimes;
        circuits = concat_map circuits_of (by_id runtimes);
      },
    )

abbrev pub recovery_required : JournalStatus → Bool
recovery_required status = elim status [ JournalStatus.recovery_required ↦ true | _ ↦ false ]

abbrev refused_for : ReservationDenialReason → Result Reservation
refused_for reason = ok (denied (record { reason = reason; retry_at_ms = none }))

abbrev pub reserve_in :
    (RequestProfile → Digest)
    → Journal
    → ℕ
    → ReservationRequest
    → RuntimeState
    → Option AccountRuntime
    → RuntimeState × Result Reservation
reserve_in profile_digest journal clock_ms r s none =
    (s, refused_for ReservationDenialReason.account_not_found)
reserve_in profile_digest journal clock_ms r s (some rt) =
    let (rt', answer) = try_reserve profile_digest journal clock_ms r rt in
    (record s { runtimes = put r.account_id rt' s.runtimes }, answer)

-- `try_reserve` of the owner.
unfoldable pub reserve :
    (RequestProfile → Digest)
    → Journal
    → ℕ
    → ReservationRequest
    → RuntimeState
    → RuntimeState × Result Reservation
reserve profile_digest journal clock_ms r s =
    if recovery_required journal.status
    then (s, refused_for ReservationDenialReason.recovery_required)
    else reserve_in profile_digest journal clock_ms r s (lookup r.account_id s.runtimes)
