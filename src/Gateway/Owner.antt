-- ===== src/Gateway/Owner.antt =====
-- src/llmmaxxing/gateway/runtime_state.py: `RuntimeState`, the owner of the accounts' runtimes, and the
-- publication of a bundle's accounts. The two SHA-256 digests, the journal's answer to each
-- `register_account` and what restoring a dormant account's snapshot does are parameters.
pub mod Operational
pub mod Bindings
pub mod Published
mod Samples
use Prim.Native.String.{String}
use llmmaxxing.Base.{
  ℕ, suc, ◌+◌, ◌-◌, ◌*◌, ◌/◌, ◌%◌, ◌≤◌, ◌<◌, min, max, ◌≡◌, refl, sym, ap, ◌∙◌, subst, ◌≢◌, ◌↔◌,
  ◌⊎◌, inl, inr, Bool, true, false, not, ◌&&◌, ◌||◌, Option, none, some, List, [], ◌∷◌, ◌++◌, map,
  arith, ltb, leb, ◌==◌, if◌then◌else◌, Result, raised, ok, ◌>>=◌, ◌>>◌, raise_if, or_raise,
  value_error, same, contains, unique, keep, find, any, all, null, length, Has, nat_eq, list_eq,
  option_eq, bool_eq, string_eq, Bool-cases, both_true, both_false, negated_true, negated_false,
  if_true, if_false, is_some, or_default, Option-cases, All,
}
use llmmaxxing.Base.{key_error}
use llmmaxxing.Base.Dict.{Dict, lookup, lookup_or, put, remove, values}
use llmmaxxing.Core.Ids.{AccountId, Digest}
use llmmaxxing.Core.StateMachines.{AccountState}
use llmmaxxing.Core.Models.Legs.{RequestProfile}
use llmmaxxing.Core.Models.Accounts.{
  ProviderAccount, binding, truthy, derive_and_guard_state, state_is_active,
}
use llmmaxxing.Core.Models.Bundles.Validate.{each}
use llmmaxxing.Gateway.Runtime.Requests.{
  Journal, JournalStatus, ReservationRequest, Reservation, ReservationDenialReason, denied,
}
use llmmaxxing.Gateway.Runtime.State.{AccountRuntime, new_runtime}
use llmmaxxing.Gateway.Runtime.Recovery.{update_account}
use llmmaxxing.Gateway.Runtime.Reserve.{try_reserve}

-- What has been seen of each account's binding and credential, tombstoned accounts included.
pub record Ledger : Type 0 where
  pub binding_history : Dict Digest AccountId
  pub account_binding : Dict AccountId Digest
  pub credential_epoch_highwater : Dict AccountId ℕ
  pub credential_attestation_digest : Dict AccountId Digest

pub record RuntimeState : Type 0 where
  pub runtimes : Dict AccountId AccountRuntime
  pub ledger : Ledger
  pub dormant_account_states : Dict AccountId (AccountRuntime → AccountRuntime)
  pub resolution_ledger_limit : ℕ
  pub resolution_retention_ms : ℕ

pub record Digests : Type 0 where
  pub of_binding : List String → Digest
  pub of_attestation : String → Digest

-- `_binding_digest`: the empty text is `none`.
abbrev pub binding_digest : Digests → ProviderAccount → Option Digest
binding_digest digests a =
    if not (all truthy (binding a)) then none else some (digests.of_binding (binding a))

-- `_attestation_digest`
abbrev pub attestation_digest : Digests → ProviderAccount → Digest
attestation_digest digests a = digests.of_attestation (or_default "" a.credential_fingerprint)

abbrev pub epoch_of : ProviderAccount → ℕ
epoch_of a = or_default 0 a.credential_epoch

-- The account had another binding before.
abbrev pub is_rebound : Option Digest → Option Digest → Bool
is_rebound none digest = false
is_rebound (some previous) digest = not (same (some previous) digest)

-- Another account has, or had, this binding.
abbrev pub is_taken : AccountId → Option AccountId → Bool
is_taken account_id none = false
is_taken account_id (some owner) = not (owner == account_id)

abbrev pub is_rollback : ℕ → ℕ → Option Digest → Digest → Bool
is_rollback epoch highwater none attestation = ltb epoch highwater
is_rollback epoch highwater (some previous) attestation =
    ltb epoch highwater || epoch == highwater && not (attestation == previous)

abbrev pub noted_epoch : Digests → ProviderAccount → Ledger → Ledger
noted_epoch digests a l = record l {
  credential_epoch_highwater = put a.account_id (epoch_of a) l.credential_epoch_highwater;
  credential_attestation_digest =
      put a.account_id (attestation_digest digests a) l.credential_attestation_digest;
}

-- The tests of an account with its binding, and what is then noted of it.
abbrev pub noted_binding : ProviderAccount → Option Digest → Ledger → Result Ledger
noted_binding a none l = ok l
noted_binding a (some digest) l = do
  raise_if (is_taken a.account_id (lookup digest l.binding_history)) value_error
  ok (record l {
    binding_history = put digest a.account_id l.binding_history;
    account_binding = put a.account_id digest l.account_binding;
  })

-- The body of the loop over the published accounts, in `validate_publication` and in
-- `apply_publication`. The failures of both kinds are `ValueError`s.
unfoldable pub publish_one : Digests → ProviderAccount → Ledger → Result Ledger
publish_one digests a l = do
  raise_if (is_rebound (lookup a.account_id l.account_binding) (binding_digest digests a))
      value_error
  bound ← noted_binding a (binding_digest digests a) l
  raise_if
      (is_rollback (epoch_of a) (lookup_or a.account_id 0 l.credential_epoch_highwater)
        (lookup a.account_id l.credential_attestation_digest) (attestation_digest digests a))
      value_error
  ok (noted_epoch digests a bound)

abbrev pub publish_all : Digests → List ProviderAccount → Ledger → Result Ledger
publish_all digests [] l = ok l
publish_all digests (a ∷ as') l = do next ← publish_one digests a l; publish_all digests as' next

-- The accounts that the publication leaves out while they are active, disabled.
abbrev pub omitted_from :
    List AccountId → Dict AccountId AccountRuntime → Result (List ProviderAccount)
omitted_from selected [] = ok []
omitted_from selected ((id, rt) ∷ items) = do
  rest ← omitted_from selected items
  (if not (contains id selected) && state_is_active rt.account.state
      then derive_and_guard_state (record rt.account { state = some AccountState.disabled })
        >>= (λ a. ok (a ∷ rest))
      else ok rest)

abbrev account_ids_of : List ProviderAccount → List AccountId
account_ids_of accounts = map (λ a. a.account_id) accounts

-- `ProviderAccount.model_validate` of each, and the test of their ids.
unfoldable pub validated_accounts : List ProviderAccount → Result (List ProviderAccount)
validated_accounts accounts = do
  validated ← each derive_and_guard_state accounts
  raise_if (not (unique (account_ids_of validated))) value_error
  ok validated

-- `validate_publication`
unfoldable pub validate_publication :
    Digests → List ProviderAccount → RuntimeState → Result (Unit {0})
validate_publication digests accounts s = do
  validated ← validated_accounts accounts
  ledger ← publish_all digests validated s.ledger
  omitted ← omitted_from (account_ids_of validated) s.runtimes
  ok tt

abbrev account_state_code : Option AccountState → ℕ
account_state_code none = 0
account_state_code (some AccountState.draft) = 1
account_state_code (some AccountState.active) = 2
account_state_code (some AccountState.disabled) = 3
account_state_code (some AccountState.tombstoned) = 4

abbrev state_differs : Option AccountRuntime → ProviderAccount → Bool
state_differs none a = true
state_differs (some rt) a = not (account_state_code rt.account.state == account_state_code a.state)

-- The account's state, binding or credential is new, so that the journal is told. Since the ids are
-- unique, the tables of the loop hold for the account what they held before the loop.
abbrev pub is_changed : RuntimeState → ProviderAccount → Bool
is_changed s a =
    not (is_some (lookup a.account_id s.ledger.account_binding))
    || ltb (lookup_or a.account_id 0 s.ledger.credential_epoch_highwater) (epoch_of a)
    || state_differs (lookup a.account_id s.runtimes) a

-- The journal is told of each account of the list.
abbrev pub register_each :
    (ProviderAccount → Result (Unit {0})) → List ProviderAccount → Result (Unit {0})
register_each register [] = ok tt
register_each register (a ∷ as') = do done ← register a; register_each register as'

abbrev revived : Option (AccountRuntime → AccountRuntime) → AccountRuntime → AccountRuntime
revived none rt = rt
revived (some restore) rt = restore rt

-- A published account gets a runtime, or changes the one that it has.
abbrev pub install_at :
    ℕ → ProviderAccount → RuntimeState → Option AccountRuntime → RuntimeState × Result (Unit {0})
install_at clock_ms a s none = (
  record s {
    runtimes =
        put a.account_id
          (revived (lookup a.account_id s.dormant_account_states)
            (new_runtime a s.resolution_ledger_limit s.resolution_retention_ms clock_ms))
          s.runtimes;
    dormant_account_states = remove a.account_id s.dormant_account_states;
  },
  ok tt,
)
install_at clock_ms a s (some rt) =
    let (rt', answer) = update_account a clock_ms rt in
    (record s { runtimes = put a.account_id rt' s.runtimes }, answer)

abbrev install_next :
    (RuntimeState → RuntimeState × Result (Unit {0}))
    → RuntimeState × Result (Unit {0})
    → RuntimeState × Result (Unit {0})
install_next rest (s, raised e) = (s, raised e)
install_next rest (s, ok u) = rest s

abbrev pub install_each : ℕ → List ProviderAccount → RuntimeState → RuntimeState × Result (Unit {0})
install_each clock_ms [] s = (s, ok tt)
install_each clock_ms (a ∷ as') s =
    install_next (install_each clock_ms as')
      (install_at clock_ms a s (lookup a.account_id s.runtimes))

-- What `apply_publication` settles before it changes anything.
unfoldable pub staged_publication :
    Digests
    → (ProviderAccount → Result (Unit {0}))
    → List ProviderAccount
    → RuntimeState
    → Result (Ledger × List ProviderAccount)
staged_publication digests register accounts s = do
  validated ← validated_accounts accounts
  ledger ← publish_all digests validated s.ledger
  omitted ← omitted_from (account_ids_of validated) s.runtimes
  told ←
      register_each register
        (keep (λ a. is_changed s a && is_some (binding_digest digests a)) validated)
  told' ← register_each register omitted
  ok (ledger, validated ++ omitted)

abbrev pub published :
    ℕ
    → Result (Unit {0})
    → RuntimeState
    → Result (Ledger × List ProviderAccount)
    → RuntimeState × Result (Unit {0})
published clock_ms checkpoint s (raised e) = (s, raised e)
published clock_ms checkpoint s (ok (ledger, accounts)) =
    let (s', answer) = install_each clock_ms accounts (record s { ledger = ledger }) in
    (s', answer >>= λ u. checkpoint)

-- `apply_publication`
unfoldable pub apply_publication :
    Digests
    → (ProviderAccount → Result (Unit {0}))
    → Result (Unit {0})
    → ℕ
    → List ProviderAccount
    → RuntimeState
    → RuntimeState × Result (Unit {0})
apply_publication digests register checkpoint clock_ms accounts s =
    published clock_ms checkpoint s (staged_publication digests register accounts s)

-- `account_runtime`
unfoldable pub account_runtime : AccountId → RuntimeState → Result AccountRuntime
account_runtime account_id s = or_raise (lookup account_id s.runtimes) key_error
