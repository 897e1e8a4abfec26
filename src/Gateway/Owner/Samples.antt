-- ===== src/Gateway/Owner/Samples.antt =====
-- A publication of one account.
use llmmaxxing.Base.{
  ℕ, ◌+◌, ◌≡◌, refl, some, [], ◌∷◌, raised, ok, value_error, length, nat_eq, list_eq, option_eq,
  bool_eq, string_eq,
}
use llmmaxxing.Base.Dict.{lookup}
use llmmaxxing.Core.Models.Accounts.{
  derive_and_guard_state, guard_attested, fully_attested, is_bound, has_credential,
}
use llmmaxxing.Gateway.Fixtures.{account}
use llmmaxxing.Gateway.Owner.{
  RuntimeState, Digests, apply_publication, staged_publication, validated_accounts, publish_one,
  validate_publication,
}
use llmmaxxing.Gateway.Owner.Bindings.{Owned, Advances}
use llmmaxxing.Gateway.Runtime.Recovery.{capacity}
use llmmaxxing.Gateway.Runtime.Requests.{JournalStatus}
use llmmaxxing.Gateway.Owner.Operational.{operational_view}
use llmmaxxing.Gateway.Owner.Published.{
  Publication, after_publications, after_publications-Advances, after_publications_unique,
}

abbrev no_accounts : RuntimeState
no_accounts = record {
  runtimes = [];
  ledger = record {
    binding_history = [];
    account_binding = [];
    credential_epoch_highwater = [];
    credential_attestation_digest = [];
  };
  dormant_account_states = [];
  resolution_ledger_limit = 10;
  resolution_retention_ms = 1000;
}

abbrev digests : Digests
digests = record { of_binding = λ texts. 70 + length texts; of_attestation = λ text. 80 }

abbrev publication : Publication
publication = record {
  accounts = account ∷ [];
  register = λ a. ok tt;
  checkpoint = ok tt;
  clock_ms = 500;
}

empty-Owned : Owned no_accounts.ledger
empty-Owned id digest h = cc

binds :
    lookup 3 (after_publications digests (publication ∷ []) no_accounts).ledger.account_binding
    ≡ some 73
unfolding apply_publication staged_publication validated_accounts publish_one derive_and_guard_state
    guard_attested fully_attested is_bound has_credential
binds = refl

-- The binding of one account is refused to another one.
refuses :
    validate_publication digests
      (record account { account_id = 4 } ∷ [])
      (after_publications digests (publication ∷ []) no_accounts)
    ≡ raised value_error
unfolding validate_publication apply_publication staged_publication validated_accounts publish_one
    derive_and_guard_state guard_attested fully_attested is_bound has_credential
refuses = refl

-- A view of the state after the publication has the one account.
sees :
    length
      (operational_view JournalStatus.healthy 700
        (after_publications digests (publication ∷ []) no_accounts)).1.accounts
    ≡ 1
unfolding operational_view capacity apply_publication staged_publication validated_accounts
    publish_one derive_and_guard_state guard_attested fully_attested is_bound has_credential
sees = refl

after_publications-Advances_example :
    Owned (after_publications digests (publication ∷ []) no_accounts).ledger
    × Advances no_accounts.ledger (after_publications digests (publication ∷ []) no_accounts).ledger
after_publications-Advances_example =
    after_publications-Advances digests (publication ∷ []) no_accounts empty-Owned

after_publications_unique_example : ◌≡◌ {A = ℕ} 3 3
after_publications_unique_example =
    after_publications_unique digests (publication ∷ []) no_accounts 3 3 73 empty-Owned binds binds
