-- ===== src/Gateway/Owner/Published.antt =====
-- What publications, one after the other, keep of the bindings and the epochs.
use llmmaxxing.Base.{
  ℕ, ◌≤◌, ◌≡◌, refl, sym, ap, ◌∙◌, subst, inl, inr, ◌&&◌, Option, none, some, List, [], ◌∷◌, arith,
  ◌==◌, Result, raised, ok, value_error, keep, nat_eq, list_eq, option_eq, bool_eq, string_eq,
  Bool-cases, is_some, or_default, ok-injective, ==_iff, guard-eq-ok, >>=-eq-ok,
}
use llmmaxxing.Base.Dict.{lookup, lookup_or, put, lookup-put_hit, lookup-put_other}
use llmmaxxing.Core.Ids.{AccountId, Digest}
use llmmaxxing.Core.Models.Accounts.{ProviderAccount}
use llmmaxxing.Gateway.Runtime.State.{AccountRuntime}
use llmmaxxing.Gateway.Owner.{
  Ledger, RuntimeState, Digests, binding_digest, attestation_digest, epoch_of, is_rebound,
  is_rollback, noted_epoch, noted_binding, publish_one, publish_all, published, staged_publication,
  apply_publication, install_at, install_next, install_each, validated_accounts, omitted_from,
  register_each, is_changed,
}
use llmmaxxing.Gateway.Owner.Bindings.{
  Owned, Advances, Advances-refl, Advances-trans, noted_binding-keeps, rollback-le,
}

noted_epoch-le :
    (digests : Digests) (a : ProviderAccount) (l : Ledger) (id : AccountId)
    → lookup_or a.account_id 0 l.credential_epoch_highwater ≤ epoch_of a
    → lookup_or id 0 l.credential_epoch_highwater
      ≤ lookup_or id 0 (noted_epoch digests a l).credential_epoch_highwater
noted_epoch-le digests a l id h = elim (Bool-cases (a.account_id == id)) [
  | inr away ↦
      subst (λ o. lookup_or id 0 l.credential_epoch_highwater ≤ or_default 0 o)
        (sym (lookup-put_other a.account_id id (epoch_of a) l.credential_epoch_highwater away))
        (omega arith)
  | inl here ↦
      subst (λ o. lookup_or id 0 l.credential_epoch_highwater ≤ or_default 0 o)
        (sym (lookup-put_hit a.account_id id (epoch_of a) l.credential_epoch_highwater here))
        (subst (λ i. lookup_or i 0 l.credential_epoch_highwater ≤ epoch_of a) ((==_iff _ _).0 here)
          h)
]

publish_one-keeps :
    (digests : Digests) (a : ProviderAccount) (l : Ledger) {m : Ledger}
    → publish_one digests a l ≡ ok m
    → Owned l
    → Owned m × Advances l m
unfolding publish_one
publish_one-keeps digests a l h owned =
    let (bound_before, h1) =
      guard-eq-ok (is_rebound (lookup a.account_id l.account_binding) (binding_digest digests a))
        value_error _ h in
    let (b, made, h2) = >>=-eq-ok (noted_binding a (binding_digest digests a) l) _ h1 in
    let (recent, h3) =
      guard-eq-ok
        (is_rollback (epoch_of a) (lookup_or a.account_id 0 l.credential_epoch_highwater)
          (lookup a.account_id l.credential_attestation_digest) (attestation_digest digests a))
        value_error _ h2 in
    let (kept, advanced, same_epochs) =
      noted_binding-keeps a (binding_digest digests a) l bound_before made owned in
    subst (λ m. Owned m × Advances l m) (ok-injective h3)
      (
        kept,
        record {
          owners = advanced.owners;
          bindings = advanced.bindings;
          epochs = λ id.
              subst
                (λ d.
                  lookup_or id 0 d
                  ≤ lookup_or id 0 (put a.account_id (epoch_of a) b.credential_epoch_highwater))
                same_epochs
                (noted_epoch-le digests a b id (
                  subst (λ d. lookup_or a.account_id 0 d ≤ epoch_of a) (sym same_epochs)
                    (rollback-le (epoch_of a) _
                      (lookup a.account_id l.credential_attestation_digest) _ recent)));
        },
      )

publish_all-keeps :
    (digests : Digests) (accounts : List ProviderAccount) (l : Ledger) {m : Ledger}
    → publish_all digests accounts l ≡ ok m
    → Owned l
    → Owned m × Advances l m
publish_all-keeps digests [] l h owned =
    subst (λ m. Owned m × Advances l m) (ok-injective h) (owned, Advances-refl l)
publish_all-keeps digests (a ∷ as') l {m} h owned =
    let (next, one, rest) = >>=-eq-ok (publish_one digests a l) _ h in
    let (kept, first) = publish_one-keeps digests a l one owned in
    let (kept', later) = publish_all-keeps digests as' next rest kept in
    (kept', Advances-trans l next m first later)

install_at-ledger :
    (clock_ms : ℕ) (a : ProviderAccount) (s : RuntimeState) (o : Option AccountRuntime)
    → (install_at clock_ms a s o).0.ledger ≡ s.ledger
install_at-ledger clock_ms a s none = refl
install_at-ledger clock_ms a s (some rt) = refl

install_next-ledger :
    (rest : RuntimeState → RuntimeState × Result (Unit {0})) (p : RuntimeState × Result (Unit {0}))
    → ((s : RuntimeState) → (rest s).0.ledger ≡ s.ledger)
    → (install_next rest p).0.ledger ≡ p.0.ledger
install_next-ledger rest (s, raised e) h = refl
install_next-ledger rest (s, ok u) h = h s

install_each-ledger :
    (clock_ms : ℕ) (accounts : List ProviderAccount) (s : RuntimeState)
    → (install_each clock_ms accounts s).0.ledger ≡ s.ledger
install_each-ledger clock_ms [] s = refl
install_each-ledger clock_ms (a ∷ as') s =
    install_next-ledger (install_each clock_ms as')
      (install_at clock_ms a s (lookup a.account_id s.runtimes)) (install_each-ledger clock_ms as')
    ∙ install_at-ledger clock_ms a s (lookup a.account_id s.runtimes)

abbrev Kept : RuntimeState → RuntimeState → Type 0
Kept s s' = Owned s'.ledger × Advances s.ledger s'.ledger

published-Kept :
    (clock_ms : ℕ) (checkpoint : Result (Unit {0})) (s : RuntimeState)
    (r : Result (Ledger × List ProviderAccount))
    → Owned s.ledger
    → ((l : Ledger) (accounts : List ProviderAccount)
        → r ≡ ok (l, accounts)
        → Owned l × Advances s.ledger l)
    → Kept s (published clock_ms checkpoint s r).0
published-Kept clock_ms checkpoint s (raised e) owned h = (owned, Advances-refl s.ledger)
published-Kept clock_ms checkpoint s (ok (l, accounts)) owned h =
    subst (λ x. Owned x × Advances s.ledger x)
      (sym (install_each-ledger clock_ms accounts (record s { ledger = l }))) (h l accounts refl)

staged-keeps :
    (digests : Digests) (register : ProviderAccount → Result (Unit {0}))
    (accounts : List ProviderAccount) (s : RuntimeState) {l : Ledger}
    {staged : List ProviderAccount}
    → staged_publication digests register accounts s ≡ ok (l, staged)
    → Owned s.ledger
    → Owned l × Advances s.ledger l
unfolding staged_publication
staged-keeps digests register accounts s h owned =
    let (validated, _, h1) = >>=-eq-ok (validated_accounts accounts) _ h in
    let (ledger, made, h2) = >>=-eq-ok (publish_all digests validated s.ledger) _ h1 in
    let (omitted, _, h3) = >>=-eq-ok (omitted_from _ s.runtimes) _ h2 in
    let (_, _, h4) =
      >>=-eq-ok
        (register_each register
          (keep (λ a. is_changed s a && is_some (binding_digest digests a)) validated))
        _ h3 in
    let (_, _, h5) = >>=-eq-ok (register_each register omitted) _ h4 in
    subst (λ x. Owned x × Advances s.ledger x)
      (ap (λ (x : Ledger × List ProviderAccount). x.0) (ok-injective h5))
      (publish_all-keeps digests validated s.ledger made owned)

-- One call of `apply_publication`, with what it meets.
pub record Publication : Type 0 where
  pub accounts : List ProviderAccount
  pub register : ProviderAccount → Result (Unit {0})
  pub checkpoint : Result (Unit {0})
  pub clock_ms : ℕ

-- Publications one after the other, those that raise included.
abbrev pub after_publications : Digests → List Publication → RuntimeState → RuntimeState
after_publications digests [] s = s
after_publications digests (p ∷ ps) s =
    after_publications digests ps
      (apply_publication digests p.register p.checkpoint p.clock_ms p.accounts s).0

-- Whatever is published, and whichever calls raise: every binding keeps the owner that it has, every
-- account keeps its binding, no epoch of a credential sinks, and each account's binding stays
-- noted as that account's.
pub after_publications-Advances :
    (digests : Digests) (ps : List Publication) (s : RuntimeState)
    → Owned s.ledger
    → Owned (after_publications digests ps s).ledger
      × Advances s.ledger (after_publications digests ps s).ledger
unfolding apply_publication
after_publications-Advances digests [] s owned = (owned, Advances-refl s.ledger)
after_publications-Advances digests (p ∷ ps) s owned =
    let s' =
      (published p.clock_ms p.checkpoint s
        (staged_publication digests p.register p.accounts s)).0 in
    let (kept, first) =
      published-Kept p.clock_ms p.checkpoint s (staged_publication digests p.register p.accounts s)
        owned (λ l accounts h. staged-keeps digests p.register p.accounts s h owned) in
    let (kept', later) = after_publications-Advances digests ps s' kept in
    (kept', Advances-trans s.ledger s'.ledger (after_publications digests ps s').ledger first later)

-- After any publications, no two accounts have one binding, tombstoned accounts included.
pub after_publications_unique :
    (digests : Digests) (ps : List Publication) (s : RuntimeState) (i j : AccountId)
    (digest : Digest)
    → Owned s.ledger
    → lookup i (after_publications digests ps s).ledger.account_binding ≡ some digest
    → lookup j (after_publications digests ps s).ledger.account_binding ≡ some digest
    → i ≡ j
after_publications_unique digests ps s i j digest owned h k =
    let (kept, _) = after_publications-Advances digests ps s owned in
    some-injective (sym (kept i digest h) ∙ kept j digest k)
  where
    some-injective : {x y : AccountId} → some x ≡ some y → x ≡ y
    some-injective e = cc
