-- ===== src/Gateway/Owner/Bindings.antt =====
-- What publications keep: a provider binding has one owner for ever, an account one binding, and the
-- epoch of its credential never sinks.
use llmmaxxing.Base.{
  ℕ, ◌≤◌, ◌≡◌, refl, sym, ap, ◌∙◌, subst, inl, inr, false, Option, none, some, arith, ltb, ◌==◌, ok,
  value_error, nat_eq, list_eq, option_eq, bool_eq, string_eq, Bool-cases, both_false, negated_true,
  ltb-false, ok-injective, same→eq, ==_iff, guard-eq-ok,
}
use llmmaxxing.Base.Dict.{Dict, lookup, lookup_or, put, lookup-put_hit, lookup-put_other}
use llmmaxxing.Core.Ids.{AccountId, Digest}
use llmmaxxing.Core.Models.Accounts.{ProviderAccount}
use llmmaxxing.Gateway.Owner.{Ledger, is_rebound, is_taken, is_rollback, noted_binding}

-- Every binding that an account has is noted as that account's.
abbrev pub Owned : Ledger → Type 0
Owned l =
    (id : AccountId) (digest : Digest)
    → lookup id l.account_binding ≡ some digest
    → lookup digest l.binding_history ≡ some id

-- `new` forgets no binding of `old`, and has no lower epoch.
pub record Advances (old new : Ledger) : Type 0 where
  pub owners :
      (digest : Digest) (id : AccountId)
      → lookup digest old.binding_history ≡ some id
      → lookup digest new.binding_history ≡ some id
  pub bindings :
      (id : AccountId) (digest : Digest)
      → lookup id old.account_binding ≡ some digest
      → lookup id new.account_binding ≡ some digest
  pub epochs :
      (id : AccountId)
      → lookup_or id 0 old.credential_epoch_highwater
        ≤ lookup_or id 0 new.credential_epoch_highwater

pub Advances-refl : (l : Ledger) → Advances l l
Advances-refl l = record {
  owners = λ digest id h. h;
  bindings = λ id digest h. h;
  epochs = λ id. omega arith;
}

pub Advances-trans : (k l m : Ledger) → Advances k l → Advances l m → Advances k m
Advances-trans k l m a b = record {
  owners = λ digest id h. b.owners digest id (a.owners digest id h);
  bindings = λ id digest h. b.bindings id digest (a.bindings id digest h);
  epochs = λ id. omega (arith, a.epochs id, b.epochs id);
}

-- Putting a value that was there, or where nothing was, keeps every lookup that answered.
pub put-keeps :
    {V : Type 0} (k j : ℕ) (v w : V) (d : Dict ℕ V)
    → ((u : V) → lookup k d ≡ some u → u ≡ v)
    → lookup j d ≡ some w
    → lookup j (put k v d) ≡ some w
put-keeps k j v w d same_value h = elim (Bool-cases (k == j)) [
  | inr away ↦ lookup-put_other k j v d away ∙ h
  | inl here ↦
      lookup-put_hit k j v d here
      ∙ ap some
          (sym (same_value w (subst (λ i. lookup i d ≡ some w) (sym ((==_iff k j).0 here)) h)))
]

taken-same :
    (id : AccountId) (o : Option AccountId) (u : AccountId)
    → is_taken id o ≡ false
    → o ≡ some u
    → u ≡ id
taken-same id none u t h = cc
taken-same id (some owner) u t h = sym (some-injective h) ∙ (==_iff _ _).0 (negated_true _ t)
  where
    some-injective : {a b : AccountId} → some a ≡ some b → a ≡ b
    some-injective k = cc

rebound-same :
    (o : Option Digest) (digest u : Digest)
    → is_rebound o (some digest) ≡ false
    → o ≡ some u
    → u ≡ digest
rebound-same none digest u t h = cc
rebound-same (some previous) digest u t h =
    some-injective (sym h ∙ same→eq (some previous) (some digest) (negated_true _ t))
  where
    some-injective : {a b : Digest} → some a ≡ some b → a ≡ b
    some-injective k = cc

pub rollback-le :
    (epoch highwater : ℕ) (o : Option Digest) (attestation : Digest)
    → is_rollback epoch highwater o attestation ≡ false
    → highwater ≤ epoch
rollback-le epoch highwater none attestation h = ltb-false _ _ h
rollback-le epoch highwater (some previous) attestation h =
    ltb-false _ _ (both_false (ltb epoch highwater) _ h).0

pub noted_binding-keeps :
    (a : ProviderAccount) (o : Option Digest) (l : Ledger) {m : Ledger}
    → is_rebound (lookup a.account_id l.account_binding) o ≡ false
    → noted_binding a o l ≡ ok m
    → Owned l
    → Owned m × Advances l m × (m.credential_epoch_highwater ≡ l.credential_epoch_highwater)
noted_binding-keeps a none l b h owned =
    subst
      (λ m. Owned m × Advances l m × (m.credential_epoch_highwater ≡ l.credential_epoch_highwater))
      (ok-injective h) (owned, Advances-refl l, refl)
noted_binding-keeps a (some digest) l b h owned =
    let (free, made) =
      guard-eq-ok (is_taken a.account_id (lookup digest l.binding_history)) value_error _ h in
    subst
      (λ m. Owned m × Advances l m × (m.credential_epoch_highwater ≡ l.credential_epoch_highwater))
      (ok-injective made)
      (
        λ id d e. elim (Bool-cases (a.account_id == id)) [
          | inl here ↦
              lookup-put_hit digest d a.account_id l.binding_history (
                (==_iff _ _).1 (
                  some-injective
                    (sym (lookup-put_hit a.account_id id digest l.account_binding here) ∙ e)))
              ∙ ap some ((==_iff _ _).0 here)
          | inr away ↦
              put-keeps digest d a.account_id id l.binding_history
                (λ u. taken-same a.account_id _ u free)
                (owned id d
                  (sym (lookup-put_other a.account_id id digest l.account_binding away) ∙ e))
        ],
        record {
          owners = λ d id e.
              put-keeps digest d a.account_id id l.binding_history
                (λ u. taken-same a.account_id _ u free) e;
          bindings = λ id d e.
              put-keeps a.account_id id digest d l.account_binding (λ u. rebound-same _ digest u b)
                e;
          epochs = λ id. omega arith;
        },
        refl,
      )
  where
    some-injective : {x y : Digest} → some x ≡ some y → x ≡ y
    some-injective k = cc
