-- ===== src/Gateway/Queue/Contraction.antt =====
-- src/llmmaxxing/gateway/scheduler.py, `WDRRQueue.contract`: an activation can only narrow what a
-- queued request was admitted with.
use llmmaxxing.Base.{
  ℕ, ◌+◌, ◌≤◌, ◌≡◌, refl, sym, subst, inl, inr, true, false, not, ◌||◌, Option, none, some, List,
  arith, ltb, Option-cases, same→eq, any-none, Has, null, unique, map, ok, ok-injective,
  or_raise-eq-ok, guard-eq-ok, >>=-eq-ok, value_error, key_error, nat_eq, list_eq,
}
use llmmaxxing.Base.Dict.{lookup, put, dict_by, lookup-dict_by}
use llmmaxxing.Core.Ids.{RequestId}
use llmmaxxing.Core.Models.Legs.{AuthorizedLeg, identity, leg_meet, leg_eq}
use llmmaxxing.Core.Models.Legs.Meet.{Contracts, leg_meet-lower}
use llmmaxxing.Gateway.Queue.{WdrrQueue, leg_contracts, expands, contract, or_else, legs_or_else}
use llmmaxxing.Gateway.Queue.Entries.{QueueEntry, Queued, queue_entry}

-- `_leg_contracts` accepts only a leg of the same identity that is no wider.
pub leg_contracts-Contracts :
    (old new : AuthorizedLeg) → leg_contracts old new ≡ true → Contracts new old
unfolding leg_contracts
leg_contracts-Contracts old new h = elim (Option-cases (leg_meet old new)) [
  | inl e ↦ absurd (ground (arith, e))
  | inr (m, e) ↦
      let is_new = same→eq m new (ground (arith, e)) in
      subst (λ n. Contracts n old) is_new (leg_meet-lower old new e).0
]

-- Every new leg narrows an old one.
abbrev pub LegsContract : List AuthorizedLeg → List AuthorizedLeg → Type 0
LegsContract new old =
    (leg : AuthorizedLeg)
    → Has leg new
    → (previous : AuthorizedLeg) × Has previous old × Contracts leg previous

expands-LegsContract :
    (old new : List AuthorizedLeg) → expands old new ≡ false → LegsContract new old
unfolding expands
expands-LegsContract old new h leg m =
    elim (Option-cases (lookup (identity leg) (dict_by identity old))) [
      | inl e ↦ absurd (ground (arith, e, unwidened))
      | inr (previous, e) ↦
          let (there, same_ids) = lookup-dict_by identity (identity leg) old e in
          (previous, there, leg_contracts-Contracts previous leg (ground (arith, e, unwidened)))
    ]
  where
    unwidened :
        (elim (lookup (identity leg) (dict_by identity old)) [
          | none ↦ true
          | some previous ↦ not (leg_contracts previous leg)
        ])
        ≡ false
    unwidened = any-none _ {x = leg} new h m

-- An entry that the constructor accepts has the values that it was given.
pub record HasFields (e : QueueEntry) (request_id key_id tier weight : ℕ)
    (legs : List AuthorizedLeg) : Type 0 where
  pub request : e.request_id ≡ request_id
  pub key : e.key_id ≡ key_id
  pub tier_eq : e.tier ≡ tier
  pub weight_eq : e.weight ≡ weight
  pub legs_eq : e.authorized_legs ≡ legs
  pub positive : 1 ≤ weight
  pub bounded : weight ≤ 64

pub queue_entry-HasFields :
    (request_id key_id tier weight : ℕ) (legs : List AuthorizedLeg) {e : QueueEntry}
    → queue_entry request_id key_id tier weight legs ≡ ok e
    → HasFields e request_id key_id tier weight legs
unfolding queue_entry
queue_entry-HasFields request_id key_id tier weight legs h =
    let (range, h₁) = guard-eq-ok (ltb weight 1 || ltb 64 weight) value_error _ h in
    let (some_leg, h₂) = guard-eq-ok (null legs) value_error _ h₁ in
    let (unique_legs, h₃) =
      guard-eq-ok (not (unique (map (λ (leg : AuthorizedLeg). leg.leg_id) legs))) value_error _
        h₂ in
    subst (λ e. HasFields e request_id key_id tier weight legs) (ok-injective h₃)
      (record {
        request = refl;
        key = refl;
        tier_eq = refl;
        weight_eq = refl;
        legs_eq = refl;
        positive = ground (arith, range);
        bounded = ground (arith, range);
      })

-- What `contract` returns.
pub record IsContraction (request_id : RequestId) (q : WdrrQueue) (new : QueueEntry)
    (q' : WdrrQueue) : Type 0 where
  pub item : Queued
  pub found : lookup request_id q.queued ≡ some item
  pub request_kept : new.request_id ≡ item.entry.request_id
  pub key_kept : new.key_id ≡ item.entry.key_id
  pub class_kept : new.scarcity ≡ item.entry.scarcity
  pub tier : item.entry.tier ≤ new.tier
  pub weight : new.weight ≤ item.entry.weight
  pub legs : LegsContract new.authorized_legs item.entry.authorized_legs
  pub place_kept :
      q'.queued ≡ put request_id (record { entry = new; sequence = item.sequence }) q.queued
  pub sequence_kept : q'.next_sequence ≡ q.next_sequence
  pub version_moves : q'.version ≡ q.version + 1

pub contract-IsContraction :
    (request_id : RequestId) (tier weight : Option ℕ) (legs : Option (List AuthorizedLeg))
    (q : WdrrQueue) {new : QueueEntry} {q' : WdrrQueue}
    → contract request_id tier weight legs q ≡ ok (new, q')
    → IsContraction request_id q new q'
unfolding contract
contract-IsContraction request_id tier weight legs q h =
    let (item, found, h₁) = or_raise-eq-ok (lookup request_id q.queued) key_error _ h in
    let old = item.entry in
    let (qos, h₂) =
      guard-eq-ok
        (ltb (or_else tier old.tier) old.tier || ltb old.weight (or_else weight old.weight))
        value_error _ h₁ in
    let (narrow, h₃) =
      guard-eq-ok (expands old.authorized_legs (legs_or_else legs old.authorized_legs)) value_error
        _ h₂ in
    let (replaced, made, h₄) = >>=-eq-ok _ _ h₃ in
    let fields =
      queue_entry-HasFields old.request_id old.key_id (or_else tier old.tier)
        (or_else weight old.weight) (legs_or_else legs old.authorized_legs) made in
    subst (λ (r : QueueEntry × WdrrQueue). IsContraction request_id q r.0 r.1) (ok-injective h₄)
      (record {
        item = item;
        found = found;
        request_kept = fields.request;
        key_kept = fields.key;
        class_kept = refl;
        tier = ground (arith, qos, fields.tier_eq);
        weight = ground (arith, qos, fields.weight_eq);
        legs =
            subst (λ ls. LegsContract ls old.authorized_legs) (sym fields.legs_eq)
              (expands-LegsContract old.authorized_legs (legs_or_else legs old.authorized_legs)
                narrow);
        place_kept = refl;
        sequence_kept = refl;
        version_moves = refl;
      })
