-- ===== src/Core/Models/Bundles/Membership.antt =====
-- What a bundle that passes the membership test promises of its policies and its keys.
use llmmaxxing.Base.{
  ◌++◌, [], ◌≡◌, refl, sym, ap, true, not, Option, none, some, List, same→eq, contains,
  contains-Has, all, all-Has, Has, Has-map, both_true, negated_true, guard-eq-ok, ok, nat_eq,
  list_eq, map, subst, ◌∷◌, value_error, inl, inr, ok-injective, ◌⊎◌,
}
use llmmaxxing.Base.Dict.{lookup, lookup-dict_by}
use llmmaxxing.Core.Ids.{RouteGroupId}
use llmmaxxing.Core.Reasons.{trigger_eq}
use llmmaxxing.Core.Models.Legs.{AuthorizedLeg, identity, capabilities_eq}
use llmmaxxing.Core.Models.Legs.Meet.{Within}
use llmmaxxing.Core.Models.Routes.{RouteLeg, RouteGroupRevision, KeyPolicyRevision}
use llmmaxxing.Core.Models.Bundles.{
  PolicyBundle, exact_membership, names_unique, good_group, good_policy, good_leg, placed_well,
  place_identity, placed_legs, all_placed, concat_map, legs_by_id, account_ids,
}

-- A leg that the policy authorizes is a leg of one of its groups, as that group lists it.
pub record Granted (b : PolicyBundle) (p : KeyPolicyRevision) (a : AuthorizedLeg) : Type 0 where
  pub group : RouteGroupRevision
  pub actual : RouteLeg
  pub listed : Has group b.route_groups
  pub named : Has group.route_group_id p.route_group_ids
  pub placed : Has actual group.legs
  pub same_identity : identity a ≡ place_identity actual
  pub triggers : Within a.allowed_triggers actual.triggers
  pub same_shape : a.capabilities ≡ actual.capabilities
  pub account : Has a.account_id (account_ids b)

Has-append : {A : Type 0} (x : A) (xs ys : List A) → Has x (xs ++ ys) → (Has x xs) ⊎ (Has x ys)
Has-append x [] ys h = inr h
Has-append x (z ∷ zs) ys (inl e) = inl (inl e)
Has-append x (z ∷ zs) ys (inr h) = elim (Has-append x zs ys h) [
  | inl k ↦ inl (inr k)
  | inr k ↦ inr k
]

Has-concat_map :
    {A B : Type 0} (f : A → List B) (y : B) (xs : List A)
    → Has y (concat_map f xs)
    → (x : A) × Has x xs × Has y (f x)
Has-concat_map f y [] h = absurd h
Has-concat_map f y (x ∷ xs) h = elim (Has-append y (f x) (concat_map f xs) h) [
  | inl k ↦ (x, inl refl, k)
  | inr k ↦ let (z, m, e) = Has-concat_map f y xs k in (z, inr m, e)
]

Has-all_placed :
    (b : PolicyBundle) (leg : RouteLeg) (g : RouteGroupId)
    → Has (leg, g) (all_placed b)
    → (group : RouteGroupRevision) × Has group b.route_groups
      × Has leg group.legs
      × (group.route_group_id ≡ g)
Has-all_placed b leg g h =
    let (group, m, k) = Has-concat_map placed_legs (leg, g) b.route_groups h in
    let (l, n, e) = Has-map (λ x. (x, group.route_group_id)) group.legs k in
    (group, m, subst (λ x. Has x group.legs) (ap (λ q. q.0) e) n, ap (λ q. q.1) e)

Granted-of_place :
    (b : PolicyBundle) (p : KeyPolicyRevision) (a : AuthorizedLeg)
    (o : Option (RouteLeg × RouteGroupId))
    → lookup a.leg_id (legs_by_id b) ≡ o
    → Has a.account_id (account_ids b)
    → placed_well p.route_group_ids a o ≡ true
    → Granted b p a
Granted-of_place b p a none l m h = cc
Granted-of_place b p a (some (actual, g)) l m h =
    let (h', shape) = both_true _ _ h in
    let (h'', triggers) = both_true _ _ h' in
    let (grouped, i) = both_true _ _ h'' in
    let (there, _) = lookup-dict_by (λ placed. placed.0.leg_id) a.leg_id (all_placed b) l in
    let (group, listed, placed, e) = Has-all_placed b actual g there in
    record {
      group = group;
      actual = actual;
      listed = listed;
      named =
          subst (λ x. Has x p.route_group_ids) (sym e) (contains-Has g p.route_group_ids grouped);
      placed = placed;
      same_identity = same→eq (identity a) (place_identity actual) i;
      triggers = λ t n. contains-Has t actual.triggers (all-Has _ a.allowed_triggers triggers n);
      same_shape = same→eq a.capabilities actual.capabilities shape;
      account = m;
    }

-- What the test as a whole establishes.
parts_of :
    (b : PolicyBundle) {r : PolicyBundle}
    → exact_membership b ≡ ok r
    → (b ≡ r)
      × (all (good_policy b) b.policies ≡ true)
      × (all (λ key. contains key.policy_id (map (λ p. p.policy_id) b.policies)) b.keys ≡ true)
unfolding exact_membership
parts_of b h =
    let (_, h1) = guard-eq-ok (not (names_unique b)) value_error _ h in
    let (_, h2) = guard-eq-ok (not (all (good_group b) b.route_groups)) value_error _ h1 in
    let (policies, h3) = guard-eq-ok (not (all (good_policy b) b.policies)) value_error _ h2 in
    let (keyed, h4) =
      guard-eq-ok
        (not (all (λ key. contains key.policy_id (map (λ p. p.policy_id) b.policies)) b.keys))
        value_error _ h3 in
    (ok-injective h4, negated_true _ policies, negated_true _ keyed)

-- In a bundle that is accepted, each leg that a policy authorizes is a leg of one of the policy's
-- groups in the bundle, with the same identity and capabilities, no further trigger, and an
-- account of the bundle.
pub exact_membership-Granted :
    (b : PolicyBundle) {r : PolicyBundle} (p : KeyPolicyRevision) (a : AuthorizedLeg)
    → exact_membership b ≡ ok r
    → Has p b.policies
    → Has a p.authorized_legs
    → Granted b p a
exact_membership-Granted b p a h m n =
    let (_, policies, _) = parts_of b h in
    let (fine, _) = both_true _ _ (all-Has (good_policy b) b.policies policies m) in
    let (_, legs) = both_true _ _ fine in
    let (account, placed) = both_true _ _ (all-Has (good_leg b p) p.authorized_legs legs n) in
    Granted-of_place b p a (lookup a.leg_id (legs_by_id b)) refl
      (contains-Has a.account_id (account_ids b) account) placed

pub exact_membership-same :
    (b : PolicyBundle) {r : PolicyBundle} → exact_membership b ≡ ok r → b ≡ r
exact_membership-same b h = (parts_of b h).0
