-- ===== src/Gateway/Routing/Authorized.antt =====
-- What an authorization of `RouteEngine.authorize` rests on in the bundle that the engine runs.
use llmmaxxing.Base.{
  ◌≡◌, refl, sym, ap, ◌∙◌, subst, inl, inr, true, not, Option, none, some, ok, value_error,
  contains, Has, nat_eq, list_eq, option_eq, bool_eq, string_eq, Bool-cases, both_true,
  negated_true, if_true, if_false, All, >>=-eq-ok, ==_iff, guard-eq-ok, Has-keep, ok-injective,
  or_raise-eq-ok, contains-Has, All-of_each, map,
}
use llmmaxxing.Base.Dict.{lookup, lookup-dict_by}
use llmmaxxing.Core.Ids.{RouteGroupId, BundleHash}
use llmmaxxing.Core.Models.Legs.{AuthorizedLeg, RequestProfile}
use llmmaxxing.Core.Models.Keys.{ClientKeyRecord, is_enabled}
use llmmaxxing.Core.Models.Routes.{RouteGroupRevision, KeyPolicyRevision, RouteLeg}
use llmmaxxing.Core.Models.Ceilings.{RequestAuthorizationCeiling, ceiling}
use llmmaxxing.Core.Models.Ceilings.Contract.{unique_legs-Has}
use llmmaxxing.Core.Models.Bundles.{PolicyBundle, exact_membership}
use llmmaxxing.Core.Models.Bundles.Membership.{
  Granted, exact_membership-Granted, exact_membership-same,
}
use llmmaxxing.Core.Models.Bundles.Validate.{
  model_validate, each, validate_key, validate_policy, validate_group,
}
use llmmaxxing.Core.Models.Accounts.{derive_and_guard_state}
use llmmaxxing.Gateway.Routing.Engine.{
  AuthenticatedClient, RouteEngine, tables_of, activate, key_allows, group_legs, authorize,
}

-- A group of the bundle that has the id has a leg with the leg's id.
abbrev pub InGroup : PolicyBundle → RouteGroupId → AuthorizedLeg → Type 0
InGroup b id leg =
    (group : RouteGroupRevision) × Has group b.route_groups
    × (group.route_group_id ≡ id)
    × Has leg.leg_id (map (λ (l : RouteLeg). l.leg_id) group.legs)

-- The client's key is enabled in the bundle and names the client's policy, which is in the bundle.
-- Every leg of the ceiling is one that the policy authorizes, belongs to the requested group, which
-- is the ceiling's and one of the policy's, and agrees with a leg of a group of the policy.
pub record Rests (b : PolicyBundle) (client : AuthenticatedClient) (profile : RequestProfile)
    (c : RequestAuthorizationCeiling) : Type 0 where
  pub key : ClientKeyRecord
  pub key_listed : Has key b.keys
  pub key_named : key.key_id ≡ client.key_id
  pub key_enabled : is_enabled key.state ≡ true
  pub policy : KeyPolicyRevision
  pub policy_listed : Has policy b.policies
  pub policy_named : policy.policy_id ≡ key.policy_id
  pub authorized : All (λ leg. Has leg policy.authorized_legs) c.authorized_legs
  pub legs : All (Granted b policy) c.authorized_legs
  pub requested : c.route_group_id ≡ profile.route_group_id
  pub in_group : All (InGroup b c.route_group_id) c.authorized_legs
  pub group_named : All (λ leg. Has c.route_group_id policy.route_group_ids) c.authorized_legs

model_validate-same :
    (b : PolicyBundle) {r : PolicyBundle} → model_validate b ≡ ok r → exact_membership r ≡ ok r
unfolding model_validate
model_validate-same b h =
    let (keys, _, h1) = >>=-eq-ok (each validate_key b.keys) _ h in
    let (policies, _, h2) = >>=-eq-ok (each validate_policy b.policies) _ h1 in
    let (accounts, _, h3) = >>=-eq-ok (each derive_and_guard_state b.accounts) _ h2 in
    let (groups, _, h4) = >>=-eq-ok (each validate_group b.route_groups) _ h3 in
    subst (λ x. exact_membership x ≡ ok x) (exact_membership-same _ h4)
      (h4 ∙ ap ok (sym (exact_membership-same _ h4)))

key_allows-some :
    (client : AuthenticatedClient) (o : Option ClientKeyRecord)
    → key_allows client o ≡ true
    → (key : ClientKeyRecord) × (o ≡ some key)
      × (is_enabled key.state ≡ true)
      × (key.policy_id ≡ client.policy_id)
key_allows-some client none h = cc
key_allows-some client (some key) h =
    let (e, p) = both_true (is_enabled key.state) _ h in (key, refl, e, (==_iff _ _).0 p)

Has-group_legs :
    (id : RouteGroupId) (policy : KeyPolicyRevision) (o : Option RouteGroupRevision)
    (leg : AuthorizedLeg)
    → Has leg (group_legs id policy o)
    → Has leg policy.authorized_legs
      × Has id policy.route_group_ids
      × (group : RouteGroupRevision) × (o ≡ some group)
      × Has leg.leg_id (map (λ (l : RouteLeg). l.leg_id) group.legs)
Has-group_legs id policy none leg h = absurd h
Has-group_legs id policy (some group) leg h =
    elim (Bool-cases (contains id policy.route_group_ids)) [
      | inr out ↦ absurd (subst (Has leg) (if_true _ _ _ (ap not out)) h)
      | inl inside ↦
          let (m, listed) =
            Has-keep _ policy.authorized_legs
              (subst (Has leg) (if_false _ _ _ (ap not inside)) h) in
          (
            m,
            contains-Has id policy.route_group_ids inside,
            group,
            refl,
            contains-Has leg.leg_id _ listed,
          )
    ]

ceiling-kept :
    (c : RequestAuthorizationCeiling) {r : RequestAuthorizationCeiling}
    → ceiling c ≡ ok r
    → (r.route_group_id ≡ c.route_group_id)
      × ((leg : AuthorizedLeg) → Has leg r.authorized_legs → Has leg c.authorized_legs)
unfolding ceiling
ceiling-kept c h =
    let (legs, made, e) = >>=-eq-ok _ _ h in
    (
      ap (λ x. x.route_group_id) (sym (ok-injective e)),
      λ leg m.
          unique_legs-Has c.authorized_legs made leg
            (subst (Has leg) (ap (λ x. x.authorized_legs) (sym (ok-injective e))) m),
    )

Rests-tables_of :
    (n : BundleHash) (b : PolicyBundle) (client : AuthenticatedClient) (profile : RequestProfile)
    {c : RequestAuthorizationCeiling}
    → exact_membership b ≡ ok b
    → authorize (tables_of n b) client profile ≡ ok c
    → Rests b client profile c
unfolding authorize
Rests-tables_of n b client profile {c} v k =
    let engine = tables_of n b in
    let (allowed, k1) =
      guard-eq-ok (not (key_allows client (lookup client.key_id engine.keys))) value_error _ k in
    let (key, found, enabled, named) = key_allows-some client _ (negated_true _ allowed) in
    let (policy, there, k2) =
      or_raise-eq-ok (lookup client.policy_id engine.policies) value_error _ k1 in
    let (group, legs) = ceiling-kept _ k2 in
    let (key_in, key_id) = lookup-dict_by (λ x. x.key_id) client.key_id b.keys found in
    let (policy_in, policy_id) =
      lookup-dict_by (λ x. x.policy_id) client.policy_id b.policies there in
    let found_group = lookup profile.route_group_id engine.groups in
    record {
      key = key;
      key_listed = key_in;
      key_named = key_id;
      key_enabled = enabled;
      policy = policy;
      policy_listed = policy_in;
      policy_named = policy_id ∙ sym named;
      authorized =
          All-of_each (λ leg. Has leg policy.authorized_legs) c.authorized_legs
            (λ leg m.
              (Has-group_legs profile.route_group_id policy found_group leg (legs leg m)).0);
      requested = group;
      in_group = All-of_each (InGroup b c.route_group_id) c.authorized_legs (λ leg m.
          let (_, _, g, there_g, placed) =
            Has-group_legs profile.route_group_id policy found_group leg (legs leg m) in
          let (listed, named_g) =
            lookup-dict_by (λ x. x.route_group_id) profile.route_group_id b.route_groups there_g in
          (g, listed, named_g ∙ sym group, placed));
      legs = All-of_each (Granted b policy) c.authorized_legs (λ leg m.
          exact_membership-Granted b policy leg v policy_in
            (Has-group_legs profile.route_group_id policy found_group leg (legs leg m)).0);
      group_named =
          All-of_each (λ leg. Has c.route_group_id policy.route_group_ids) c.authorized_legs
            (λ leg m.
              subst (λ g. Has g policy.route_group_ids) (sym group)
                (Has-group_legs profile.route_group_id policy found_group leg (legs leg m)).1);
    }

-- An authorization by an engine that a bundle was activated on rests on the bundle as validated: the
-- client's key is enabled there and its policy is there; each leg of the ceiling is one that the policy
-- authorizes and is in the requested group of the bundle, which is the ceiling's group and one of
-- the policy's, and agrees with a leg of a group of the policy.
pub authorize-Rests :
    (hash : PolicyBundle → BundleHash) (bundle : PolicyBundle) (client : AuthenticatedClient)
    (profile : RequestProfile) (engine : RouteEngine) (c : RequestAuthorizationCeiling)
    → activate hash bundle ≡ ok engine
    → authorize engine client profile ≡ ok c
    → Rests engine.bundle client profile c
unfolding activate
authorize-Rests hash bundle client profile engine c h =
    let (b, v, e) = >>=-eq-ok (model_validate bundle) _ h in
    subst (λ g. authorize g client profile ≡ ok c → Rests g.bundle client profile c)
      (ok-injective e) (Rests-tables_of (hash b) b client profile (model_validate-same bundle v))
