-- ===== src/Core/Models/Routes.antt =====
-- src/llmmaxxing/core/models.py: route legs, route groups and key policies.
use Prim.Native.String.{String}
use llmmaxxing.Base.{
  ℕ, Bool, not, ◌&&◌, ◌||◌, List, [], ◌∷◌, map, ltb, ◌==◌, same, contains, unique, list_eq, nat_eq,
  bool_eq, sort_by, Result, ok, raise_if, ◌>>=◌, ◌>>◌, value_error,
}
use llmmaxxing.Core.Ids.{
  RouteLegId, AccountId, DeploymentGenerationId, RouteGroupId, PolicyRevisionId,
}
use llmmaxxing.Core.Reasons.{RouteTrigger, trigger_eq}
use llmmaxxing.Core.Models.Legs.{LegCapabilities, AuthorizedLeg}

pub record RouteLeg : Type 0 where
  pub leg_id : RouteLegId
  pub order : ℕ
  pub triggers : List RouteTrigger
  pub account_id : AccountId
  pub generation_id : DeploymentGenerationId
  pub capabilities : LegCapabilities

-- The validators `_triggers_unique` and `_shadow_is_never_a_serving_mode`.
unfoldable pub route_leg : RouteLeg → Result RouteLeg
route_leg leg = do
  raise_if (not (unique leg.triggers)) value_error
  raise_if (not (same leg.capabilities.shadow (contains RouteTrigger.shadow leg.triggers)))
      value_error
  raise_if
      (contains RouteTrigger.shadow leg.triggers
        && not (same leg.triggers (RouteTrigger.shadow ∷ [])))
      value_error
  ok leg

pub record RouteGroupRevision : Type 0 where
  pub route_group_id : RouteGroupId
  pub name : String
  pub legs : List RouteLeg

abbrev pub route_leg_before : RouteLeg → RouteLeg → Bool
route_leg_before a b = ltb a.order b.order || a.order == b.order && ltb a.leg_id b.leg_id

-- `_orders_unique_and_normalized`
unfoldable pub orders_unique_and_normalized : RouteGroupRevision → Result RouteGroupRevision
orders_unique_and_normalized g = do
  raise_if (not (unique (map (λ leg. leg.order) g.legs))) value_error
  ok (record g { legs = sort_by route_leg_before g.legs })

abbrev pub leg_before : AuthorizedLeg → AuthorizedLeg → Bool
leg_before a b = ltb a.order b.order || a.order == b.order && ltb a.leg_id b.leg_id

-- `_authorized_legs_unique` of a policy and `_ceiling_legs_unique` of a ceiling.
unfoldable pub unique_legs : List AuthorizedLeg → Result (List AuthorizedLeg)
unique_legs legs = do
  raise_if (not (unique (map (λ leg. leg.leg_id) legs))) value_error
  ok (sort_by leg_before legs)

pub record KeyPolicyRevision : Type 0 where
  pub policy_id : PolicyRevisionId
  pub route_group_ids : List RouteGroupId
  pub authorized_legs : List AuthorizedLeg
  pub queue_tier : ℕ
  pub queue_weight : ℕ
  pub max_concurrency : ℕ
  pub max_waiters : ℕ
  pub deadline_ms : ℕ

-- The validators of a policy.
unfoldable pub key_policy : KeyPolicyRevision → Result KeyPolicyRevision
key_policy p = do
  raise_if (not (unique p.route_group_ids)) value_error
  legs ← unique_legs p.authorized_legs
  ok (record p { authorized_legs = legs })
