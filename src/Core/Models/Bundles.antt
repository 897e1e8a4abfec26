-- ===== src/Core/Models/Bundles.antt =====
-- src/llmmaxxing/core/models.py: `PolicyBundleV1` and its test of exact membership.
pub mod Membership
pub mod Validate
use Prim.Native.String.{String}
use text.Mathlib.Text.{◌==◌ as str_eq}
use llmmaxxing.Base.{
  ℕ, Bool, true, false, not, ◌&&◌, ◌||◌, Option, none, some, List, [], ◌∷◌, ◌++◌, map, any, all,
  keep, length, contains, unique, ◌==◌, same, Result, ok, raise_if, ◌>>=◌, ◌>>◌, value_error,
  list_eq, nat_eq, pair_eq, string_eq,
}
use llmmaxxing.Base.Dict.{Dict, lookup, dict_by}
use llmmaxxing.Core.Ids.{RouteLegId, RouteGroupId, AccountId, Digest}
use llmmaxxing.Core.Reasons.{RouteTrigger, trigger_eq}
use llmmaxxing.Core.Models.Legs.{AuthorizedLeg, identity, capabilities_eq}
use llmmaxxing.Core.Models.Accounts.{ProviderAccount, binding, truthy}
use llmmaxxing.Core.Models.Keys.{ClientKeyRecord}
use llmmaxxing.Core.Models.Routes.{RouteLeg, RouteGroupRevision, KeyPolicyRevision}

pub record PolicyBundle : Type 0 where
  pub generation : ℕ
  pub keys : List ClientKeyRecord
  pub policies : List KeyPolicyRevision
  pub accounts : List ProviderAccount
  pub route_groups : List RouteGroupRevision
  pub backend_manifest_hash : Digest

-- Each leg of a group, with the group's id.
abbrev pub placed_legs : RouteGroupRevision → List (RouteLeg × RouteGroupId)
placed_legs g = map (λ leg. (leg, g.route_group_id)) g.legs

abbrev pub concat_map {ℓ κ} : {A : Type ℓ} {B : Type κ} → (A → List B) → List A → List B
concat_map f [] = []
concat_map f (x ∷ xs) = f x ++ concat_map f xs

abbrev pub all_placed : PolicyBundle → List (RouteLeg × RouteGroupId)
all_placed b = concat_map placed_legs b.route_groups

-- `legs_by_id` and `leg_groups` in one dictionary.
abbrev pub legs_by_id : PolicyBundle → Dict RouteLegId (RouteLeg × RouteGroupId)
legs_by_id b = dict_by (λ placed. placed.0.leg_id) (all_placed b)

abbrev pub account_ids : PolicyBundle → List AccountId
account_ids b = map (λ a. a.account_id) b.accounts

abbrev pub group_ids : PolicyBundle → List RouteGroupId
group_ids b = map (λ g. g.route_group_id) b.route_groups

abbrev pub legacy_fingerprints : PolicyBundle → List (String × String)
legacy_fingerprints b =
    concat_map (λ key. map (λ v. (v.pepper_version, v.fingerprint)) key.legacy_verifiers) b.keys

-- The triples of which some part is not empty.
abbrev pub bindings : PolicyBundle → List (List String)
bindings b = keep (λ texts. any truthy texts) (map binding b.accounts)

abbrev pub is_primary : RouteLeg → Bool
is_primary leg = contains RouteTrigger.primary leg.triggers

-- `len(set(seen)) == len(seen)` for each list of names.
abbrev pub names_unique : PolicyBundle → Bool
names_unique b =
    unique (account_ids b)
    && unique (group_ids b)
    && unique (map (λ p. p.policy_id) b.policies)
    && unique (map (λ k. k.key_id) b.keys)
    && unique (map (λ placed. placed.0.leg_id) (all_placed b))
    && unique (map (λ g. g.name) b.route_groups)
    && unique (legacy_fingerprints b)
    && unique (bindings b)

abbrev pub good_group : PolicyBundle → RouteGroupRevision → Bool
good_group b g =
    all (λ leg. contains leg.account_id (account_ids b)) g.legs
    && length (keep is_primary g.legs) == 1

abbrev pub place_identity : RouteLeg → List ℕ
place_identity leg = leg.leg_id ∷ leg.account_id ∷ leg.generation_id ∷ leg.order ∷ []

-- The tests of one authorized leg against the leg of its id.
abbrev pub placed_well : List RouteGroupId → AuthorizedLeg → Option (RouteLeg × RouteGroupId) → Bool
placed_well policy_groups authorized none = false
placed_well policy_groups authorized (some (actual, group_id)) =
    contains group_id policy_groups
    && same (identity authorized) (place_identity actual)
    && all (λ t. contains t actual.triggers) authorized.allowed_triggers
    && same authorized.capabilities actual.capabilities

abbrev pub good_leg : PolicyBundle → KeyPolicyRevision → AuthorizedLeg → Bool
good_leg b p authorized =
    contains authorized.account_id (account_ids b)
    && placed_well p.route_group_ids authorized (lookup authorized.leg_id (legs_by_id b))

-- The leg adds the group to `covered_groups`.
abbrev pub covers : RouteGroupId → Option (RouteLeg × RouteGroupId) → Bool
covers g none = false
covers g (some (leg, group_id)) = group_id == g

abbrev pub good_policy : PolicyBundle → KeyPolicyRevision → Bool
good_policy b p =
    all (λ g. contains g (group_ids b)) p.route_group_ids
    && all (good_leg b p) p.authorized_legs
    && all (λ g. any (λ a. covers g (lookup a.leg_id (legs_by_id b))) p.authorized_legs)
        p.route_group_ids

-- `_exact_membership`: every branch that raises, raises the same failure.
unfoldable pub exact_membership : PolicyBundle → Result PolicyBundle
exact_membership b = do
  raise_if (not (names_unique b)) value_error
  raise_if (not (all (good_group b) b.route_groups)) value_error
  raise_if (not (all (good_policy b) b.policies)) value_error
  raise_if (not (all (λ key. contains key.policy_id (map (λ p. p.policy_id) b.policies)) b.keys))
      value_error
  ok b
