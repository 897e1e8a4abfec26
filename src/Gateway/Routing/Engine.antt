-- ===== src/Gateway/Routing/Engine.antt =====
-- src/llmmaxxing/gateway/routing.py: the tables of `RouteEngine` and what it answers from them. The
-- bundle's hash is a parameter.
use Prim.Native.String.{String}
use llmmaxxing.Base.{
  ℕ, Bool, false, not, ◌&&◌, Option, none, some, List, [], map, ◌==◌, if◌then◌else◌, Result, ok,
  ◌>>=◌, ◌>>◌, raise_if, or_raise, value_error, contains, keep, any, nat_eq, list_eq, option_eq,
  bool_eq, string_eq,
}
use llmmaxxing.Base.Dict.{Dict, lookup, dict_by}
use llmmaxxing.Core.Ids.{KeyId, PolicyRevisionId, RouteGroupId, AccountId, BundleHash}
use llmmaxxing.Core.Reasons.{RouteTrigger, trigger_eq}
use llmmaxxing.Core.StateMachines.{KeyLifecycleState}
use llmmaxxing.Core.Models.Legs.{AuthorizedLeg, RequestProfile}
use llmmaxxing.Core.Models.Accounts.{ProviderAccount}
use llmmaxxing.Core.Models.Keys.{ClientKeyRecord, is_enabled}
use llmmaxxing.Core.Models.Routes.{RouteGroupRevision, KeyPolicyRevision}
use llmmaxxing.Core.Models.Ceilings.{RequestAuthorizationCeiling, ceiling}
use llmmaxxing.Core.Models.Bundles.{PolicyBundle}
use llmmaxxing.Core.Models.Bundles.Validate.{model_validate}

-- src/llmmaxxing/gateway/auth.py: who the request comes from.
pub record AuthenticatedClient : Type 0 where
  pub key_id : KeyId
  pub accepted_credential_generation : ℕ
  pub policy_id : PolicyRevisionId
  pub key_state : KeyLifecycleState
  pub key_expires_at_s : ℕ
  pub applied_bundle_generation : ℕ
  pub applied_bundle_hash : BundleHash

pub record RouteEngine : Type 0 where
  pub bundle : PolicyBundle
  pub bundle_hash : BundleHash
  pub keys : Dict KeyId ClientKeyRecord
  pub policies : Dict PolicyRevisionId KeyPolicyRevision
  pub groups : Dict RouteGroupId RouteGroupRevision
  pub accounts : Dict AccountId ProviderAccount
  pub groups_by_name : Dict String RouteGroupRevision

abbrev pub tables_of : BundleHash → PolicyBundle → RouteEngine
tables_of hash b = record {
  bundle = b;
  bundle_hash = hash;
  keys = dict_by (λ key. key.key_id) b.keys;
  policies = dict_by (λ policy. policy.policy_id) b.policies;
  groups = dict_by (λ group. group.route_group_id) b.route_groups;
  accounts = dict_by (λ account. account.account_id) b.accounts;
  groups_by_name = dict_by (λ group. group.name) b.route_groups;
}

unfoldable pub activate : (PolicyBundle → BundleHash) → PolicyBundle → Result RouteEngine
activate hash bundle = do
  validated ← model_validate bundle
  ok (tables_of (hash validated) validated)

unfoldable pub resolve_route_group_id : RouteEngine → String → Result RouteGroupId
resolve_route_group_id engine model_alias = do
  group ← or_raise (lookup model_alias engine.groups_by_name) value_error
  ok group.route_group_id

unfoldable pub policy_deadline_ms : RouteEngine → AuthenticatedClient → Result ℕ
policy_deadline_ms engine client = do
  policy ← or_raise (lookup client.policy_id engine.policies) value_error
  ok policy.deadline_ms

abbrev shadow_in : Option KeyPolicyRevision → Bool
shadow_in none = false
shadow_in (some policy) =
    any (λ leg. contains RouteTrigger.shadow leg.allowed_triggers) policy.authorized_legs

unfoldable pub client_authorizes_shadow : RouteEngine → AuthenticatedClient → Bool
client_authorizes_shadow engine client = shadow_in (lookup client.policy_id engine.policies)

-- The key's record lets the client in.
abbrev pub key_allows : AuthenticatedClient → Option ClientKeyRecord → Bool
key_allows client none = false
key_allows client (some key) = is_enabled key.state && key.policy_id == client.policy_id

-- The legs of the policy that the requested group has.
abbrev pub group_legs :
    RouteGroupId → KeyPolicyRevision → Option RouteGroupRevision → List AuthorizedLeg
group_legs id policy none = []
group_legs id policy (some group) =
    if not (contains id policy.route_group_ids)
    then []
    else keep (λ leg. contains leg.leg_id (map (λ l. l.leg_id) group.legs)) policy.authorized_legs

unfoldable pub authorize :
    RouteEngine → AuthenticatedClient → RequestProfile → Result RequestAuthorizationCeiling
authorize engine client profile = do
  raise_if (not (key_allows client (lookup client.key_id engine.keys))) value_error
  policy ← or_raise (lookup client.policy_id engine.policies) value_error
  ceiling (record {
    key_id = client.key_id;
    credential_generation = client.accepted_credential_generation;
    policy_id = policy.policy_id;
    bundle_generation = engine.bundle.generation;
    bundle_hash = engine.bundle_hash;
    route_group_id = profile.route_group_id;
    authorized_legs =
        group_legs profile.route_group_id policy (lookup profile.route_group_id engine.groups);
    queue_tier = policy.queue_tier;
    queue_weight = policy.queue_weight;
    max_concurrency = policy.max_concurrency;
    max_waiters = policy.max_waiters;
    deadline_ms = policy.deadline_ms;
  })

unfoldable pub quota_units : RouteEngine → AccountId → Result ℕ
quota_units engine account_id = do
  account ← or_raise (lookup account_id engine.accounts) value_error
  ok account.quota_units_per_attempt
