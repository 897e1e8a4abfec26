-- ===== src/Core/Models/Ceilings.antt =====
-- src/llmmaxxing/core/models.py: the authorization ceiling of an admitted request.
pub mod Contract
pub mod Order
use llmmaxxing.Base.{
  ℕ, Bool, not, ◌||◌, Option, none, some, List, [], ◌∷◌, min, max, ◌==◌, Result, ok, raise_if,
  ◌>>=◌, ◌>>◌, value_error, list_eq, nat_eq,
}
use llmmaxxing.Base.Dict.{Dict, lookup, dict_by}
use llmmaxxing.Core.Ids.{KeyId, PolicyRevisionId, BundleHash, RouteGroupId}
use llmmaxxing.Core.Models.Legs.{AuthorizedLeg, identity, leg_meet}
use llmmaxxing.Core.Models.Routes.{unique_legs}

pub record RequestAuthorizationCeiling : Type 0 where
  pub key_id : KeyId
  pub credential_generation : ℕ
  pub policy_id : PolicyRevisionId
  pub bundle_generation : ℕ
  pub bundle_hash : BundleHash
  pub route_group_id : RouteGroupId
  pub authorized_legs : List AuthorizedLeg
  pub queue_tier : ℕ
  pub queue_weight : ℕ
  pub max_concurrency : ℕ
  pub max_waiters : ℕ
  pub deadline_ms : ℕ

-- A ceiling is made: its legs are unique, and put in order.
unfoldable pub ceiling : RequestAuthorizationCeiling → Result RequestAuthorizationCeiling
ceiling c = do legs ← unique_legs c.authorized_legs; ok (record c { authorized_legs = legs })

-- The legs that stand in both, each contracted.
abbrev pub meet_with :
    Option AuthorizedLeg → AuthorizedLeg → List AuthorizedLeg → List AuthorizedLeg
meet_with none admitted rest = rest
meet_with (some candidate) admitted rest = elim (leg_meet admitted candidate) [
  | none ↦ rest
  | some leg ↦ leg ∷ rest
]

abbrev pub legs_meet : List AuthorizedLeg → Dict (List ℕ) AuthorizedLeg → List AuthorizedLeg
legs_meet [] current = []
legs_meet (a ∷ as') current = meet_with (lookup (identity a) current) a (legs_meet as' current)

abbrev pub same_admission : RequestAuthorizationCeiling → RequestAuthorizationCeiling → Bool
same_admission c d = not (
    not (c.key_id == d.key_id)
    || not (c.credential_generation == d.credential_generation)
    || not (c.policy_id == d.policy_id)
    || not (c.route_group_id == d.route_group_id))

-- `RequestAuthorizationCeiling.intersection`
unfoldable pub intersection :
    RequestAuthorizationCeiling → RequestAuthorizationCeiling → Result RequestAuthorizationCeiling
intersection c d = do
  raise_if (not (same_admission c d)) value_error
  ceiling (record c {
    authorized_legs = legs_meet c.authorized_legs (dict_by identity d.authorized_legs);
    queue_tier = max c.queue_tier d.queue_tier;
    queue_weight = min c.queue_weight d.queue_weight;
    max_concurrency = min c.max_concurrency d.max_concurrency;
    max_waiters = min c.max_waiters d.max_waiters;
    deadline_ms = min c.deadline_ms d.deadline_ms;
  })
