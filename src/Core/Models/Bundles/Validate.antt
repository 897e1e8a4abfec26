-- ===== src/Core/Models/Bundles/Validate.antt =====
-- src/llmmaxxing/core/models.py: `PolicyBundleV1.model_validate`, which runs the validators of all
-- parts before that of the bundle. The bounds that pydantic checks of a single field are left out.
use llmmaxxing.Base.{
  not, List, [], ◌∷◌, Result, ok, ◌>>=◌, ◌>>◌, raise_if, value_error, unique, nat_eq, list_eq,
  option_eq, bool_eq, string_eq,
}
use llmmaxxing.Core.Reasons.{trigger_eq, endpoint_eq, modality_eq}
use llmmaxxing.Core.Models.Legs.{LegCapabilities, AuthorizedLeg, forced_tool_requires_tools}
use llmmaxxing.Core.Models.Accounts.{derive_and_guard_state}
use llmmaxxing.Core.Models.Keys.{ClientKeyRecord, valid_window, valid_lifetime_and_generations}
use llmmaxxing.Core.Models.Routes.{
  RouteLeg, route_leg, RouteGroupRevision, orders_unique_and_normalized, KeyPolicyRevision,
  key_policy,
}
use llmmaxxing.Core.Models.Bundles.{PolicyBundle, exact_membership}

-- A list is made of what its members are made to; the first failure is raised.
abbrev pub each {ℓ κ} : {A : Type ℓ} {B : Type κ} → (A → Result B) → List A → Result (List B)
each f [] = ok []
each f (x ∷ xs) = do y ← f x; ys ← each f xs; ok (y ∷ ys)

-- `_members_unique`, then `_forced_tool_requires_tools`.
unfoldable pub leg_capabilities : LegCapabilities → Result LegCapabilities
leg_capabilities c = do
  raise_if (not (unique c.endpoints)) value_error
  raise_if (not (unique c.modalities)) value_error
  raise_if (not (forced_tool_requires_tools c)) value_error
  ok c

-- `AuthorizedLeg._triggers_unique`
unfoldable pub authorized_leg : AuthorizedLeg → Result AuthorizedLeg
authorized_leg a = do
  raise_if (not (unique a.allowed_triggers)) value_error
  c ← leg_capabilities a.capabilities
  ok (record a { capabilities = c })

abbrev pub validate_leg : RouteLeg → Result RouteLeg
validate_leg leg = do
  c ← leg_capabilities leg.capabilities
  route_leg (record leg { capabilities = c })

abbrev pub validate_group : RouteGroupRevision → Result RouteGroupRevision
validate_group g = do
  legs ← each validate_leg g.legs
  orders_unique_and_normalized (record g { legs = legs })

abbrev pub validate_policy : KeyPolicyRevision → Result KeyPolicyRevision
validate_policy p = do
  legs ← each authorized_leg p.authorized_legs
  key_policy (record p { authorized_legs = legs })

abbrev pub validate_key : ClientKeyRecord → Result ClientKeyRecord
validate_key k = do
  verifiers ← each valid_window k.credential_verifiers
  legacy ← each valid_window k.legacy_verifiers
  valid_lifetime_and_generations
      (record k { credential_verifiers = verifiers; legacy_verifiers = legacy })

unfoldable pub model_validate : PolicyBundle → Result PolicyBundle
model_validate b = do
  keys ← each validate_key b.keys
  policies ← each validate_policy b.policies
  accounts ← each derive_and_guard_state b.accounts
  groups ← each validate_group b.route_groups
  exact_membership
      (record b { keys = keys; policies = policies; accounts = accounts; route_groups = groups })
