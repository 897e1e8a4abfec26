-- ===== src/Gateway/Auth.antt =====
-- src/llmmaxxing/gateway/auth.py: whether a request that waits is still authorized. Of the accepted
-- peppers only the versions matter here.
use Prim.Native.String.{String}
use llmmaxxing.Base.{
  ℕ, Bool, false, not, ◌&&◌, ◌||◌, Option, none, some, List, ltb, leb, ◌==◌, if◌then◌else◌,
  contains, any, nat_eq, list_eq, option_eq, bool_eq, string_eq,
}
use llmmaxxing.Base.Dict.{Dict, lookup}
use llmmaxxing.Core.Ids.{KeyId}
use llmmaxxing.Core.Models.Keys.{
  Verifier, ClientKeyRecord, is_accepted_verifier, is_enabled, verifiers_of,
}
use llmmaxxing.Gateway.Routing.Engine.{AuthenticatedClient}

pub record AuthRuntimeView : Type 0 where
  pub key_index : Dict KeyId ClientKeyRecord
  pub denied_key_ids : List KeyId
  pub accepted_peppers : List String
  pub trusted_now_s : ℕ

-- `_credential_is_accepted`
abbrev pub credential_is_accepted : AuthRuntimeView → ClientKeyRecord → Verifier → Bool
credential_is_accepted view key verifier =
    is_accepted_verifier verifier
    && contains verifier.pepper_version view.accepted_peppers
    && (leb verifier.not_before_s view.trusted_now_s && ltb view.trusted_now_s verifier.not_after_s)
    && ltb view.trusted_now_s key.expires_at_s

abbrev pub identity_at : AuthRuntimeView → AuthenticatedClient → Option ClientKeyRecord → Bool
identity_at view client none = false
identity_at view client (some key) =
    if not (is_enabled key.state)
      || not (key.policy_id == client.policy_id)
      || contains key.key_id view.denied_key_ids
      || leb key.expires_at_s view.trusted_now_s
    then false
    else any
        (λ verifier.
          verifier.generation == client.accepted_credential_generation
          && credential_is_accepted view key verifier)
        (verifiers_of key)

unfoldable pub queued_identity_is_authorized : AuthenticatedClient → AuthRuntimeView → Bool
queued_identity_is_authorized client view =
    identity_at view client (lookup client.key_id view.key_index)
