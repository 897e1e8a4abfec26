-- ===== src/Core/Models/Legs.antt =====
-- src/llmmaxxing/core/models.py: leg capabilities, authorized legs and request profiles.
pub mod Meet
use llmmaxxing.Base.{
  ℕ, ◌+◌, ◌≤◌, ◌≡◌, refl, ◌↔◌, Bool, true, false, not, ◌&&◌, ◌||◌, Option, none, some, List, [],
  ◌∷◌, min, arith, ◌==◌, ltb, leb, if◌then◌else◌, Eq, same, same_refl, same→eq, contains, keep,
  is_some, bool_eq, list_eq, nat_eq, null,
}
use llmmaxxing.Core.Ids.{RouteLegId, AccountId, DeploymentGenerationId, RouteGroupId}
use llmmaxxing.Core.Reasons.{
  RouteTrigger, EndpointKind, Modality, trigger_eq, endpoint_eq, modality_eq,
}

pub record LegCapabilities : Type 0 where
  pub endpoints : List EndpointKind
  pub modalities : List Modality
  pub context_tokens : ℕ
  pub tools : Bool
  pub forced_tool : Bool
  pub response_schema : Bool
  pub streaming : Bool
  pub reasoning : Bool
  pub history_continuation : Bool
  pub shadow : Bool

-- The validator `_forced_tool_requires_tools`.
abbrev pub forced_tool_requires_tools : LegCapabilities → Bool
forced_tool_requires_tools c = not c.forced_tool || c.tools

-- `LegCapabilities.intersection`: the value that it builds, and its early return.
abbrev pub overlap : LegCapabilities → LegCapabilities → LegCapabilities
overlap c d =
    let tools = c.tools && d.tools in
    record {
      endpoints = keep (λ x. contains x d.endpoints) c.endpoints;
      modalities = keep (λ x. contains x d.modalities) c.modalities;
      context_tokens = min c.context_tokens d.context_tokens;
      tools = tools;
      forced_tool = tools && c.forced_tool && d.forced_tool;
      response_schema = c.response_schema && d.response_schema;
      streaming = c.streaming && d.streaming;
      reasoning = c.reasoning && d.reasoning;
      history_continuation = c.history_continuation && d.history_continuation;
      shadow = c.shadow || d.shadow;
    }

unfoldable pub capabilities_meet : LegCapabilities → LegCapabilities → Option LegCapabilities
capabilities_meet c d =
    let m = overlap c d in if null m.endpoints || null m.modalities then none else some m

pub record AuthorizedLeg : Type 0 where
  pub leg_id : RouteLegId
  pub account_id : AccountId
  pub generation_id : DeploymentGenerationId
  pub order : ℕ
  pub allowed_triggers : List RouteTrigger
  pub capabilities : LegCapabilities

-- `AuthorizedLeg.identity`: the tuple of four ids, as a list.
abbrev pub identity : AuthorizedLeg → List ℕ
identity a = a.leg_id ∷ a.account_id ∷ a.generation_id ∷ a.order ∷ []

-- The body of `AuthorizedLeg.intersection` behind the identity test.
abbrev leg_meet_body :
    AuthorizedLeg → List RouteTrigger → Option LegCapabilities → Option AuthorizedLeg
leg_meet_body a triggers none = none
leg_meet_body a triggers (some c) =
    if null triggers
    then none
    else some (record a { allowed_triggers = triggers; capabilities = c })

unfoldable pub leg_meet : AuthorizedLeg → AuthorizedLeg → Option AuthorizedLeg
leg_meet a b =
    if same (identity a) (identity b)
    then leg_meet_body a (keep (λ t. contains t b.allowed_triggers) a.allowed_triggers)
        (capabilities_meet a.capabilities b.capabilities)
    else none

pub record RequestProfile : Type 0 where
  pub route_group_id : RouteGroupId
  pub endpoint : EndpointKind
  pub modality : Modality
  pub stream : Bool
  pub input_tokens_max : ℕ
  pub output_tokens_max : ℕ
  pub reasoning_tokens_max : ℕ
  pub tools_count : ℕ
  pub forced_tool_required : Bool
  pub response_schema_present : Bool
  pub history_turns : ℕ
  pub deadline_ms : ℕ

and_split₄ :
    (a b c d : Bool)
    → ((a && b && c && d) ≡ true)
    → (a ≡ true) × (b ≡ true) × (c ≡ true) × (d ≡ true)
and_split₄ true true true true h = (refl, refl, refl, refl)
and_split₄ true true true false h = cc
and_split₄ true true false d h = cc
and_split₄ true false c d h = cc
and_split₄ false b c d h = cc

and_split₃ : (a b c : Bool) → ((a && b && c) ≡ true) → (a ≡ true) × (b ≡ true) × (c ≡ true)
and_split₃ true true true h = (refl, refl, refl)
and_split₃ true true false h = cc
and_split₃ true false c h = cc
and_split₃ false b c h = cc

-- `==` of capabilities and of legs: field by field.
abbrev flags : LegCapabilities → List Bool
flags c =
    c.tools ∷ c.forced_tool ∷ c.response_schema ∷ c.streaming ∷ c.reasoning ∷ c.history_continuation
    ∷ c.shadow ∷ []

abbrev capabilities_beq : LegCapabilities → LegCapabilities → Bool
capabilities_beq c d =
    same c.endpoints d.endpoints
    && same c.modalities d.modalities
    && c.context_tokens == d.context_tokens
    && same (flags c) (flags d)

eq_of_flags :
    (c d : LegCapabilities)
    → c.endpoints ≡ d.endpoints
    → c.modalities ≡ d.modalities
    → c.context_tokens ≡ d.context_tokens
    → flags c ≡ flags d
    → c ≡ d
eq_of_flags c d e m t f = cc

capabilities_beq_to : (c d : LegCapabilities) → capabilities_beq c d ≡ true → c ≡ d
capabilities_beq_to c d h =
    let (he, hm, ht, hf) = parts in
    eq_of_flags c d (same→eq _ _ he) (same→eq _ _ hm) (same→eq _ _ ht) (same→eq _ _ hf)
  where
    parts :
        (same c.endpoints d.endpoints ≡ true)
        × (same c.modalities d.modalities ≡ true)
        × (same c.context_tokens d.context_tokens ≡ true)
        × (same (flags c) (flags d) ≡ true)
    parts =
        and_split₄ (same c.endpoints d.endpoints) (same c.modalities d.modalities)
          (same c.context_tokens d.context_tokens) (same (flags c) (flags d)) h

capabilities_beq_self : (c : LegCapabilities) → capabilities_beq c c ≡ true
capabilities_beq_self c =
    rw (
      same_refl c.endpoints,
      same_refl c.modalities,
      same_refl c.context_tokens,
      same_refl (flags c),
    )

pub capabilities_beq_iff : (c d : LegCapabilities) → (capabilities_beq c d ≡ true) ↔ (c ≡ d)
capabilities_beq_iff c d = (capabilities_beq_to c d, λ h. rw (← h) (capabilities_beq_self c))

instance abbrev pub capabilities_eq : Eq LegCapabilities
capabilities_eq = record { beq = capabilities_beq; beq_iff = capabilities_beq_iff }

abbrev leg_beq : AuthorizedLeg → AuthorizedLeg → Bool
leg_beq a b =
    same (identity a) (identity b)
    && same a.allowed_triggers b.allowed_triggers
    && same a.capabilities b.capabilities

eq_of_parts :
    (a b : AuthorizedLeg)
    → identity a ≡ identity b
    → a.allowed_triggers ≡ b.allowed_triggers
    → a.capabilities ≡ b.capabilities
    → a ≡ b
eq_of_parts a b i t c = cc

leg_beq_to : (a b : AuthorizedLeg) → leg_beq a b ≡ true → a ≡ b
leg_beq_to a b h =
    let (hi, ht, hc) = parts in eq_of_parts a b (same→eq _ _ hi) (same→eq _ _ ht) (same→eq _ _ hc)
  where
    parts :
        (same (identity a) (identity b) ≡ true)
        × (same a.allowed_triggers b.allowed_triggers ≡ true)
        × (same a.capabilities b.capabilities ≡ true)
    parts =
        and_split₃ (same (identity a) (identity b)) (same a.allowed_triggers b.allowed_triggers)
          (same a.capabilities b.capabilities) h

leg_beq_self : (a : AuthorizedLeg) → leg_beq a a ≡ true
leg_beq_self a = rw (same_refl (identity a), same_refl a.allowed_triggers, same_refl a.capabilities)

pub leg_beq_iff : (a b : AuthorizedLeg) → (leg_beq a b ≡ true) ↔ (a ≡ b)
leg_beq_iff a b = (leg_beq_to a b, λ h. rw (← h) (leg_beq_self a))

instance abbrev pub leg_eq : Eq AuthorizedLeg
leg_eq = record { beq = leg_beq; beq_iff = leg_beq_iff }
