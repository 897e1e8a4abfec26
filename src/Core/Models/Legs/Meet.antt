-- ===== src/Core/Models/Legs/Meet.antt =====
-- What the intersections of capabilities and of legs promise: they are greatest lower bounds of
-- the authority that is granted, and never grant a trigger or a shape that one side lacks.
use llmmaxxing.Base.{
  ◌≤◌, ◌≡◌, refl, Bool, true, Option, none, some, List, arith, Eq, same, same→eq, contains, keep,
  Has, Has-keep, keep-Has, contains-Has, Has-contains, if-eq-some, unless-eq-some, nat_eq, list_eq,
  null,
}
use llmmaxxing.Core.Reasons.{RouteTrigger, trigger_eq, endpoint_eq, modality_eq}
use llmmaxxing.Core.Models.Legs.{
  LegCapabilities, AuthorizedLeg, capabilities_meet, overlap, leg_meet, leg_meet_body, identity,
  forced_tool_requires_tools,
}

-- `xs` grants nothing that `ys` does not.
abbrev pub Within : {A : Type 0} → List A → List A → Type 0
Within {A} xs ys = (x : A) → Has x xs → Has x ys

abbrev Implies : Bool → Bool → Type 0
Implies a b = a ≡ true → b ≡ true

-- `c` is no wider than `d`: a shadow capability is a restriction, so it points the other way.
pub record Narrower (c d : LegCapabilities) : Type 0 where
  pub endpoints : Within c.endpoints d.endpoints
  pub modalities : Within c.modalities d.modalities
  pub context : c.context_tokens ≤ d.context_tokens
  pub tools : Implies c.tools d.tools
  pub forced_tool : Implies c.forced_tool d.forced_tool
  pub response_schema : Implies c.response_schema d.response_schema
  pub streaming : Implies c.streaming d.streaming
  pub reasoning : Implies c.reasoning d.reasoning
  pub history : Implies c.history_continuation d.history_continuation
  pub shadow : Implies d.shadow c.shadow

module _ {A : Type 0} ⦃e : Eq A⦄ where
  both-left : (xs ys : List A) → Within (keep (λ x. contains x ys) xs) xs
  both-left xs ys x h = (Has-keep _ xs h).0

  both-right : (xs ys : List A) → Within (keep (λ x. contains x ys) xs) ys
  both-right xs ys x h = contains-Has x ys (Has-keep _ xs h).1

  both-greatest :
      (zs xs ys : List A) → Within zs xs → Within zs ys → Within zs (keep (λ x. contains x ys) xs)
  both-greatest zs xs ys hx hy z h = keep-Has _ xs (hx z h) (Has-contains z ys (hy z h))

pub capabilities_meet-eq-some :
    (c d : LegCapabilities) {m : LegCapabilities} → capabilities_meet c d ≡ some m → m ≡ overlap c d
unfolding capabilities_meet
capabilities_meet-eq-some c d h = ground arith

overlap-left : (c d : LegCapabilities) → Narrower (overlap c d) c
overlap-left c d = record {
  endpoints = both-left c.endpoints d.endpoints;
  modalities = both-left c.modalities d.modalities;
  context = omega arith;
  tools = ground arith;
  forced_tool = ground arith;
  response_schema = ground arith;
  streaming = ground arith;
  reasoning = ground arith;
  history = ground arith;
  shadow = ground arith;
}

overlap-right : (c d : LegCapabilities) → Narrower (overlap c d) d
overlap-right c d = record {
  endpoints = both-right c.endpoints d.endpoints;
  modalities = both-right c.modalities d.modalities;
  context = omega arith;
  tools = ground arith;
  forced_tool = ground arith;
  response_schema = ground arith;
  streaming = ground arith;
  reasoning = ground arith;
  history = ground arith;
  shadow = ground arith;
}

-- The intersection is no wider than either side.
pub capabilities_meet-lower :
    (c d : LegCapabilities) {m : LegCapabilities}
    → capabilities_meet c d ≡ some m
    → Narrower m c × Narrower m d
capabilities_meet-lower c d h =
    rw (capabilities_meet-eq-some c d h) (overlap-left c d, overlap-right c d)

-- Whatever is narrower than both sides is narrower than their intersection.
pub overlap-greatest :
    (z c d : LegCapabilities)
    → forced_tool_requires_tools z ≡ true
    → Narrower z c
    → Narrower z d
    → Narrower z (overlap c d)
overlap-greatest z c d v h k = record {
  endpoints = both-greatest z.endpoints c.endpoints d.endpoints h.endpoints k.endpoints;
  modalities = both-greatest z.modalities c.modalities d.modalities h.modalities k.modalities;
  context = omega (arith, h.context, k.context);
  tools = λ t. ground (arith, h.tools t, k.tools t);
  forced_tool = λ t.
      let u : z.tools ≡ true = ground arith in
      ground (arith, h.tools u, k.tools u, h.forced_tool t, k.forced_tool t);
  response_schema = λ t. ground (arith, h.response_schema t, k.response_schema t);
  streaming = λ t. ground (arith, h.streaming t, k.streaming t);
  reasoning = λ t. ground (arith, h.reasoning t, k.reasoning t);
  history = λ t. ground (arith, h.history t, k.history t);
  shadow = λ t. ground (arith, h.shadow, k.shadow);
}

pub record Contracts (new old : AuthorizedLeg) : Type 0 where
  pub identity_kept : identity new ≡ identity old
  pub triggers : Within new.allowed_triggers old.allowed_triggers
  pub shape : Narrower new.capabilities old.capabilities

leg_meet_body-eq-some :
    (a : AuthorizedLeg) (ts : List RouteTrigger) (o : Option LegCapabilities) {m : AuthorizedLeg}
    → leg_meet_body a ts o ≡ some m
    → (c : LegCapabilities) × (o ≡ some c)
      × (m ≡ record a { allowed_triggers = ts; capabilities = c })
leg_meet_body-eq-some a ts none h = cc
leg_meet_body-eq-some a ts (some c) h = (c, refl, cc ((unless-eq-some (null ts) _ h).1))

-- The intersection of two legs keeps their common identity, and is no wider than either.
pub leg_meet-lower :
    (a b : AuthorizedLeg) {m : AuthorizedLeg}
    → leg_meet a b ≡ some m
    → Contracts m a × Contracts m b
unfolding leg_meet
leg_meet-lower a b h =
    let (i, body) = if-eq-some (same (identity a) (identity b)) _ h in
    let (c, e, kept) = leg_meet_body-eq-some a _ _ body in
    let (left, right) = capabilities_meet-lower a.capabilities b.capabilities e in
    rw kept (
      record {
        identity_kept = refl;
        triggers = both-left a.allowed_triggers b.allowed_triggers;
        shape = left;
      },
      record {
        identity_kept = same→eq (identity a) (identity b) i;
        triggers = both-right a.allowed_triggers b.allowed_triggers;
        shape = right;
      },
    )
