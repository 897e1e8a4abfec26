-- ===== src/Core/Models/Ceilings/Order.antt =====
-- That a ceiling is no wider than another is an order: it holds of a ceiling and itself, and from one
-- contraction to the next.
use llmmaxxing.Base.{refl, ◌∙◌, [], arith, nat_eq, list_eq, option_eq, bool_eq, string_eq}
use llmmaxxing.Core.Models.Legs.{LegCapabilities, AuthorizedLeg}
use llmmaxxing.Core.Models.Legs.Meet.{Narrower, Contracts}
use llmmaxxing.Core.Models.Ceilings.{RequestAuthorizationCeiling}
use llmmaxxing.Core.Models.Ceilings.Contract.{Tighter}

Narrower-refl : (c : LegCapabilities) → Narrower c c
Narrower-refl c = record {
  endpoints = λ x h. h;
  modalities = λ x h. h;
  context = omega arith;
  tools = λ h. h;
  forced_tool = λ h. h;
  response_schema = λ h. h;
  streaming = λ h. h;
  reasoning = λ h. h;
  history = λ h. h;
  shadow = λ h. h;
}

Narrower-trans : (c d e : LegCapabilities) → Narrower c d → Narrower d e → Narrower c e
Narrower-trans c d e h k = record {
  endpoints = λ x m. k.endpoints x (h.endpoints x m);
  modalities = λ x m. k.modalities x (h.modalities x m);
  context = omega (arith, h.context, k.context);
  tools = λ m. k.tools (h.tools m);
  forced_tool = λ m. k.forced_tool (h.forced_tool m);
  response_schema = λ m. k.response_schema (h.response_schema m);
  streaming = λ m. k.streaming (h.streaming m);
  reasoning = λ m. k.reasoning (h.reasoning m);
  history = λ m. k.history (h.history m);
  shadow = λ m. h.shadow (k.shadow m);
}

Contracts-refl : (a : AuthorizedLeg) → Contracts a a
Contracts-refl a = record {
  identity_kept = refl;
  triggers = λ x h. h;
  shape = Narrower-refl a.capabilities;
}

Contracts-trans : (a b c : AuthorizedLeg) → Contracts a b → Contracts b c → Contracts a c
Contracts-trans a b c h k = record {
  identity_kept = h.identity_kept ∙ k.identity_kept;
  triggers = λ x m. k.triggers x (h.triggers x m);
  shape = Narrower-trans a.capabilities b.capabilities c.capabilities h.shape k.shape;
}

pub Tighter-refl : (c : RequestAuthorizationCeiling) → Tighter c c
Tighter-refl c = record {
  legs = λ leg m. (leg, m, Contracts-refl leg);
  tier = omega arith;
  weight = omega arith;
  concurrency = omega arith;
  waiters = omega arith;
  deadline = omega arith;
}

pub Tighter-trans : (c d e : RequestAuthorizationCeiling) → Tighter c d → Tighter d e → Tighter c e
Tighter-trans c d e h k = record {
  legs = λ leg m.
      let (b, n, below) = h.legs leg m in
      let (a, o, under) = k.legs b n in (a, o, Contracts-trans leg b a below under);
  tier = omega (arith, h.tier, k.tier);
  weight = omega (arith, h.weight, k.weight);
  concurrency = omega (arith, h.concurrency, k.concurrency);
  waiters = omega (arith, h.waiters, k.waiters);
  deadline = omega (arith, h.deadline, k.deadline);
}

-- A ceiling that has lost its legs is no wider than it was.
pub no_legs-Tighter :
    (c : RequestAuthorizationCeiling) → Tighter (record c { authorized_legs = [] }) c
no_legs-Tighter c = record {
  legs = λ leg m. absurd m;
  tier = omega arith;
  weight = omega arith;
  concurrency = omega arith;
  waiters = omega arith;
  deadline = omega arith;
}
