-- ===== src/Gateway/Routing/Overlap.antt =====
-- src/llmmaxxing/gateway/routing.py and core/models.py: the test of a leg's capabilities on the
-- intersection of two ceilings.
use llmmaxxing.Base.{
  ℕ, ◌+◌, ◌≡◌, refl, subst, Bool, true, false, not, ◌&&◌, ◌||◌, List, [], ◌∷◌, min, arith, leb,
  ◌==◌, contains, keep, same, same→eq, same_refl, Eq, Bool-cases, inl, inr,
}
use llmmaxxing.Core.Reasons.{endpoint_eq, modality_eq}
use llmmaxxing.Core.Models.Legs.{
  LegCapabilities, RequestProfile, overlap, forced_tool_requires_tools,
}
use llmmaxxing.Gateway.Routing.{allows}

-- Two conjunctions are one of conjunctions.
and_and : (x y z r s t : Bool) → x ≡ (y && z) → r ≡ (s && t) → (x && r) ≡ ((y && s) && (z && t))
and_and x y z r s t h k = rw (h, k) (shuffle y z s t)
  where
    shuffle : (y z s t : Bool) → ((y && z) && (s && t)) ≡ ((y && s) && (z && t))
    shuffle true true s t = refl
    shuffle true false true t = refl
    shuffle true false false t = refl
    shuffle false z s t = refl

contains-keep :
    {A : Type 0} ⦃e : Eq A⦄ (x : A) (xs ys : List A)
    → contains x (keep (λ z. contains z ys) xs) ≡ (contains x xs && contains x ys)
contains-keep x [] ys = refl
contains-keep x (z ∷ xs) ys = elim (Bool-cases (same x z)) [
  | inl here ↦
      subst
        (λ w.
          contains x (keep (λ v. contains v ys) (w ∷ xs)) ≡ (contains x (w ∷ xs) && contains x ys))
        (same→eq x z here)
        (elim (Bool-cases (contains x ys)) [
          | inl k ↦ ground (arith, same_refl x)
          | inr k ↦ ground (arith, contains-keep x xs ys)
        ])
  | inr away ↦ ground (arith, contains-keep x xs ys)
]

leb-min : (n a b : ℕ) → leb n (min a b) ≡ (leb n a && leb n b)
leb-min n a b = ground arith

or_and : (g a b : Bool) → (g || (a && b)) ≡ ((g || a) && (g || b))
or_and true a b = refl
or_and false a b = refl

-- The forced tool of the intersection, where forcing a tool requires tools.
or_forced :
    (g t u f h : Bool)
    → (not f || t) ≡ true
    → (not h || u) ≡ true
    → (g || ((t && u) && f && h)) ≡ ((g || f) && (g || h))
or_forced true t u f h k l = refl
or_forced false true true f h k l = refl
or_forced false false u true h k l = cc
or_forced false false u false h k l = refl
or_forced false true false true true k l = cc
or_forced false true false true false k l = refl
or_forced false true false false h k l = refl

-- The intersection of two capabilities allows exactly the requests that both allow, where each
-- keeps to the rule that forcing a tool requires tools.
pub allows-overlap :
    (c d : LegCapabilities) (p : RequestProfile)
    → forced_tool_requires_tools c ≡ true
    → forced_tool_requires_tools d ≡ true
    → allows (overlap c d) p ≡ (allows c p && allows d p)
allows-overlap c d p hc hd =
    let e₁ =
      and_and _ (contains p.endpoint c.endpoints) (contains p.endpoint d.endpoints) _
        (contains p.modality c.modalities) (contains p.modality d.modalities)
        (contains-keep p.endpoint c.endpoints d.endpoints)
        (contains-keep p.modality c.modalities d.modalities) in
    let c₁ = (contains p.endpoint c.endpoints) && (contains p.modality c.modalities) in
    let d₁ = (contains p.endpoint d.endpoints) && (contains p.modality d.modalities) in
    let e₂ =
      and_and _ c₁ d₁ _
        (leb (p.input_tokens_max + p.output_tokens_max + p.reasoning_tokens_max) c.context_tokens)
        (leb (p.input_tokens_max + p.output_tokens_max + p.reasoning_tokens_max) d.context_tokens)
        e₁
        (leb-min (p.input_tokens_max + p.output_tokens_max + p.reasoning_tokens_max)
          c.context_tokens d.context_tokens) in
    let c₂ =
      c₁
      && (leb (p.input_tokens_max + p.output_tokens_max + p.reasoning_tokens_max)
          c.context_tokens) in
    let d₂ =
      d₁
      && (leb (p.input_tokens_max + p.output_tokens_max + p.reasoning_tokens_max)
          d.context_tokens) in
    let e₃ =
      and_and _ c₂ d₂ _ (p.tools_count == 0 || c.tools) (p.tools_count == 0 || d.tools) e₂
        (or_and (p.tools_count == 0) c.tools d.tools) in
    let c₃ = c₂ && (p.tools_count == 0 || c.tools) in
    let d₃ = d₂ && (p.tools_count == 0 || d.tools) in
    let e₄ =
      and_and _ c₃ d₃ _ (not p.forced_tool_required || c.forced_tool)
        (not p.forced_tool_required || d.forced_tool) e₃
        (or_forced (not p.forced_tool_required) c.tools d.tools c.forced_tool d.forced_tool hc
          hd) in
    let c₄ = c₃ && (not p.forced_tool_required || c.forced_tool) in
    let d₄ = d₃ && (not p.forced_tool_required || d.forced_tool) in
    let e₅ =
      and_and _ c₄ d₄ _ (not p.response_schema_present || c.response_schema)
        (not p.response_schema_present || d.response_schema) e₄
        (or_and (not p.response_schema_present) c.response_schema d.response_schema) in
    let c₅ = c₄ && (not p.response_schema_present || c.response_schema) in
    let d₅ = d₄ && (not p.response_schema_present || d.response_schema) in
    let e₆ =
      and_and _ c₅ d₅ _ (not p.stream || c.streaming) (not p.stream || d.streaming) e₅
        (or_and (not p.stream) c.streaming d.streaming) in
    let c₆ = c₅ && (not p.stream || c.streaming) in
    let d₆ = d₅ && (not p.stream || d.streaming) in
    let e₇ =
      and_and _ c₆ d₆ _ (p.reasoning_tokens_max == 0 || c.reasoning)
        (p.reasoning_tokens_max == 0 || d.reasoning) e₆
        (or_and (p.reasoning_tokens_max == 0) c.reasoning d.reasoning) in
    let c₇ = c₆ && (p.reasoning_tokens_max == 0 || c.reasoning) in
    let d₇ = d₆ && (p.reasoning_tokens_max == 0 || d.reasoning) in
    and_and _ c₇ d₇ _ (p.history_turns == 0 || c.history_continuation)
      (p.history_turns == 0 || d.history_continuation) e₇
      (or_and (p.history_turns == 0) c.history_continuation d.history_continuation)
