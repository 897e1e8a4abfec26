-- ===== src/Gateway/Routing/Choice.antt =====
-- What `select` returns, and when it returns a candidate.
use llmmaxxing.Base.{
  ◌≡◌, refl, sym, ap, ◌∙◌, subst, inl, inr, Bool, true, false, not, ◌&&◌, none, some, List, [], ◌∷◌,
  map, ◌==◌, contains, keep, Has, nat_eq, list_eq, option_eq, bool_eq, string_eq, Bool-cases,
  both_true, negated_false, if_true, if_false, keep-Has, ==_iff, ◌++◌, ◌⊎◌, contains-Has,
  bools_differ,
}
use llmmaxxing.Core.Ids.{AccountId, Digest}
use llmmaxxing.Core.Reasons.{DispatchCause, trigger_eq, cause_eq}
use llmmaxxing.Core.Models.Legs.{AuthorizedLeg, RequestProfile}
use llmmaxxing.Core.Models.Ceilings.{RequestAuthorizationCeiling}
use llmmaxxing.Gateway.Budget.{Candidate}
use llmmaxxing.Gateway.Runtime.Circuits.{state_eq}
use llmmaxxing.Gateway.Runtime.Views.{OperationalRuntimeView}
use llmmaxxing.Gateway.Routing.Eligible.{
  Gate, RoutingContext, eligible, candidate, candidates, select, first,
}
use llmmaxxing.Gateway.Routing.Fit.{Fit, eligible-Fit, Fit-eligible}

module _ (gate : Gate) (manifest : Digest) where
  pub record Chosen (authorization : RequestAuthorizationCeiling) (profile : RequestProfile)
      (cause : DispatchCause) (view : OperationalRuntimeView) (context : RoutingContext)
      (excluded : List AccountId) (c : Candidate) : Type 0 where
    pub listed : Has c.authorized_leg authorization.authorized_legs
    pub included : contains c.authorized_leg.account_id excluded ≡ false
    pub fits : Fit gate manifest c.authorized_leg profile cause view context
    pub group : profile.route_group_id ≡ authorization.route_group_id
    pub circuits : c ≡ candidate c.authorized_leg cause view
    pub before : List AuthorizedLeg
    pub after : List AuthorizedLeg
    pub place : authorization.authorized_legs ≡ before ++ c.authorized_leg ∷ after
    pub first_fit :
        (leg : AuthorizedLeg)
        → Has leg before
        → Has leg.account_id excluded ⊎ ¬ Fit gate manifest leg profile cause view context

  module _ (authorization : RequestAuthorizationCeiling) (profile : RequestProfile)
      (cause : DispatchCause) (view : OperationalRuntimeView) (context : RoutingContext)
      (excluded : List AccountId) where
    abbrev allowed : AuthorizedLeg → Bool
    allowed leg =
        not (contains leg.account_id excluded)
        && eligible gate manifest leg profile cause view context

    abbrev of_leg : AuthorizedLeg → Candidate
    of_leg leg = candidate leg cause view

    allowed-fits :
        (leg : AuthorizedLeg)
        → contains leg.account_id excluded ≡ false
        → Fit gate manifest leg profile cause view context
        → allowed leg ≡ true
    allowed-fits leg out fit =
        rw (out, Fit-eligible gate manifest leg profile cause view context fit) refl

    passed_over :
        (leg : AuthorizedLeg)
        → allowed leg ≡ false
        → Has leg.account_id excluded ⊎ ¬ Fit gate manifest leg profile cause view context
    passed_over leg h = elim (Bool-cases (contains leg.account_id excluded)) [
      | inl out ↦ inl (contains-Has leg.account_id excluded out)
      | inr free ↦ inr (λ fit. bools_differ (sym (allowed-fits leg free fit) ∙ h))
    ]

    -- The first leg that is allowed, and those before it.
    abbrev First : List AuthorizedLeg → Candidate → Type 0
    First legs c =
        (leg : AuthorizedLeg) × (before : List AuthorizedLeg) × (after : List AuthorizedLeg) × (legs
          ≡ before ++ leg ∷ after)
        × (allowed leg ≡ true)
        × (c ≡ of_leg leg)
        × ((l : AuthorizedLeg) → Has l before → allowed l ≡ false)

    first-some :
        (legs : List AuthorizedLeg) {c : Candidate}
        → first gate manifest (map of_leg (keep allowed legs)) ≡ some c
        → First legs c
    first-some [] h = cc
    first-some (leg ∷ legs) {c} h = elim (Bool-cases (allowed leg)) [
      | inl hit ↦ (
        leg,
        [],
        legs,
        refl,
        hit,
        cc (
          ap (λ xs. first gate manifest (map of_leg xs))
              (if_true (allowed leg) _ (keep allowed legs) hit),
          h,
        ),
        λ l m. absurd m,
      )
      | inr miss ↦
          let (l, before, after, place, a, e, none_before) = first-some legs (
            sym (
              ap (λ xs. first gate manifest (map of_leg xs))
                (if_false (allowed leg) (leg ∷ keep allowed legs) _ miss))
            ∙ h) in
          (
            l,
            leg ∷ before,
            after,
            ap (λ xs. leg ∷ xs) place,
            a,
            e,
            λ x m. elim m [
              | inl i ↦ subst (λ y. allowed y ≡ false) (sym i) miss
              | inr n ↦ none_before x n
            ],
          )
    ]

    first-finds :
        (legs : List AuthorizedLeg) (leg : AuthorizedLeg)
        → allowed leg ≡ true
        → Has leg legs
        → (c : Candidate) × (first gate manifest (map of_leg (keep allowed legs)) ≡ some c)
    first-finds legs leg hit m = any_of (keep allowed legs) (keep-Has allowed legs m hit)
      where
        any_of :
            (xs : List AuthorizedLeg)
            → Has leg xs
            → (c : Candidate) × (first gate manifest (map of_leg xs) ≡ some c)
        any_of [] k = absurd k
        any_of (x ∷ xs) k = (_, refl)

    placed :
        (before after : List AuthorizedLeg) (leg : AuthorizedLeg) → Has leg (before ++ leg ∷ after)
    placed [] after leg = inl refl
    placed (x ∷ xs) after leg = inr (placed xs after leg)

    -- A candidate that is selected is for a leg of the ceiling whose account is not excluded and that is
    -- fit to serve the request for this cause, the first such leg in the ceiling's order, and it carries the
    -- circuits of the view.
    pub select-Chosen :
        (c : Candidate)
        → select gate manifest authorization profile cause view context excluded ≡ some c
        → Chosen authorization profile cause view context excluded c
    unfolding select candidates
    select-Chosen c h = elim (Bool-cases (profile.route_group_id == authorization.route_group_id)) [
      | inr other ↦
          absurd (never (sym (ap (first gate manifest) (if_true _ [] _ (ap not other))) ∙ h))
      | inl here ↦
          let (leg, before, after, place, a, e, none_before) =
            first-some authorization.authorized_legs
              (sym (ap (first gate manifest) (if_false _ [] _ (ap not here))) ∙ h) in
          let (out, fit) = both_true (not (contains leg.account_id excluded)) _ a in
          subst (Chosen authorization profile cause view context excluded) (sym e) (record {
            listed = subst (Has leg) (sym place) (placed before after leg);
            included = negated_false _ out;
            fits = eligible-Fit gate manifest leg profile cause view context fit;
            group = (==_iff _ _).0 here;
            circuits = refl;
            before = before;
            after = after;
            place = place;
            first_fit = λ l m. passed_over l (none_before l m);
          })
    ]
      where
        never : none ≡ some c → ⊥
        never k = cc

    -- Where the request is for the ceiling's group and some leg of the ceiling is fit to serve it, of an
    -- account that is not excluded, a candidate is selected.
    pub select-finds :
        (leg : AuthorizedLeg)
        → profile.route_group_id ≡ authorization.route_group_id
        → Has leg authorization.authorized_legs
        → contains leg.account_id excluded ≡ false
        → Fit gate manifest leg profile cause view context
        → (c : Candidate) × (select gate manifest authorization profile cause view context excluded
            ≡ some c)
    unfolding select candidates
    select-finds leg g m out fit =
        let (c, found) =
          first-finds authorization.authorized_legs leg (allowed-fits leg out fit) m in
        (
          c,
          ap (first gate manifest) (
                if_false (not (profile.route_group_id == authorization.route_group_id)) [] _
                  (ap not ((==_iff _ _).1 g)))
              ∙ found,
        )
