-- ===== src/Gateway/Routing/Fallback.antt =====
-- What it means that `primary_blocking_cause` names a cause.
use llmmaxxing.Base.{
  ◌≡◌, refl, sym, ap, ◌∙◌, subst, inl, inr, Bool, true, false, not, ◌&&◌, ◌||◌, Option, none, some,
  List, [], ◌∷◌, map, leb, ◌==◌, if◌then◌else◌, same, contains, keep, null, Has, nat_eq, list_eq,
  option_eq, bool_eq, string_eq, Bool-cases, both_true, both_false, negated_false, if_true,
  if_false, keep-Has, unless-eq-some,
}
use llmmaxxing.Core.Ids.{AccountId, Digest}
use llmmaxxing.Core.Reasons.{DispatchCause, trigger_eq, cause_eq}
use llmmaxxing.Core.Models.Legs.{AuthorizedLeg, RequestProfile}
use llmmaxxing.Core.Models.Ceilings.{RequestAuthorizationCeiling}
use llmmaxxing.Gateway.Runtime.Circuits.{state_eq, opened}
use llmmaxxing.Gateway.Runtime.Recovery.{AccountCapacity}
use llmmaxxing.Gateway.Runtime.Views.{OperationalRuntimeView}
use llmmaxxing.Gateway.Routing.Eligible.{
  Gate, gate_allows, account_in, deployment_circuit_in, account_is_active, account_open,
  RoutingContext, eligible, candidate, candidates,
}
use llmmaxxing.Gateway.Routing.Blocked.{
  add, only_one, blocker_at, leg_blocker, causes_from, is_primary_for, primary_blocking_cause,
}
use llmmaxxing.Gateway.Routing.Serves.{Serves, eligible-Serves}

module _ (gate : Gate) (manifest : Digest) where
  -- A leg that is available has no blocker.
  abbrev nothing : Option DispatchCause
  nothing = none

  settled : (p q : Bool) → (if p then nothing else if q then nothing else nothing) ≡ nothing
  settled true q = refl
  settled false true = refl
  settled false false = refl

  blocker_at-none :
      (view : OperationalRuntimeView) (leg : AuthorizedLeg) (o : Option AccountCapacity)
      → account_open o ≡ true
      → same (deployment_circuit_in view leg).state opened ≡ false
      → blocker_at gate manifest view leg o ≡ none
  blocker_at-none view leg none a d = refl
  blocker_at-none view leg (some account) a d =
      let (rest, circuit) =
        both_false
          (not (account_is_active account.state)
            || account.recovery_probe_in_flight
            || leb account.parallel_limit account.active_attempts)
          _ (negated_false _ a) in
      let (_, room) =
        both_false (not (account_is_active account.state) || account.recovery_probe_in_flight) _
          rest in
      rw (room, circuit, d)
        (settled (not (account_is_active account.state) || account.recovery_probe_in_flight)
          (not (gate_allows (gate leg manifest))))

  causes_step :
      (view : OperationalRuntimeView) (causes : List DispatchCause) (legs : List AuthorizedLeg)
      {found : List DispatchCause} (o : Option DispatchCause)
      → elim o [ none ↦ none | some c ↦ causes_from gate manifest view (add c causes) legs ]
        ≡ some found
      → (c : DispatchCause) × (o ≡ some c)
        × (causes_from gate manifest view (add c causes) legs ≡ some found)
  causes_step view causes legs none h = cc
  causes_step view causes legs (some c) h = (c, refl, h)

  causes_from-each :
      (view : OperationalRuntimeView) (causes : List DispatchCause) (legs : List AuthorizedLeg)
      {found : List DispatchCause} (leg : AuthorizedLeg)
      → causes_from gate manifest view causes legs ≡ some found
      → Has leg legs
      → (c : DispatchCause) × (leg_blocker gate manifest view leg ≡ some c)
  causes_from-each view causes [] leg h m = absurd m
  causes_from-each view causes (l ∷ legs) leg h m =
      let (c, e, rest) = causes_step view causes legs (leg_blocker gate manifest view l) h in
      elim m [
        | inl i ↦ (c, subst (λ x. leg_blocker gate manifest view x ≡ some c) (sym i) e)
        | inr n ↦ causes_from-each view (add c causes) legs leg rest n
      ]

  only_one-eq-some :
      (o : Option (List DispatchCause)) {c : DispatchCause}
      → only_one o ≡ some c
      → (found : List DispatchCause) × (o ≡ some found)
  only_one-eq-some none h = cc
  only_one-eq-some (some found) h = (found, refl)

  keep-none :
      (p : AuthorizedLeg → Bool) (legs : List AuthorizedLeg)
      → ((leg : AuthorizedLeg) → Has leg legs → p leg ≡ false)
      → keep p legs ≡ []
  keep-none p [] h = refl
  keep-none p (leg ∷ legs) h =
      if_false (p leg) _ _ (h leg (inl refl)) ∙ keep-none p legs (λ l m. h l (inr m))

  Serves-primary :
      (view : OperationalRuntimeView) (profile : RequestProfile) (context : RoutingContext)
      (leg : AuthorizedLeg)
      → Serves gate manifest leg profile DispatchCause.primary view context
      → (is_primary_for gate manifest view profile leg ≡ true)
        × (leg_blocker gate manifest view leg ≡ none)
  unfolding leg_blocker
  Serves-primary view profile context leg s = (
    rw (s.trigger, s.serving, s.capable),
    blocker_at-none view leg (account_in view leg) s.account s.deployment,
  )

  -- Where `primary_blocking_cause` names a cause, no leg is a candidate for a primary dispatch, in
  -- any context and whatever is excluded.
  pub primary_blocking_cause-blocks :
      (authorization : RequestAuthorizationCeiling) (profile : RequestProfile)
      (view : OperationalRuntimeView) (context : RoutingContext) (excluded : List AccountId)
      (cause : DispatchCause)
      → primary_blocking_cause gate manifest view authorization profile ≡ some cause
      → candidates gate manifest authorization profile DispatchCause.primary view context excluded
        ≡ []
  unfolding primary_blocking_cause candidates
  primary_blocking_cause-blocks authorization profile view context excluded cause h =
      let primaries =
        keep (is_primary_for gate manifest view profile) authorization.authorized_legs in
      let (_, h') = unless-eq-some (null primaries) _ h in
      let (found, e) = only_one-eq-some (causes_from gate manifest view [] primaries) h' in
      elim (Bool-cases (profile.route_group_id == authorization.route_group_id)) [
        | inr other ↦ if_true _ [] _ (ap not other)
        | inl here ↦
            if_false _ [] _ (ap not here)
            ∙ ap (map (λ leg. candidate leg DispatchCause.primary view)) (
                keep-none _ authorization.authorized_legs (λ leg m.
                  elim (Bool-cases (
                    not (contains leg.account_id excluded)
                    && eligible gate manifest leg profile DispatchCause.primary view context)) [
                      | inr out ↦ out
                      | inl fits ↦
                          let (_, fit) = both_true _ _ fits in
                          let s =
                            eligible-Serves gate manifest leg profile DispatchCause.primary view
                              context fit in
                          let (listed, free) = Serves-primary view profile context leg s in
                          let (c, blocked) =
                            causes_from-each view [] primaries leg e
                              (keep-Has _ authorization.authorized_legs m listed) in
                          absurd (clash (sym free ∙ blocked))
                    ]))
      ]
    where
      clash : {c : DispatchCause} → none ≡ some c → ⊥
      clash k = cc
