-- ===== src/Core/Models/Ceilings/Contract.antt =====
-- What the intersection of two ceilings promises: it grants nothing that either does not.
use llmmaxxing.Base.{
  ◌≡◌, ◌≤◌, refl, subst, true, not, Option, none, some, List, [], ◌∷◌, arith, ok, value_error,
  guard-eq-ok, >>=-eq-ok, ok-injective, Has, Has-sort_by, inl, inr, nat_eq, list_eq, ◌⊎◌, sym, ℕ,
  unique, contains, both_true, false, Bool-cases, bools_differ, Has-contains, contains-Has, ◌∙◌,
  negated_false, Has-map, map, map-Has,
}
use llmmaxxing.Base.Dict.{Dict, lookup, dict_by, lookup-dict_by}
use llmmaxxing.Core.Ids.{RouteLegId}
use llmmaxxing.Core.Models.Legs.{AuthorizedLeg, identity, leg_meet}
use llmmaxxing.Core.Models.Legs.Meet.{Contracts, leg_meet-lower}
use llmmaxxing.Core.Models.Routes.{unique_legs, leg_before}
use llmmaxxing.Core.Models.Ceilings.{
  RequestAuthorizationCeiling, ceiling, meet_with, legs_meet, same_admission, intersection,
}

-- Every leg is the contraction of a leg of `old`.
abbrev pub Below : List AuthorizedLeg → List AuthorizedLeg → Type 0
Below new old =
    (leg : AuthorizedLeg) → Has leg new → (from : AuthorizedLeg) × Has from old × Contracts leg from

pub record Tighter (new old : RequestAuthorizationCeiling) : Type 0 where
  pub legs : Below new.authorized_legs old.authorized_legs
  pub tier : old.queue_tier ≤ new.queue_tier
  pub weight : new.queue_weight ≤ old.queue_weight
  pub concurrency : new.max_concurrency ≤ old.max_concurrency
  pub waiters : new.max_waiters ≤ old.max_waiters
  pub deadline : new.deadline_ms ≤ old.deadline_ms

meet_with-Has :
    (a leg : AuthorizedLeg) (o : Option AuthorizedLeg) (rest : List AuthorizedLeg)
    → Has leg (meet_with o a rest)
    → ((b : AuthorizedLeg) × (o ≡ some b) × (leg_meet a b ≡ some leg)) ⊎ Has leg rest
meet_with-Has a leg none rest h = inr h
meet_with-Has a leg (some b) rest h = by_meet (leg_meet a b) refl h
  where
    by_meet :
        (m : Option AuthorizedLeg)
        → leg_meet a b ≡ m
        → Has leg (elim m [ none ↦ rest | some l ↦ l ∷ rest ])
        → ((b' : AuthorizedLeg) × (some b ≡ some b') × (leg_meet a b' ≡ some leg)) ⊎ Has leg rest
    by_meet none e k = inr k
    by_meet (some l) e (inl k) = inl (b, refl, rw k e)
    by_meet (some l) e (inr k) = inr k

legs_meet-Has :
    (leg : AuthorizedLeg) (old : List AuthorizedLeg) (d : Dict (List ℕ) AuthorizedLeg)
    → Has leg (legs_meet old d)
    → (a b : AuthorizedLeg) × Has a old
      × (lookup (identity a) d ≡ some b)
      × (leg_meet a b ≡ some leg)
legs_meet-Has leg [] d h = absurd h
legs_meet-Has leg (a ∷ as') d h =
    elim (meet_with-Has a leg (lookup (identity a) d) (legs_meet as' d) h) [
      | inl (b, found, met) ↦ (a, b, inl refl, found, met)
      | inr later ↦
          let (c, b, m, found, met) = legs_meet-Has leg as' d later in (c, b, inr m, found, met)
    ]

-- The legs of the intersection contract a leg of the first and a leg of the second.
legs_meet-Below :
    (xs ys : List AuthorizedLeg)
    → Below (legs_meet xs (dict_by identity ys)) xs × Below (legs_meet xs (dict_by identity ys)) ys
legs_meet-Below xs ys = (
  λ leg h.
      let (a, b, m, found, met) = legs_meet-Has leg xs (dict_by identity ys) h in
      (a, m, (leg_meet-lower a b met).0),
  λ leg h.
      let (a, b, m, found, met) = legs_meet-Has leg xs (dict_by identity ys) h in
      (b, (lookup-dict_by identity (identity a) ys found).0, (leg_meet-lower a b met).1),
)

pub unique_legs-Has :
    (legs : List AuthorizedLeg) {r : List AuthorizedLeg}
    → unique_legs legs ≡ ok r
    → (leg : AuthorizedLeg) → Has leg r
    → Has leg legs
unfolding unique_legs
unique_legs-Has legs h leg k =
    let (_, h') = guard-eq-ok _ value_error _ h in
    Has-sort_by leg_before leg legs (subst (Has leg) (sym (ok-injective h')) k)

ceiling-Tighter :
    (c old : RequestAuthorizationCeiling) {r : RequestAuthorizationCeiling}
    → ceiling c ≡ ok r
    → Below c.authorized_legs old.authorized_legs
    → old.queue_tier ≤ c.queue_tier
    → c.queue_weight ≤ old.queue_weight
    → c.max_concurrency ≤ old.max_concurrency
    → c.max_waiters ≤ old.max_waiters
    → c.deadline_ms ≤ old.deadline_ms
    → Tighter r old
unfolding ceiling
ceiling-Tighter c old h legs t w m q dl =
    let (ls, unique, made) = >>=-eq-ok (unique_legs c.authorized_legs) _ h in
    subst (λ r. Tighter r old) (ok-injective made)
      (record {
        legs = λ leg k. legs leg (unique_legs-Has c.authorized_legs unique leg k);
        tier = t;
        weight = w;
        concurrency = m;
        waiters = q;
        deadline = dl;
      })

-- An intersection that returns is no wider than either ceiling.
pub intersection-Tighter :
    (c d : RequestAuthorizationCeiling) {r : RequestAuthorizationCeiling}
    → intersection c d ≡ ok r
    → Tighter r c × Tighter r d
unfolding intersection
intersection-Tighter c d h =
    let (_, h') = guard-eq-ok (not (same_admission c d)) value_error _ h in
    let (left, right) = legs_meet-Below c.authorized_legs d.authorized_legs in
    (
      ceiling-Tighter _ c h' left (omega arith) (omega arith) (omega arith) (omega arith)
          (omega arith),
      ceiling-Tighter _ d h' right (omega arith) (omega arith) (omega arith) (omega arith)
          (omega arith),
    )

abbrev pub leg_ids : List AuthorizedLeg → List RouteLegId
leg_ids legs = map (λ leg. leg.leg_id) legs

same_leg_id : (a b : AuthorizedLeg) → identity a ≡ identity b → a.leg_id ≡ b.leg_id
same_leg_id a b h = cc

-- No leg id is in the intersection that was not in the first list.
legs_meet-leg_ids :
    (y : RouteLegId) (xs : List AuthorizedLeg) (d : Dict (List ℕ) AuthorizedLeg)
    → Has y (leg_ids (legs_meet xs d))
    → Has y (leg_ids xs)
legs_meet-leg_ids y xs d h =
    let (leg, m, e) = Has-map (λ l. l.leg_id) (legs_meet xs d) h in
    let (a, b, n, found, met) = legs_meet-Has leg xs d m in
    let i = same_leg_id leg a (leg_meet-lower a b met).0.identity_kept in
    subst (λ z. Has z (leg_ids xs)) (sym i ∙ e) (map-Has (λ l. l.leg_id) a xs n)

meet_with-unique :
    (a : AuthorizedLeg) (o : Option AuthorizedLeg) (rest : List AuthorizedLeg)
    → unique (leg_ids rest) ≡ true
    → contains a.leg_id (leg_ids rest) ≡ false
    → unique (leg_ids (meet_with o a rest)) ≡ true
meet_with-unique a none rest u n = u
meet_with-unique a (some b) rest u n = by_meet (leg_meet a b) refl
  where
    by_meet :
        (m : Option AuthorizedLeg)
        → leg_meet a b ≡ m
        → unique (leg_ids (elim m [ none ↦ rest | some l ↦ l ∷ rest ])) ≡ true
    by_meet none e = u
    by_meet (some l) e =
        let i = same_leg_id l a (leg_meet-lower a b e).0.identity_kept in rw (i, n, u)

legs_meet-unique :
    (xs : List AuthorizedLeg) (d : Dict (List ℕ) AuthorizedLeg)
    → unique (leg_ids xs) ≡ true
    → unique (leg_ids (legs_meet xs d)) ≡ true
legs_meet-unique [] d u = refl
legs_meet-unique (a ∷ as') d u =
    let (out, rest) = both_true (not (contains a.leg_id (leg_ids as'))) _ u in
    meet_with-unique a (lookup (identity a) d) (legs_meet as' d) (legs_meet-unique as' d rest)
      (elim (Bool-cases (contains a.leg_id (leg_ids (legs_meet as' d)))) [
        | inr fresh ↦ fresh
        | inl there ↦ absurd (
            bools_differ (
              sym (
                Has-contains a.leg_id (leg_ids as') (
                  legs_meet-leg_ids a.leg_id as' d
                    (contains-Has a.leg_id (leg_ids (legs_meet as' d)) there)))
              ∙ negated_false _ out))
      ])

-- Two ceilings of one admission, the first with unique legs, have an intersection.
pub intersection-total :
    (c d : RequestAuthorizationCeiling)
    → same_admission c d ≡ true
    → unique (leg_ids c.authorized_legs) ≡ true
    → (r : RequestAuthorizationCeiling) × (intersection c d ≡ ok r)
unfolding intersection ceiling unique_legs
intersection-total c d s u =
    rw (s, legs_meet-unique c.authorized_legs (dict_by identity d.authorized_legs) u) (_, refl)

-- Two ceilings of one admission, the legs of the first unique, have an intersection, and it is no
-- wider than either: each leg contracts a leg of the first and a leg of the second, the tier is no
-- better, and the weight, the concurrency, the waiters and the deadline are no greater.
pub intersection-refines :
    (c d : RequestAuthorizationCeiling)
    → same_admission c d ≡ true
    → unique (leg_ids c.authorized_legs) ≡ true
    → (r : RequestAuthorizationCeiling) × (intersection c d ≡ ok r) × Tighter r c × Tighter r d
intersection-refines c d s u =
    let (r, e) = intersection-total c d s u in
    let (left, right) = intersection-Tighter c d e in (r, e, left, right)
