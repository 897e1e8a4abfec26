-- ===== src/Core/Models/Keys/Accepted.antt =====
-- What a client key record that passes its validator promises of the verifiers it accepts.
use llmmaxxing.Base.{
  nat_eq, ◌||◌, ◌==◌, Bool, true, false, not, List, [], ◌∷◌, length, keep, null, if◌then◌else◌, ◌≤◌,
  ◌+◌, ◌*◌, ◌-◌, Result, ok, raised, ◌≡◌, refl, any, unique, ℕ, ltb-false, guard-eq-ok, value_error,
  leb, arith, negated_true, ltb, >>=-eq-ok, both_false, any-none, All-of_each, All, ◌≢◌, inl, Has,
  ok-injective, ◌⊎◌, ◌<◌, max, subst, inr, keep-Has, Has-keep, sym, ==_iff, map-Has, ap, ◌∙◌,
}
use llmmaxxing.Core.Models.Keys.{
  Verifier, ClientKeyRecord, check_accepted, valid_lifetime_and_generations, is_terminal_key,
  is_accepted_verifier, is_active_verifier, lacks_one_active, verifiers_of, generations,
  is_increasing, greatest, out_of_lifetime, KeyLifecycleState, CredentialVerifierStatus,
  greatest_from, is_revoked,
}

-- A verifier that authentication accepts.
abbrev pub IsAccepted : Verifier → Type 0
IsAccepted v =
    (v.status ≡ CredentialVerifierStatus.active) ⊎ (v.status ≡ CredentialVerifierStatus.retiring)

-- The state of the key ended it, or its lifetime is over.
abbrev pub IsOver : ClientKeyRecord → Type 0
IsOver k = (k.state ≡ KeyLifecycleState.revoked) ⊎ (k.expires_at_s ≤ k.time_high_water_s)

-- The one active verifier, and no generation is newer.
abbrev pub OneActive : ClientKeyRecord → Type 0
OneActive k =
    (v : Verifier) × Has v (verifiers_of k)
    × (v.status ≡ CredentialVerifierStatus.active)
    × All (λ (w : Verifier). w.generation ≤ v.generation) (verifiers_of k)
    × ((w : Verifier) → Has w (verifiers_of k) → w.status ≡ CredentialVerifierStatus.active → w ≡ v)

abbrev pub InLifetime : ClientKeyRecord → Verifier → Type 0
InLifetime k v = (k.issued_at_s ≤ v.not_before_s) × (v.not_after_s ≤ k.expires_at_s)

pub record Sound (k : ClientKeyRecord) : Type 0 where
  pub over : IsOver k → (v : Verifier) → Has v (verifiers_of k) → IsAccepted v → ⊥
  pub live :
      k.state ≢ KeyLifecycleState.revoked → k.time_high_water_s < k.expires_at_s → OneActive k
  pub newest : All (λ (v : Verifier). v.generation ≤ k.generation_high_water) (verifiers_of k)
  pub few : length (verifiers_of k) ≤ 2
  pub inside : All (InLifetime k) (verifiers_of k)
  pub year : k.expires_at_s ≤ k.issued_at_s + 365 * 86400

-- What is accepted of a key that is terminal, or of one that is not.
abbrev AcceptedFit : Bool → ClientKeyRecord → Type 0
AcceptedFit true k = keep is_accepted_verifier (verifiers_of k) ≡ []
AcceptedFit false k =
    (v : Verifier) × (keep is_active_verifier (verifiers_of k) ≡ v ∷ [])
    × (v.generation ≡ k.generation_high_water)

is_accepted_verifier-yes : (v : Verifier) → IsAccepted v → is_accepted_verifier v ≡ true
is_accepted_verifier-yes v (inl h) = rw h refl
is_accepted_verifier-yes v (inr h) = rw h refl

is_active_verifier-yes :
    (s : CredentialVerifierStatus) (v : Verifier)
    → v.status ≡ s
    → is_active_verifier v ≡ true
    → s ≡ CredentialVerifierStatus.active
is_active_verifier-yes s v h k = by_status s (sym (ap active_status h) ∙ k)
  where
    active_status : CredentialVerifierStatus → Bool
    active_status x = elim x [ CredentialVerifierStatus.active ↦ true | _ ↦ false ]

    by_status :
        (x : CredentialVerifierStatus)
        → active_status x ≡ true
        → x ≡ CredentialVerifierStatus.active
    by_status CredentialVerifierStatus.active e = refl
    by_status CredentialVerifierStatus.retiring e = cc
    by_status CredentialVerifierStatus.retired e = cc
    by_status CredentialVerifierStatus.expired e = cc

is_terminal_key-over : (k : ClientKeyRecord) → IsOver k → is_terminal_key k ≡ true
is_terminal_key-over k (inl h) = rw h refl
is_terminal_key-over k (inr h) = ground (arith, h)

is_terminal_key-live :
    (k : ClientKeyRecord)
    → k.state ≢ KeyLifecycleState.revoked
    → k.time_high_water_s < k.expires_at_s
    → is_terminal_key k ≡ false
is_terminal_key-live k n h = rw (by_state k.state n) (ground (arith, h))
  where
    by_state : (x : KeyLifecycleState) → x ≢ KeyLifecycleState.revoked → is_revoked x ≡ false
    by_state KeyLifecycleState.revoked m = absurd (m refl)
    by_state KeyLifecycleState.enabled m = refl
    by_state KeyLifecycleState.draft m = refl
    by_state KeyLifecycleState.suspended m = refl

greatest_from-le :
    (m : ℕ) (xs : List ℕ) → (m ≤ greatest_from m xs) × ((x : ℕ) → Has x xs → x ≤ greatest_from m xs)
greatest_from-le m [] = (omega arith, λ x h. absurd h)
greatest_from-le m (y ∷ ys) =
    let (low, rest) = greatest_from-le (max m y) ys in (omega (arith, low), λ x. elim_on x low rest)
  where
    elim_on :
        (x : ℕ)
        → max m y ≤ greatest_from (max m y) ys
        → ((z : ℕ) → Has z ys → z ≤ greatest_from (max m y) ys)
        → Has x (y ∷ ys)
        → x ≤ greatest_from (max m y) ys
    elim_on x low rest (inl e) = omega (arith, low, e)
    elim_on x low rest (inr h) = rest x h

greatest-le : (xs : List ℕ) {m : ℕ} → greatest xs ≡ ok m → (x : ℕ) → Has x xs → x ≤ m
greatest-le [] h x k = absurd k
greatest-le (y ∷ ys) {m} h x (inl e) = omega (arith, (greatest_from-le y ys).0, e, ok-injective h)
greatest-le (y ∷ ys) {m} h x (inr k) = omega (arith, (greatest_from-le y ys).1 x k, ok-injective h)

null-empty : {A : Type 0} (xs : List A) → null xs ≡ true → xs ≡ []
null-empty [] h = refl
null-empty (x ∷ xs) h = cc

lacks_one_active-false :
    (m : ℕ) (xs : List Verifier)
    → lacks_one_active m xs ≡ false
    → (v : Verifier) × (xs ≡ v ∷ []) × (v.generation ≡ m)
lacks_one_active-false m [] h = cc
lacks_one_active-false m (v ∷ []) h = (v, refl, ground arith)
lacks_one_active-false m (v ∷ w ∷ vs) h = cc

raise_then :
    {A : Type 0} (b : Bool) (m : Result A) {a : A}
    → (if b then raised value_error else m) ≡ ok a
    → (b ≡ false) × (m ≡ ok a)
raise_then true m h = cc
raise_then false m h = (refl, h)

fits_of :
    (t : Bool) (k : ClientKeyRecord) {r : ClientKeyRecord}
    → (if t
        then (if not (null (keep is_accepted_verifier (verifiers_of k)))
            then raised value_error
            else ok k)
        else if lacks_one_active k.generation_high_water (keep is_active_verifier (verifiers_of k))
        then raised value_error
        else ok k)
      ≡ ok r
    → AcceptedFit t k
fits_of true k h = null-empty _ (negated_true _ (raise_then _ _ h).0)
fits_of false k h = lacks_one_active-false k.generation_high_water _ (raise_then _ _ h).0

check_accepted-ok :
    (k : ClientKeyRecord) {r : ClientKeyRecord}
    → check_accepted k ≡ ok r
    → (length (keep is_accepted_verifier (verifiers_of k)) ≤ 2) × AcceptedFit (is_terminal_key k) k
unfolding check_accepted
check_accepted-ok k h =
    let (few, h') = raise_then _ _ h in (ltb-false 2 _ few, fits_of (is_terminal_key k) k h')

-- Nothing of a key that is revoked or past its expiry is accepted, where the key passes its validator;
-- any other key that passes has exactly one active verifier, and no verifier is of a newer
-- generation. No generation is above the high water, there are at most two verifiers, and every
-- verifier's window is inside the key's lifetime, which is at most a year.
pub valid_lifetime_and_generations-Sound :
    (k : ClientKeyRecord) {r : ClientKeyRecord} → valid_lifetime_and_generations k ≡ ok r → Sound k
unfolding valid_lifetime_and_generations
valid_lifetime_and_generations-Sound k h =
    let (_, h1) = guard-eq-ok (leb k.expires_at_s k.issued_at_s) value_error _ h in
    let (year, h2) =
      guard-eq-ok (ltb (365 * 86400) (k.expires_at_s - k.issued_at_s)) value_error _ h1 in
    let (_, h3) = guard-eq-ok (ltb k.time_high_water_s k.issued_at_s) value_error _ h2 in
    let (_, h4) =
      guard-eq-ok (not (is_increasing (generations k.credential_verifiers))) value_error _ h3 in
    let (_, h5) =
      guard-eq-ok (not (is_increasing (generations k.legacy_verifiers))) value_error _ h4 in
    let (_, h6) = guard-eq-ok (null (verifiers_of k)) value_error _ h5 in
    let (two, h7) =
      guard-eq-ok (ltb 2 (length (verifiers_of k)) || not (unique (generations (verifiers_of k))))
        value_error _ h6 in
    let (newest, top, h8) = >>=-eq-ok (greatest (generations (verifiers_of k))) _ h7 in
    let (high, h9) = guard-eq-ok (not (newest == k.generation_high_water)) value_error _ h8 in
    let (inside, h10) = guard-eq-ok (any (out_of_lifetime k) (verifiers_of k)) value_error _ h9 in
    let (_, fits) = check_accepted-ok k h10 in
    let bounded : (v : Verifier) → Has v (verifiers_of k) → v.generation ≤ k.generation_high_water =
      λ v m.
        subst (λ n. v.generation ≤ n)
          ((==_iff newest k.generation_high_water).0 (negated_true _ high))
          (greatest-le (generations (verifiers_of k)) top v.generation
            (map-Has (λ (w : Verifier). w.generation) v (verifiers_of k) m)) in
    record {
      over =
          λ e v m a. over_of k (subst (λ t. AcceptedFit t k) (is_terminal_key-over k e) fits) v m a;
      live =
          λ n e. live_of k (subst (λ t. AcceptedFit t k) (is_terminal_key-live k n e) fits) bounded;
      newest = All-of_each _ (verifiers_of k) bounded;
      few = ltb-false 2 _ (both_false (ltb 2 (length (verifiers_of k))) _ two).0;
      inside = All-of_each (InLifetime k) (verifiers_of k) (λ v m.
          let (a, b) = both_false _ _ (any-none (out_of_lifetime k) (verifiers_of k) inside m) in
          (ltb-false _ _ a, ltb-false _ _ b));
      year = omega (arith, ltb-false _ _ year);
    }
  where
    over_of :
        (j : ClientKeyRecord)
        → AcceptedFit true j
        → (v : Verifier) → Has v (verifiers_of j)
        → IsAccepted v
        → ⊥
    over_of j fit v m a =
        subst (Has v) fit
          (keep-Has is_accepted_verifier (verifiers_of j) m (is_accepted_verifier-yes v a))

    live_of :
        (j : ClientKeyRecord)
        → AcceptedFit false j
        → ((v : Verifier) → Has v (verifiers_of j) → v.generation ≤ j.generation_high_water)
        → OneActive j
    live_of j (v, one, top) below =
        let (m, a) =
          Has-keep is_active_verifier (verifiers_of j) (subst (Has v) (sym one) (inl refl)) in
        (
          v,
          m,
          is_active_verifier-yes v.status v refl a,
          All-of_each _ (verifiers_of j)
              (λ w n. subst (λ g. w.generation ≤ g) (sym top) (below w n)),
          λ w n e.
              only w
                (subst (Has w) one (keep-Has is_active_verifier (verifiers_of j) n (rw e refl))),
        )
      where
        only : (w : Verifier) → Has w (v ∷ []) → w ≡ v
        only w (inl e) = e
        only w (inr e) = absurd e
