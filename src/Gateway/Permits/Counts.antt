-- ===== src/Gateway/Permits/Counts.antt =====
-- src/llmmaxxing/gateway/streaming.py: what each step of the pool does to its counts.
use llmmaxxing.Base.{
  both_false, if_true, if_false, ℕ, ◌+◌, ◌-◌, ◌≤◌, ◌<◌, ◌≡◌, refl, sym, subst, ◌∙◌, Bool, true,
  false, not, ◌&&◌, ◌||◌, some, List, [], ◌∷◌, ◌++◌, arith, ◌==◌, ltb, leb, Bool-cases, inl, inr,
  same, same→eq, same_refl, if◌then◌else◌, count_of, ok, runtime_error, unless-eq-some, leb-false,
  >>=-eq-ok, guard-eq-ok, ok-injective,
}
use llmmaxxing.Gateway.Permits.{
  PermitClass, Partition, partition_eq, limit_of, partition_of, AttemptPermit, AttemptPermitPool,
  with_count, new_pool, new_permit, proceed, try_shadow, release_in, release,
}

-- The permits of a partition that are out.
abbrev is_out : Partition → AttemptPermit → Bool
is_out p permit = not permit.released && same permit.partition p

abbrev pub outstanding : Partition → List AttemptPermit → ℕ
outstanding p permits = count_of (is_out p) permits

-- Each partition's count is that of its permits that are out, and is within its limit.
pub record IsValid (pool : AttemptPermitPool) (permits : List AttemptPermit) : Type 0 where
  pub counted : (p : Partition) → pool.active p ≡ outstanding p permits
  pub bounded : (p : Partition) → pool.active p ≤ limit_of p

count_of-middle :
    (f : AttemptPermit → Bool) (xs ys : List AttemptPermit) (x : AttemptPermit)
    → count_of f (xs ++ x ∷ ys) ≡ (if f x then 1 else 0) + count_of f (xs ++ ys)
count_of-middle f [] ys x = refl
count_of-middle f (z ∷ xs) ys x = ground (arith, count_of-middle f xs ys x)

module _ (p : Partition) (n : ℕ) (counts : Partition → ℕ) where
  with_count_self : with_count p n counts p ≡ n
  with_count_self = ground (arith, same_refl p)

  with_count_away : (q : Partition) → same p q ≡ false → with_count p n counts q ≡ counts q
  with_count_away q h = ground arith

-- A permit more, in a partition that has room.
grant-IsValid :
    (p : Partition) (shadow : Bool) (pool : AttemptPermitPool) (permits : List AttemptPermit)
    → IsValid pool permits
    → pool.active p < limit_of p
    → (q : Partition)
    → (with_count p (pool.active p + 1) pool.active q
        ≡ outstanding q (new_permit p shadow ∷ permits))
      × (with_count p (pool.active p + 1) pool.active q ≤ limit_of q)
grant-IsValid p shadow pool permits v room q = elim (Bool-cases (same p q)) [
  | inl here ↦
      subst
        (λ q.
          (with_count p (pool.active p + 1) pool.active q
            ≡ outstanding q (new_permit p shadow ∷ permits))
          × (with_count p (pool.active p + 1) pool.active q ≤ limit_of q))
        (same→eq p q here) (ground (arith, same_refl p, v.counted p, room))
  | inr away ↦ ground (arith, v.counted q, v.bounded q)
]

one_is_some : (a n : ℕ) → a ≡ 1 + n → ltb a 1 ≡ false
one_is_some a n h = ground arith

some-injective {ℓ} : {A : Type ℓ} {a b : A} → some a ≡ some b → a ≡ b
some-injective h = cc

pub new-IsValid : IsValid new_pool []
unfolding limit_of
new-IsValid = record { counted = λ p. refl; bounded = λ p. omega arith }

pub proceed-IsValid :
    (kind : PermitClass) (pool pool' : AttemptPermitPool) (permits : List AttemptPermit)
    (permit : AttemptPermit)
    → IsValid pool permits
    → proceed kind pool ≡ some (permit, pool')
    → IsValid pool' (permit ∷ permits)
unfolding proceed
proceed-IsValid kind pool pool' permits permit v h =
    let p = partition_of kind in
    let (room, e) = unless-eq-some (leb (limit_of p) (pool.active p)) _ h in
    let grant = grant-IsValid p false pool permits v (leb-false _ _ room) in
    subst (λ out. IsValid out.1 (out.0 ∷ permits)) (some-injective e)
      (record { counted = λ q. (grant q).0; bounded = λ q. (grant q).1 })

pub try_shadow-IsValid :
    (pool pool' : AttemptPermitPool) (permits : List AttemptPermit) (permit : AttemptPermit)
    → IsValid pool permits
    → try_shadow pool ≡ some (permit, pool')
    → IsValid pool' (permit ∷ permits)
unfolding try_shadow
try_shadow-IsValid pool pool' permits permit v h =
    let p = Partition.foreground in
    let (room, e) =
      unless-eq-some (not (pool.waiters p == 0) || leb (limit_of p) (pool.active p)) _ h in
    let grant = grant-IsValid p true pool permits v (leb-false _ _ (both_false _ _ room).1) in
    subst (λ out. IsValid out.1 (out.0 ∷ permits)) (some-injective e)
      (record { counted = λ q. (grant q).0; bounded = λ q. (grant q).1 })

count_of-middle_hit :
    (f : AttemptPermit → Bool) (xs ys : List AttemptPermit) (x : AttemptPermit)
    → f x ≡ true
    → count_of f (xs ++ x ∷ ys) ≡ 1 + count_of f (xs ++ ys)
count_of-middle_hit f xs ys x h = ground (arith, count_of-middle f xs ys x)

count_of-middle_miss :
    (f : AttemptPermit → Bool) (xs ys : List AttemptPermit) (x : AttemptPermit)
    → f x ≡ false
    → count_of f (xs ++ x ∷ ys) ≡ count_of f (xs ++ ys)
count_of-middle_miss f xs ys x h = ground (arith, count_of-middle f xs ys x)

module _ (before after : List AttemptPermit) (pool : AttemptPermitPool)
    (permit : AttemptPermit) where
  abbrev returned : AttemptPermit
  returned = record permit { released = true }

  abbrev freed : AttemptPermitPool
  freed = record pool {
    active = with_count permit.partition (pool.active permit.partition - 1) pool.active;
  }

  -- A permit that is out is counted.
  out-counted :
      permit.released ≡ false
      → IsValid pool (before ++ permit ∷ after)
      → pool.active permit.partition ≡ 1 + outstanding permit.partition (before ++ after)
  out-counted out v =
      v.counted permit.partition
      ∙ count_of-middle_hit (is_out permit.partition) before after permit
          (ground (arith, same_refl permit.partition))

  returned-counted :
      permit.released ≡ false
      → IsValid pool (before ++ permit ∷ after)
      → (q : Partition) → freed.active q ≡ outstanding q (before ++ returned ∷ after)
  returned-counted out v q = elim (Bool-cases (same permit.partition q)) [
    | inl here ↦
        subst (λ q. freed.active q ≡ outstanding q (before ++ returned ∷ after))
          (same→eq permit.partition q here)
          (omega (
            arith,
            with_count_self permit.partition (pool.active permit.partition - 1) pool.active,
            out-counted out v,
            count_of-middle_miss (is_out permit.partition) before after returned refl,
          ))
    | inr away ↦
        with_count_away permit.partition (pool.active permit.partition - 1) pool.active q away
        ∙ v.counted q
        ∙ count_of-middle_miss (is_out q) before after permit (ground arith)
        ∙ sym (count_of-middle_miss (is_out q) before after returned refl)
  ]

  freed-bounded :
      IsValid pool (before ++ permit ∷ after) → (q : Partition) → freed.active q ≤ limit_of q
  freed-bounded v q = elim (Bool-cases (same permit.partition q)) [
    | inl here ↦
        subst (λ q. freed.active q ≤ limit_of q) (same→eq permit.partition q here)
          (ground (arith, same_refl permit.partition, v.bounded permit.partition))
    | inr away ↦ ground (arith, v.bounded q)
  ]

  pub release-IsValid :
      (pool' : AttemptPermitPool) (permit' : AttemptPermit)
      → IsValid pool (before ++ permit ∷ after)
      → release permit pool ≡ ok (permit', pool')
      → IsValid pool' (before ++ permit' ∷ after)
  unfolding release release_in
  release-IsValid pool' permit' v h = elim (Bool-cases permit.released) [
    | inl again ↦
        subst (λ out. IsValid out.1 (before ++ out.0 ∷ after))
          (ok-injective (sym (if_true permit.released _ _ again) ∙ h)) v
    | inr out ↦
        let (pool₁, made, e) =
          >>=-eq-ok (release_in permit.partition pool) (λ x. ok (returned, x))
            (sym (if_false permit.released _ _ out) ∙ h) in
        let (_, k) = guard-eq-ok (ltb (pool.active permit.partition) 1) runtime_error _ made in
        subst (λ o. IsValid o.1 (before ++ o.0 ∷ after)) (ok-injective e)
          (subst (λ x. IsValid x (before ++ returned ∷ after)) (ok-injective k)
            (record { counted = returned-counted out v; bounded = freed-bounded v }))
  ]

  -- A permit of a valid pool can always be released.
  pub release-returns :
      IsValid pool (before ++ permit ∷ after)
      → (out : AttemptPermit × AttemptPermitPool) × (release permit pool ≡ ok out)
  unfolding release release_in
  release-returns v = elim (Bool-cases permit.released) [
    | inl again ↦ ((permit, pool), if_true permit.released _ _ again)
    | inr out ↦ (
      (returned, freed),
      if_false permit.released _ _ out
          ∙ rw (one_is_some (pool.active permit.partition) _ (out-counted out v)),
    )
  ]
