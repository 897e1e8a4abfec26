-- ===== src/Gateway/Permits/Reachable.antt =====
-- src/llmmaxxing/gateway/streaming.py: the pool under every interleaving of its callers.
use llmmaxxing.Base.{◌≤◌, ◌≡◌, some, List, [], ◌∷◌, ◌++◌, arith, ok}
use llmmaxxing.Gateway.Permits.{
  PermitClass, Partition, partition_eq, limit_of, AttemptPermit, AttemptPermitPool, new_pool, enter,
  proceed, cancel_wait, try_shadow, release, total_active,
}
use llmmaxxing.Gateway.Permits.Counts.{
  IsValid, new-IsValid, proceed-IsValid, try_shadow-IsValid, release-IsValid, release-returns,
}

-- What a pool and its callers do, one step at a time: the pool and every permit handed out.
-- (That a caller waits is no condition of `admitted` and `cancelled`, so the relation has every run of
-- the program, and more.)
pub data Reachable : AttemptPermitPool → List AttemptPermit → Type 0 where
  start : Reachable new_pool []
  arrives :
      (kind : PermitClass) {pool : AttemptPermitPool} {permits : List AttemptPermit}
      → Reachable pool permits
      → Reachable (enter kind pool) permits
  admitted :
      (kind : PermitClass) {pool pool' : AttemptPermitPool} {permits : List AttemptPermit}
      (permit : AttemptPermit)
      → Reachable pool permits
      → proceed kind pool ≡ some (permit, pool')
      → Reachable pool' (permit ∷ permits)
  cancelled :
      (kind : PermitClass) {pool : AttemptPermitPool} {permits : List AttemptPermit}
      → Reachable pool permits
      → Reachable (cancel_wait kind pool) permits
  shadows :
      {pool pool' : AttemptPermitPool} {permits : List AttemptPermit} (permit : AttemptPermit)
      → Reachable pool permits
      → try_shadow pool ≡ some (permit, pool')
      → Reachable pool' (permit ∷ permits)
  releases :
      (before after : List AttemptPermit) {pool pool' : AttemptPermitPool}
      (permit permit' : AttemptPermit)
      → Reachable pool (before ++ permit ∷ after)
      → release permit pool ≡ ok (permit', pool')
      → Reachable pool' (before ++ permit' ∷ after)

-- In every state that the pool reaches, however its callers' steps interleave, each partition's
-- count is that of its permits that are out and is within the partition's limit.
pub Reachable-IsValid :
    {pool : AttemptPermitPool} {permits : List AttemptPermit}
    → Reachable pool permits
    → IsValid pool permits
unfolding enter cancel_wait
Reachable-IsValid start = new-IsValid
Reachable-IsValid (arrives kind r) =
    let v = Reachable-IsValid r in record { counted = v.counted; bounded = v.bounded }
Reachable-IsValid (admitted kind permit r h) =
    proceed-IsValid kind _ _ _ permit (Reachable-IsValid r) h
Reachable-IsValid (cancelled kind r) =
    let v = Reachable-IsValid r in record { counted = v.counted; bounded = v.bounded }
Reachable-IsValid (shadows permit r h) = try_shadow-IsValid _ _ _ permit (Reachable-IsValid r) h
Reachable-IsValid (releases before after permit permit' r h) =
    release-IsValid before after _ permit _ permit' (Reachable-IsValid r) h

-- In every state that the pool reaches at most 144 permits are active, and each permit that was
-- handed out can be released, however often: the underflow error is never raised.
pub Reachable-release :
    (before after : List AttemptPermit) {pool : AttemptPermitPool} (permit : AttemptPermit)
    → Reachable pool (before ++ permit ∷ after)
    → (total_active pool ≤ 144)
      × ((out : AttemptPermit × AttemptPermitPool) × (release permit pool ≡ ok out))
unfolding limit_of
Reachable-release before after {pool} permit r =
    let v = Reachable-IsValid r in
    (
      omega (
        arith,
        v.bounded Partition.foreground,
        v.bounded Partition.recovery,
        v.bounded Partition.discovery_qualification,
      ),
      release-returns before after pool permit v,
    )
