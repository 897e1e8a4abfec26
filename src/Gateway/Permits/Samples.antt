-- ===== src/Gateway/Permits/Samples.antt =====
-- A concrete run of the permit pool: a foreground permit is acquired and released, and a shadow one
-- is taken.
use llmmaxxing.Base.{◌+◌, ◌≤◌, ◌≡◌, refl, false, [], ◌∷◌, ok}
use llmmaxxing.Gateway.Permits.{
  PermitClass, Partition, partition_eq, limit_of, partition_of, AttemptPermit, AttemptPermitPool,
  new_pool, new_permit, enter, leave, proceed, release, with_count, total_active,
}
use llmmaxxing.Gateway.Permits.Counts.{IsValid}
use llmmaxxing.Gateway.Permits.Reachable.{
  Reachable, start, arrives, admitted, Reachable-IsValid, Reachable-release,
}

abbrev caller : PermitClass
caller = PermitClass.foreground

abbrev arrived : AttemptPermitPool
arrived = enter caller new_pool

abbrev one_active : AttemptPermitPool
one_active = leave Partition.foreground (record arrived {
  active = with_count Partition.foreground (arrived.active Partition.foreground + 1) arrived.active;
})

reaches : Reachable one_active (new_permit Partition.foreground false ∷ [])
unfolding proceed enter partition_of limit_of
reaches = admitted caller (new_permit Partition.foreground false) (arrives caller start) refl

Reachable-IsValid_example : IsValid one_active (new_permit Partition.foreground false ∷ [])
Reachable-IsValid_example = Reachable-IsValid reaches

Reachable-release_example :
    (total_active one_active ≤ 144)
    × ((out : AttemptPermit × AttemptPermitPool) × (release
            (new_permit Partition.foreground false)
            one_active
          ≡ ok out))
Reachable-release_example = Reachable-release [] [] (new_permit Partition.foreground false) reaches
