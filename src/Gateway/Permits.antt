-- ===== src/Gateway/Permits.antt =====
-- src/llmmaxxing/gateway/streaming.py: `AttemptPermitPool`. A coroutine is cut where it can be
-- suspended: `acquire` enters, and then proceeds or is cancelled; the condition's lock makes each
-- part one step.
pub mod Counts
pub mod Reachable
mod Samples
use llmmaxxing.Base.{
  ℕ, ◌+◌, ◌-◌, ◌≡◌, ◌↔◌, Bool, true, false, not, ◌||◌, Option, none, some, arith, ◌==◌, ltb, leb,
  Eq, same, if◌then◌else◌, Result, raised, ok, runtime_error, raise_if, ◌>>◌, ◌>>=◌,
}

pub data PermitClass : Type 0 where
  foreground recovery discovery qualification : PermitClass

-- The three names of partitions.
pub data Partition : Type 0 where
  foreground recovery discovery_qualification : Partition

abbrev partition_code : Partition → ℕ
partition_code Partition.foreground = 0
partition_code Partition.recovery = 1
partition_code Partition.discovery_qualification = 2

pub partition_code_iff :
    (a b : Partition) → ((partition_code a == partition_code b) ≡ true) ↔ (a ≡ b)
partition_code_iff a b = ground arith

instance abbrev pub partition_eq : Eq Partition
partition_eq = record {
  beq = λ a b. partition_code a == partition_code b;
  beq_iff = partition_code_iff;
}

-- `_LIMITS`
unfoldable pub limit_of : Partition → ℕ
limit_of Partition.foreground = 128
limit_of Partition.recovery = 8
limit_of Partition.discovery_qualification = 8

-- `_partition`
unfoldable pub partition_of : PermitClass → Partition
partition_of PermitClass.foreground = Partition.foreground
partition_of PermitClass.recovery = Partition.recovery
partition_of PermitClass.discovery = Partition.discovery_qualification
partition_of PermitClass.qualification = Partition.discovery_qualification

pub record AttemptPermit : Type 0 where
  pub partition : Partition
  pub shadow : Bool
  pub released : Bool

pub record AttemptPermitPool : Type 0 where
  pub active : Partition → ℕ
  pub waiters : Partition → ℕ

-- `counts[partition] = n`
abbrev pub with_count : Partition → ℕ → (Partition → ℕ) → Partition → ℕ
with_count p n counts q = if same p q then n else counts q

abbrev pub new_pool : AttemptPermitPool
new_pool = record { active = λ p. 0; waiters = λ p. 0 }

abbrev pub new_permit : Partition → Bool → AttemptPermit
new_permit p shadow = record { partition = p; shadow = shadow; released = false }

-- `acquire`, up to its loop.
unfoldable pub enter : PermitClass → AttemptPermitPool → AttemptPermitPool
enter kind pool = record pool {
  waiters = with_count (partition_of kind) (pool.waiters (partition_of kind) + 1) pool.waiters;
}

-- The `finally` of `acquire`.
abbrev pub leave : Partition → AttemptPermitPool → AttemptPermitPool
leave p pool = record pool { waiters = with_count p (pool.waiters p - 1) pool.waiters }

-- One turn of the loop of `acquire`: it waits on while the partition is full.
unfoldable pub proceed :
    PermitClass → AttemptPermitPool → Option (AttemptPermit × AttemptPermitPool)
proceed kind pool =
    let p = partition_of kind in
    if leb (limit_of p) (pool.active p)
    then none
    else some (
      new_permit p false,
      leave p (record pool { active = with_count p (pool.active p + 1) pool.active }),
    )

-- A cancellation while `acquire` waits.
unfoldable pub cancel_wait : PermitClass → AttemptPermitPool → AttemptPermitPool
cancel_wait kind pool = leave (partition_of kind) pool

unfoldable pub try_shadow : AttemptPermitPool → Option (AttemptPermit × AttemptPermitPool)
try_shadow pool =
    let p = Partition.foreground in
    if not (pool.waiters p == 0) || leb (limit_of p) (pool.active p)
    then none
    else some
        (new_permit p true, record pool { active = with_count p (pool.active p + 1) pool.active })

-- `_release`
unfoldable pub release_in : Partition → AttemptPermitPool → Result AttemptPermitPool
release_in p pool = do
  raise_if (ltb (pool.active p) 1) runtime_error
  ok (record pool { active = with_count p (pool.active p - 1) pool.active })

-- `AttemptPermit.release`
unfoldable pub release :
    AttemptPermit → AttemptPermitPool → Result (AttemptPermit × AttemptPermitPool)
release permit pool =
    if permit.released
    then ok (permit, pool)
    else do pool' ← release_in permit.partition pool; ok (record permit { released = true }, pool')

-- `snapshot` and `PermitSnapshot.total_active`
abbrev pub total_active : AttemptPermitPool → ℕ
total_active pool =
    pool.active Partition.foreground
    + pool.active Partition.recovery
    + pool.active Partition.discovery_qualification
