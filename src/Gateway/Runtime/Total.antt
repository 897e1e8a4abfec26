-- ===== src/Gateway/Runtime/Total.antt =====
-- src/llmmaxxing/gateway/runtime_state.py, `AccountRuntime.try_reserve`: what it answers and raises.
use llmmaxxing.Base.{
  ℕ, ◌+◌, ◌<◌, ◌≡◌, refl, sym, subst, Bool, true, false, ◌&&◌, Option, some, none, List, [], ◌∷◌,
  arith, Bool-cases, inl, inr, Result, raised, ok, leb, ltb, ◌==◌, if◌then◌else◌, length, leb→le,
  ltb→lt, ltb-false, ◌⊎◌, Failure,
}
use llmmaxxing.Core.Ids.{Digest}
use llmmaxxing.Core.Models.Legs.{RequestProfile}
use llmmaxxing.Core.Models.Accounts.{QuotaDimension, is_known, enforced_max_in_flight}
use llmmaxxing.Gateway.Runtime.Requests.{
  ReservationRequest, ReservationDenied, ReservationDenialReason, Reservation, Journal, Start,
  Append, total_token_upper_bound, DurableReservation,
}
use llmmaxxing.Gateway.Runtime.State.{
  AccountRuntime, active_count, rpm_starts, tpm_starts, total_tokens,
}
use llmmaxxing.Gateway.Runtime.Guards.{entry_denial, denial}
use llmmaxxing.Gateway.Runtime.Quotas.{
  quota_denial, rpm_denial, tpm_denial, monthly_denial, ◌orelse◌, first_start, last_start,
  tpm_retry_at,
}
use llmmaxxing.Gateway.Runtime.Reserve.{
  settle_append, admit, reserve_at, reserve_open, try_reserve, pruned, durable_of,
}
use llmmaxxing.Gateway.Runtime.Grants.{fresh, fresh-SameBooks}

-- What the validators make sure of: a known dimension has a positive value.
abbrev pub HasLimit : QuotaDimension → Type 0
HasLimit d = is_known d ≡ true → (n : ℕ) × (d.value ≡ some n) × (0 < n)

abbrev Returns : Result (Option ReservationDenied) → Type 0
Returns m = (o : Option ReservationDenied) × (m ≡ ok o)

first_start-returns : (xs : List Start) → 0 < length xs → (m : ℕ) × (first_start xs ≡ ok m)
first_start-returns [] h = ground arith
first_start-returns (x ∷ xs) h = (_, refl)

last_start-returns : (xs : List Start) → 0 < total_tokens xs → (m : ℕ) × (last_start xs ≡ ok m)
last_start-returns [] h = ground arith
last_start-returns (x ∷ xs) h = (_, refl)

rpm_denial-Returns :
    (now_ms : ℕ) (rt : AccountRuntime)
    → HasLimit rt.account.rpm_limit
    → Returns (rpm_denial now_ms rt)
unfolding rpm_denial
rpm_denial-Returns now_ms rt limit = elim (Bool-cases (is_known rt.account.rpm_limit)) [
  | inr unknown ↦ (none, rw unknown refl)
  | inl known ↦
      let (n, value, positive) = limit known in
      elim (Bool-cases (leb n (length (rpm_starts now_ms rt)))) [
        | inr room ↦ (none, rw (known, value, room) refl)
        | inl full ↦
            let (m, first) =
              first_start-returns (rpm_starts now_ms rt)
                (omega (arith, leb→le n (length (rpm_starts now_ms rt)) full)) in
            rw (known, value, full, first) (_, refl)
      ]
]

tpm_denial-Returns :
    (now_ms : ℕ) (r : ReservationRequest) (rt : AccountRuntime)
    → HasLimit rt.account.tpm_limit
    → Returns (tpm_denial now_ms r rt)
unfolding tpm_denial tpm_retry_at
tpm_denial-Returns now_ms r rt limit = elim (Bool-cases (is_known rt.account.tpm_limit)) [
  | inr unknown ↦ (none, rw unknown refl)
  | inl known ↦
      let (n, value, positive) = limit known in
      let used = total_tokens (tpm_starts now_ms rt) in
      elim (Bool-cases (ltb n (total_token_upper_bound r))) [
        | inl large ↦ rw (known, value, large) (_, refl)
        | inr fits ↦ elim (Bool-cases (ltb n (used + total_token_upper_bound r))) [
          | inr room ↦ (none, rw (known, value, fits, room) refl)
          | inl full ↦
              let (m, last) = last_start-returns (tpm_starts now_ms rt) (
                omega (
                  arith,
                  ltb→lt n (used + total_token_upper_bound r) full,
                  ltb-false n (total_token_upper_bound r) fits,
                )) in
              rw (known, value, fits, full, last) (_, refl)
        ]
      ]
]

monthly_denial-Returns :
    (r : ReservationRequest) (rt : AccountRuntime)
    → HasLimit rt.account.monthly_quota_units
    → Returns (monthly_denial r rt)
unfolding monthly_denial
monthly_denial-Returns r rt limit = elim (Bool-cases (is_known rt.account.monthly_quota_units)) [
  | inr unknown ↦ (none, rw unknown refl)
  | inl known ↦
      let (n, value, positive) = limit known in
      elim (Bool-cases (ltb n (rt.monthly_used + r.quota_units))) [
        | inl over ↦ rw (known, value, over) (_, refl)
        | inr room ↦ rw (known, value, room) (_, refl)
      ]
]

orelse-Returns :
    (a b : Result (Option ReservationDenied)) → Returns a → Returns b → Returns (a orelse b)
orelse-Returns (raised e) b (o, h) k = cc
orelse-Returns (ok none) b h k = k
orelse-Returns (ok (some d)) b h k = (some d, refl)

quota_denial-Returns :
    (now_ms : ℕ) (r : ReservationRequest) (rt : AccountRuntime)
    → HasLimit rt.account.rpm_limit
    → HasLimit rt.account.tpm_limit
    → HasLimit rt.account.monthly_quota_units
    → Returns (quota_denial now_ms r rt)
unfolding quota_denial
quota_denial-Returns now_ms r rt rpm tpm monthly =
    go
      (is_known rt.account.monthly_quota_units
        && ltb 0 r.quota_units
        && rt.monthly_reset_at_ms == 0)
      (leb (enforced_max_in_flight rt.account) (active_count rt))
  where
    rest : Returns (rpm_denial now_ms rt orelse (tpm_denial now_ms r rt orelse monthly_denial r rt))
    rest = orelse-Returns _ _ (rpm_denial-Returns now_ms rt rpm) (
        orelse-Returns _ _ (tpm_denial-Returns now_ms r rt tpm)
          (monthly_denial-Returns r rt monthly))

    go :
        (b c : Bool)
        → Returns (
            if b
            then ok (some (denial ReservationDenialReason.monthly_reset_unavailable))
            else if c
            then ok (some (denial ReservationDenialReason.parallel_exhausted))
            else rpm_denial now_ms rt orelse (tpm_denial now_ms r rt orelse monthly_denial r rt))
    go true c = (_, refl)
    go false true = (_, refl)
    go false false = rest

-- A grant or a denial, or what the append or the checkpoint of the journal raised.
abbrev pub Answered : Journal → Result Reservation → Type 0
Answered journal m =
    ((outcome : Reservation) × (m ≡ ok outcome))
    ⊎ ((e : Failure) × (m ≡ raised e)
        × (((durable : DurableReservation) × (journal.reserve_before_send durable
                ≡ Append.failed e))
            ⊎ (journal.checkpoint ≡ raised e)))

module _ (digest : Digest) (clock_ms : ℕ) (journal : Journal) (r : ReservationRequest)
    (rt : AccountRuntime)
    (quotas : Returns
      (quota_denial (pruned clock_ms rt).time_high_water_ms r (fresh clock_ms rt))) where
  settle_append-Answered :
      (durable : DurableReservation) (answer : Append) (checkpoint : Result (Unit {0}))
      → journal.reserve_before_send durable ≡ answer
      → journal.checkpoint ≡ checkpoint
      → Answered journal (settle_append answer checkpoint digest r (fresh clock_ms rt)).1
  unfolding settle_append
  settle_append-Answered durable (Append.durable receipt) (ok tt) h k = inl (_, refl)
  settle_append-Answered durable (Append.durable receipt) (raised e) h k = inr (e, refl, inr k)
  settle_append-Answered durable Append.stopped checkpoint h k = inl (_, refl)
  settle_append-Answered durable Append.unavailable checkpoint h k = inl (_, refl)
  settle_append-Answered durable (Append.failed e) checkpoint h k = inr (e, refl, inl (durable, h))

  admit-Answered :
      (o : Result (Option ReservationDenied))
      → Returns o
      → Answered journal (admit journal digest r (fresh clock_ms rt) o).1
  unfolding admit
  admit-Answered (raised e) (o, h) = cc
  admit-Answered (ok (some d)) h = inl (_, refl)
  admit-Answered (ok none) h =
      settle_append-Answered (durable_of digest r (fresh clock_ms rt)) _ _ refl refl

  reserve_at-Answered :
      (o : Option ReservationDenied)
      → Answered journal (reserve_at journal digest r (pruned clock_ms rt) o).1
  unfolding reserve_at
  reserve_at-Answered (some d) = inl (_, refl)
  reserve_at-Answered none = admit-Answered _ quotas

  reserve_open-Answered :
      (o : Option ReservationDenied)
      → Answered journal (reserve_open journal clock_ms digest r rt o).1
  unfolding reserve_open
  reserve_open-Answered (some d) = inl (_, refl)
  reserve_open-Answered none = reserve_at-Answered _

-- `try_reserve` answers every request with a grant or a denial, where each known dimension of the
-- account has a positive value, or raises what the journal raised, in its append (other than
-- `JournalUnavailable`) or in the checkpoint. No lookup or minimum of its own raises.
pub try_reserve-answers :
    (digest : RequestProfile → Digest) (clock_ms : ℕ) (journal : Journal) (r : ReservationRequest)
    (rt : AccountRuntime)
    → HasLimit rt.account.rpm_limit
    → HasLimit rt.account.tpm_limit
    → HasLimit rt.account.monthly_quota_units
    → Answered journal (try_reserve digest journal clock_ms r rt).1
unfolding try_reserve
try_reserve-answers digest clock_ms journal r rt rpm tpm monthly =
    let same = sym (fresh-SameBooks clock_ms rt).account in
    reserve_open-Answered (digest r.profile) clock_ms journal r rt
      (quota_denial-Returns _ r (fresh clock_ms rt) (subst (λ a. HasLimit a.rpm_limit) same rpm)
        (subst (λ a. HasLimit a.tpm_limit) same tpm)
        (subst (λ a. HasLimit a.monthly_quota_units) same monthly))
      (entry_denial journal r rt)
