-- ===== src/Gateway/Runtime/Grants.antt =====
-- src/llmmaxxing/gateway/runtime_state.py, `AccountRuntime.try_reserve`: what a grant says of the
-- guards that stand before it.
use llmmaxxing.Base.{
  ℕ, ◌≡◌, refl, sym, ap, subst, ◌∙◌, Bool, true, false, ◌&&◌, not, ◌⊎◌, inl, inr, ◌≢◌, leb, ◌==◌,
  Option, none, some, Bool-cases, Result, raised, ok, ◌>>=◌, nat_eq, option_eq, ◌≤◌, max, keep,
  Has-keep, leb→le, both_true, Has, ◌<◌, ◌+◌, keep-Has, arith,
}
use llmmaxxing.Base.Dict.{member}
use llmmaxxing.Core.Ids.{Digest, AttemptId}
use llmmaxxing.Core.Models.Legs.{RequestProfile}
use llmmaxxing.Gateway.Runtime.Requests.{
  ReservationRequest, ReservationDenied, Reservation, granted, denied, Journal, JournalReceipt,
  Append, Start,
}
use llmmaxxing.Gateway.Runtime.State.{
  AccountRuntime, tick, prune_resolutions, roll_monthly, purge_windows, is_expired_start,
}
use llmmaxxing.Gateway.Runtime.Guards.{deny_if, entry_denial, ledger_denial}
use llmmaxxing.Gateway.Runtime.Quotas.{quota_denial}
use llmmaxxing.Gateway.Runtime.Reserve.{
  booked, settle_append, admit, refresh, reserve_at, pruned, reserve_open, try_reserve, durable_of,
}

-- The state in which the quotas are tested.
abbrev pub fresh : ℕ → AccountRuntime → AccountRuntime
fresh clock_ms rt = refresh (pruned clock_ms rt).time_high_water_ms (pruned clock_ms rt)

-- Every guard let the request pass, and its tables were written.
pub record Admitted (clock_ms : ℕ) (digest : Digest) (journal : Journal) (r : ReservationRequest)
    (rt rt' : AccountRuntime) : Type 0 where
  pub enters : entry_denial journal r rt ≡ none
  pub passes : ledger_denial (pruned clock_ms rt).time_high_water_ms r (pruned clock_ms rt) ≡ none
  pub has_quota :
      quota_denial (pruned clock_ms rt).time_high_water_ms r (fresh clock_ms rt) ≡ ok none
  pub receipt : JournalReceipt
  pub is_durable :
      journal.reserve_before_send (durable_of digest r (fresh clock_ms rt)) ≡ Append.durable receipt
  pub result : booked digest r (fresh clock_ms rt) ≡ rt'

-- One state's tables are the other's, but for what the upkeep drops.
pub record SameBooks (rt rt' : AccountRuntime) : Type 0 where
  pub attempts : rt'.attempts ≡ rt.attempts
  pub circuits : rt'.circuits ≡ rt.circuits
  pub account_circuit : rt'.account_circuit ≡ rt.account_circuit
  pub consumed : rt'.consumed_circuit_probes ≡ rt.consumed_circuit_probes
  pub holds : rt'.external_uncertain_holds ≡ rt.external_uncertain_holds
  pub account : rt'.account ≡ rt.account

self-SameBooks : (rt : AccountRuntime) → SameBooks rt rt
self-SameBooks rt = record {
  attempts = refl;
  circuits = refl;
  account_circuit = refl;
  consumed = refl;
  holds = refl;
  account = refl;
}

pub pruned-SameBooks : (clock_ms : ℕ) (rt : AccountRuntime) → SameBooks rt (pruned clock_ms rt)
unfolding pruned prune_resolutions tick
pruned-SameBooks clock_ms rt = record {
  attempts = refl;
  circuits = refl;
  account_circuit = refl;
  consumed = refl;
  holds = refl;
  account = refl;
}

purged-SameBooks : (now_ms : ℕ) (rt : AccountRuntime) → SameBooks rt (purge_windows now_ms rt)
unfolding purge_windows
purged-SameBooks now_ms rt = record {
  attempts = refl;
  circuits = refl;
  account_circuit = refl;
  consumed = refl;
  holds = refl;
  account = refl;
}

rolled-SameBooks :
    (now_ms : ℕ) (rt : AccountRuntime)
    → SameBooks rt (record (purge_windows now_ms rt) { monthly_used = 0; monthly_reset_at_ms = 0 })
unfolding purge_windows
rolled-SameBooks now_ms rt = record {
  attempts = refl;
  circuits = refl;
  account_circuit = refl;
  consumed = refl;
  holds = refl;
  account = refl;
}

refresh-SameBooks : (now_ms : ℕ) (rt : AccountRuntime) → SameBooks rt (refresh now_ms rt)
unfolding refresh roll_monthly purge_windows
refresh-SameBooks now_ms rt =
    elim (Bool-cases (not (rt.monthly_reset_at_ms == 0) && leb rt.monthly_reset_at_ms now_ms)) [
      | inl h ↦ rw h (rolled-SameBooks now_ms rt)
      | inr h ↦ rw h (purged-SameBooks now_ms rt)
    ]

SameBooks-trans : {a b c : AccountRuntime} → SameBooks a b → SameBooks b c → SameBooks a c
SameBooks-trans p q = record {
  attempts = q.attempts ∙ p.attempts;
  circuits = q.circuits ∙ p.circuits;
  account_circuit = q.account_circuit ∙ p.account_circuit;
  consumed = q.consumed ∙ p.consumed;
  holds = q.holds ∙ p.holds;
  account = q.account ∙ p.account;
}

pub fresh-SameBooks : (clock_ms : ℕ) (rt : AccountRuntime) → SameBooks rt (fresh clock_ms rt)
fresh-SameBooks clock_ms rt =
    SameBooks-trans (pruned-SameBooks clock_ms rt) (refresh-SameBooks _ (pruned clock_ms rt))

-- Nothing is booked: the tables are the same, no start is added, none is lost but those that left
-- the window and whose attempt is over, and the month's use is the same but for a month that ended.
pub record Unbooked (clock_ms : ℕ) (rt rt' : AccountRuntime) : Type 0 where
  pub books : SameBooks rt rt'
  pub none_added : (item : AttemptId × Start) → Has item rt'.starts → Has item rt.starts
  pub none_lost :
      (item : AttemptId × Start)
      → (max rt.time_high_water_ms clock_ms < item.1.started_at_ms + 86400000)
        ⊎ (member item.0 rt.attempts ≡ true)
      → Has item rt.starts
      → Has item rt'.starts
  pub month :
      ((rt'.monthly_used ≡ rt.monthly_used) × (rt'.monthly_reset_at_ms ≡ rt.monthly_reset_at_ms))
      ⊎ ((rt.monthly_reset_at_ms ≤ max rt.time_high_water_ms clock_ms) × (rt'.monthly_used ≡ 0))

self-Unbooked : (clock_ms : ℕ) (rt : AccountRuntime) → Unbooked clock_ms rt rt
self-Unbooked clock_ms rt = record {
  books = self-SameBooks rt;
  none_added = λ item m. m;
  none_lost = λ item recent m. m;
  month = inl (refl, refl);
}

pruned-Unbooked : (clock_ms : ℕ) (rt : AccountRuntime) → Unbooked clock_ms rt (pruned clock_ms rt)
unfolding pruned prune_resolutions tick
pruned-Unbooked clock_ms rt = record {
  books = pruned-SameBooks clock_ms rt;
  none_added = λ item m. m;
  none_lost = λ item recent m. m;
  month = inl (refl, refl);
}

unexpired :
    (now_ms : ℕ) (rt : AccountRuntime) (item : AttemptId × Start)
    → (now_ms < item.1.started_at_ms + 86400000) ⊎ (member item.0 rt.attempts ≡ true)
    → not (is_expired_start now_ms rt item) ≡ true
unexpired now_ms rt (id, start) (inl recent) = ground (arith, recent)
unexpired now_ms rt (id, start) (inr kept) = ground (arith, kept)

refresh-starts :
    (now_ms : ℕ) (rt : AccountRuntime)
    → (refresh now_ms rt).starts ≡ keep (λ item. not (is_expired_start now_ms rt item)) rt.starts
unfolding refresh roll_monthly purge_windows
refresh-starts now_ms rt =
    elim (Bool-cases (not (rt.monthly_reset_at_ms == 0) && leb rt.monthly_reset_at_ms now_ms)) [
      | inl h ↦ rw h refl
      | inr h ↦ rw h refl
    ]

refresh-month :
    (now_ms : ℕ) (rt : AccountRuntime)
    → (((refresh now_ms rt).monthly_used ≡ rt.monthly_used)
        × ((refresh now_ms rt).monthly_reset_at_ms ≡ rt.monthly_reset_at_ms))
      ⊎ ((rt.monthly_reset_at_ms ≤ now_ms) × ((refresh now_ms rt).monthly_used ≡ 0))
unfolding refresh roll_monthly purge_windows
refresh-month now_ms rt =
    elim (Bool-cases (not (rt.monthly_reset_at_ms == 0) && leb rt.monthly_reset_at_ms now_ms)) [
      | inl h ↦ inr (leb→le _ _ (both_true (not (rt.monthly_reset_at_ms == 0)) _ h).1, rw h refl)
      | inr h ↦ inl (rw h refl, rw h refl)
    ]

fresh-Unbooked : (clock_ms : ℕ) (rt : AccountRuntime) → Unbooked clock_ms rt (fresh clock_ms rt)
unfolding pruned prune_resolutions tick
fresh-Unbooked clock_ms rt =
    let now_ms = max rt.time_high_water_ms clock_ms in
    let starts = refresh-starts now_ms (pruned clock_ms rt) in
    record {
      books = fresh-SameBooks clock_ms rt;
      none_added = λ item m. (Has-keep _ rt.starts (subst (Has item) starts m)).0;
      none_lost = λ item recent m.
          subst (Has item) (sym starts)
            (keep-Has _ rt.starts m (unexpired now_ms (pruned clock_ms rt) item recent));
      month = refresh-month now_ms (pruned clock_ms rt);
    }

-- An outcome that is no grant, with the books as they were.
abbrev Refused : ℕ → AccountRuntime → AccountRuntime × Result Reservation → Type 0
Refused clock_ms rt out =
    Unbooked clock_ms rt out.0
    × ((r : ReservationRequest) (c : JournalReceipt) → out.1 ≢ ok (granted r c))

module _ (clock_ms : ℕ) (digest : RequestProfile → Digest) (journal : Journal)
    (r : ReservationRequest) (rt : AccountRuntime) where
  abbrev Outcome : AccountRuntime × Result Reservation → Type 0
  Outcome out =
      Refused clock_ms rt out
      ⊎ ((a : Admitted clock_ms (digest r.profile) journal r rt out.0) × (out.1
            ≡ (journal.checkpoint >>= λ _. ok (granted r a.receipt))))

  append_cases :
      entry_denial journal r rt ≡ none
      → ledger_denial (pruned clock_ms rt).time_high_water_ms r (pruned clock_ms rt) ≡ none
      → quota_denial (pruned clock_ms rt).time_high_water_ms r (fresh clock_ms rt) ≡ ok none
      → (answer : Append)
      → journal.reserve_before_send (durable_of (digest r.profile) r (fresh clock_ms rt)) ≡ answer
      → Outcome (settle_append answer journal.checkpoint (digest r.profile) r (fresh clock_ms rt))
  unfolding settle_append
  append_cases e l q (Append.durable receipt) h = inr (
    record {
      enters = e;
      passes = l;
      has_quota = q;
      receipt = receipt;
      is_durable = h;
      result = refl;
    },
    refl,
  )
  append_cases e l q Append.stopped h = inl (fresh-Unbooked clock_ms rt, λ s c k. cc)
  append_cases e l q Append.unavailable h = inl (fresh-Unbooked clock_ms rt, λ s c k. cc)
  append_cases e l q (Append.failed x) h = inl (fresh-Unbooked clock_ms rt, λ s c k. cc)

  admit_cases :
      entry_denial journal r rt ≡ none
      → ledger_denial (pruned clock_ms rt).time_high_water_ms r (pruned clock_ms rt) ≡ none
      → (o : Result (Option ReservationDenied))
      → quota_denial (pruned clock_ms rt).time_high_water_ms r (fresh clock_ms rt) ≡ o
      → Outcome (admit journal (digest r.profile) r (fresh clock_ms rt) o)
  unfolding admit
  admit_cases e l (raised x) h = inl (fresh-Unbooked clock_ms rt, λ s c k. cc)
  admit_cases e l (ok (some d)) h = inl (fresh-Unbooked clock_ms rt, λ s c k. cc)
  admit_cases e l (ok none) h = append_cases e l h _ refl

  reserve_at_cases :
      entry_denial journal r rt ≡ none
      → (o : Option ReservationDenied)
      → ledger_denial (pruned clock_ms rt).time_high_water_ms r (pruned clock_ms rt) ≡ o
      → Outcome (reserve_at journal (digest r.profile) r (pruned clock_ms rt) o)
  unfolding reserve_at
  reserve_at_cases e (some d) h = inl (pruned-Unbooked clock_ms rt, λ s c k. cc)
  reserve_at_cases e none h = admit_cases e h _ refl

  reserve_open_cases :
      (o : Option ReservationDenied)
      → entry_denial journal r rt ≡ o
      → Outcome (reserve_open journal clock_ms (digest r.profile) r rt o)
  unfolding reserve_open
  reserve_open_cases (some d) h = inl (self-Unbooked clock_ms rt, λ s c k. cc)
  reserve_open_cases none h = reserve_at_cases h _ refl

  -- Either the books are as they were and nothing is granted, or every guard was passed.
  pub try_reserve-cases : Outcome (try_reserve digest journal clock_ms r rt)
  unfolding try_reserve
  try_reserve-cases = reserve_open_cases _ refl

  pub granted-Admitted :
      {rt' : AccountRuntime} {s : ReservationRequest} {c : JournalReceipt}
      → try_reserve digest journal clock_ms r rt ≡ (rt', ok (granted s c))
      → Admitted clock_ms (digest r.profile) journal r rt rt'
  granted-Admitted {s} {c} h = elim try_reserve-cases [
    | inl refused ↦ absurd (refused.1 s c (ap (λ p. p.1) h))
    | inr admitted ↦
        subst (λ out. Admitted clock_ms (digest r.profile) journal r rt out) (ap (λ p. p.0) h)
          admitted.0
  ]

  not_denied :
      (m : Result (Unit {0})) (c : JournalReceipt) (d : ReservationDenied)
      → (m >>= λ _. ok (granted r c)) ≢ ok (denied d)
  not_denied (raised e) c d h = cc
  not_denied (ok u) c d h = cc

  -- A denial books nothing: the attempts, the circuits, the consumed probes, the uncertain holds
  -- and the account are as they were; no start is added, and none of the last day or of an open
  -- attempt is lost; and the month's use and its end are as they were, or the month had ended and
  -- its use is 0.
  pub denied-Unbooked :
      {rt' : AccountRuntime} (d : ReservationDenied)
      → try_reserve digest journal clock_ms r rt ≡ (rt', ok (denied d))
      → Unbooked clock_ms rt rt'
  denied-Unbooked d h = elim try_reserve-cases [
    | inl refused ↦ subst (Unbooked clock_ms rt) (ap (λ p. p.0) h) refused.0
    | inr admitted ↦
        absurd
          (not_denied journal.checkpoint admitted.0.receipt d (sym admitted.1 ∙ ap (λ p. p.1) h))
  ]

-- The guards that a grant passed.
pub deny_if-none :
    (b : Bool) (d : ReservationDenied) {o : Option ReservationDenied}
    → deny_if b d o ≡ none
    → (b ≡ false) × (o ≡ none)
deny_if-none true d h = cc
deny_if-none false d h = (refl, h)
