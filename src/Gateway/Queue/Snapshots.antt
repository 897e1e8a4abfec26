-- ===== src/Gateway/Queue/Snapshots.antt =====
-- src/llmmaxxing/gateway/scheduler.py, `WDRRQueue.snapshot` and `WDRRQueue.restore`.
use mathlib.Core.List.{append_assoc, append-nil}
use llmmaxxing.Base.{
  ℕ, ◌+◌, ◌≡◌, ◌≢◌, refl, sym, ap, ◌∙◌, subst, Bool, true, false, none, [], ◌∷◌, ◌++◌, arith, ltb,
  sort_by, insert_by, unique, contains, map, ok, nat_eq,
}
use llmmaxxing.Base.Dict.{Dict, lookup, put, values, Distinct, dict_by_from}
use llmmaxxing.Core.Ids.{RequestId}
use llmmaxxing.Gateway.Queue.{WdrrQueue, snapshot, restore}
use llmmaxxing.Gateway.Queue.Entries.{Queued}
use llmmaxxing.Gateway.Queue.Invariant.{Rising, IsValid}

abbrev earlier : Queued → Queued → Bool
earlier a b = ltb a.sequence b.sequence

abbrev id_of : Queued → RequestId
id_of item = item.entry.request_id

-- Requests that stand in order are not moved by sorting.
insert-first :
    (x : Queued) (high : ℕ) (d : Dict RequestId Queued)
    → Rising (x.sequence + 1) high d
    → insert_by earlier x (values d) ≡ x ∷ values d
insert-first x high [] r = refl
insert-first x high ((k, y) ∷ d) r = ground arith

sort-values :
    (low high : ℕ) (d : Dict RequestId Queued)
    → Rising low high d
    → sort_by earlier (values d) ≡ values d
sort-values low high [] r = refl
sort-values low high ((k, x) ∷ d) r =
    rw (sort-values (x.sequence + 1) high d r.2) (insert-first x high d r.2)

contains_absent :
    (k : RequestId) (low high : ℕ) (d : Dict RequestId Queued)
    → lookup k d ≡ none
    → Rising low high d
    → contains k (map id_of (values d)) ≡ false
contains_absent k low high [] e r = refl
contains_absent k low high ((j, x) ∷ d) e r =
    ground (arith, contains_absent k (x.sequence + 1) high d)

unique-ids :
    (low high : ℕ) (d : Dict RequestId Queued)
    → Rising low high d
    → Distinct d
    → unique (map id_of (values d)) ≡ true
unique-ids low high [] r u = refl
unique-ids low high ((k, x) ∷ d) r u =
    ground (arith, contains_absent k (x.sequence + 1) high d, unique-ids (x.sequence + 1) high d)

put_absent-append :
    (k : RequestId) (x : Queued) (d : Dict RequestId Queued)
    → lookup k d ≡ none
    → put k x d ≡ d ++ (k, x) ∷ []
put_absent-append k x [] e = refl
put_absent-append k x ((j, y) ∷ d) e = ground (arith, put_absent-append k x d)

found_middle :
    (k : RequestId) (x : Queued) (acc d : Dict RequestId Queued)
    → lookup k (acc ++ (k, x) ∷ d) ≢ none
found_middle k x [] d = ground arith
found_middle k x ((j, y) ∷ acc) d = ground (arith, found_middle k x acc d)

Distinct-middle :
    (k : RequestId) (x : Queued) (acc d : Dict RequestId Queued)
    → Distinct (acc ++ (k, x) ∷ d)
    → lookup k acc ≡ none
Distinct-middle k x [] d u = refl
Distinct-middle k x ((j, y) ∷ acc) d u =
    ground (arith, found_middle k x acc d, Distinct-middle k x acc d u.1)

dict_by_from-values :
    (acc d : Dict RequestId Queued) (low high : ℕ)
    → Rising low high d
    → Distinct (acc ++ d)
    → dict_by_from id_of acc (values d) ≡ acc ++ d
dict_by_from-values acc [] low high r u = sym (append-nil acc)
dict_by_from-values acc ((k, x) ∷ d) low high r u =
    let appended = put_absent-append k x acc (Distinct-middle k x acc d u) in
    ap (λ (j : RequestId). dict_by_from id_of (put j x acc) (values d)) r.0
    ∙ ap (λ (a : Dict RequestId Queued). dict_by_from id_of a (values d)) appended
    ∙ (dict_by_from-values (acc ++ (k, x) ∷ []) d (x.sequence + 1) high r.2
          (subst Distinct (sym (append_assoc acc ((k, x) ∷ []) d)) u)
        ∙ append_assoc acc ((k, x) ∷ []) d)

-- A valid queue is restored from its snapshot, exactly.
pub restore-snapshot : (q : WdrrQueue) → IsValid q → restore (snapshot q) ≡ ok q
unfolding restore snapshot
restore-snapshot q v =
    let sorted = sort-values 0 q.next_sequence q.queued v.rising in
    let known = unique-ids 0 q.next_sequence q.queued v.rising v.distinct in
    let rebuilt = dict_by_from-values [] q.queued 0 q.next_sequence v.rising v.distinct in
    rw (positive, sorted, known, rebuilt)
  where
    positive : ltb q.max_consecutive_higher_grants 1 ≡ false
    positive = ground (arith, v.bounded)
