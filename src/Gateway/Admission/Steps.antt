-- ===== src/Gateway/Admission/Steps.antt =====
-- The controller's waiters and its queue stay in step, within the bound on waiters.
use llmmaxxing.Base.{
  ℕ, ◌≤◌, ◌<◌, ◌≡◌, refl, sym, ap, ◌∙◌, subst, inl, inr, Bool, false, not, ◌||◌, List, [], ◌∷◌, map,
  arith, ltb, leb, ◌==◌, Result, raised, ok, value_error, unique, null, length, nat_eq, list_eq,
  option_eq, bool_eq, string_eq, Bool-cases, if_true, if_false, is_some, ==_iff, guard-eq-ok,
  leb-false, ok-injective, >>=-of-ok, is_some-false,
}
use llmmaxxing.Base.{admission_unavailable}
use llmmaxxing.Base.Dict.{
  Dict, member, put, remove, Distinct, lookup-put_hit, lookup-put_other, lookup-remove_self,
  lookup-remove_ne, put-Distinct, remove-Distinct, remove_absent, length-put_absent,
}
use llmmaxxing.Core.Ids.{RequestId}
use llmmaxxing.Core.Models.Legs.{AuthorizedLeg}
use llmmaxxing.Gateway.Auth.{AuthRuntimeView}
use llmmaxxing.Gateway.Budget.{sync_runtime, send_closed}
use llmmaxxing.Gateway.Queue.{WdrrQueue, enqueue, cancel}
use llmmaxxing.Gateway.Queue.Entries.{QueueEntry, Queued, queue_entry}
use llmmaxxing.Gateway.Runtime.Views.{OperationalRuntimeView}
use llmmaxxing.Gateway.Admission.{
  AdmissionController, AdmissionRequest, Waiter, acquire, acquire_guards, acquire_behind, entered,
  new_waiter, fail_waiter,
}

-- A request waits exactly where the queue has an entry for it, and not too many wait.
pub record InStep (c : AdmissionController) : Type 0 where
  pub agree : (id : RequestId) → member id c.waiters ≡ member id c.queue.queued
  pub few : length c.waiters ≤ c.max_waiters_global
  pub waiters_distinct : Distinct c.waiters
  pub queue_distinct : Distinct c.queue.queued

-- Two dicts with the same keys keep the same keys when one key is put into both, or taken out.
module _ {V W : Type 0} (k : RequestId) (d : Dict RequestId V) (f : Dict RequestId W) where
  put-agree :
      (v : V) (w : W) (j : RequestId)
      → member j d ≡ member j f
      → member j (put k v d) ≡ member j (put k w f)
  put-agree v w j h = elim (Bool-cases (k == j)) [
    | inl here ↦
        ap is_some (lookup-put_hit k j v d here) ∙ sym (ap is_some (lookup-put_hit k j w f here))
    | inr away ↦
        ap is_some (lookup-put_other k j v d away)
        ∙ h
        ∙ sym (ap is_some (lookup-put_other k j w f away))
  ]

  pub remove-agree :
      (j : RequestId)
      → Distinct d
      → Distinct f
      → member j d ≡ member j f
      → member j (remove k d) ≡ member j (remove k f)
  remove-agree j dd df h = elim (Bool-cases (k == j)) [
    | inl here ↦
        subst (λ i. member i (remove k d) ≡ member i (remove k f)) ((==_iff k j).0 here)
          (ap is_some (lookup-remove_self k d dd) ∙ sym (ap is_some (lookup-remove_self k f df)))
    | inr away ↦
        ap is_some (lookup-remove_ne k j d away)
        ∙ h
        ∙ sym (ap is_some (lookup-remove_ne k j f away))
  ]

pub length-remove-le :
    {V : Type 0} (k : RequestId) (d : Dict RequestId V) → length (remove k d) ≤ length d
length-remove-le k [] = omega arith
length-remove-le k ((j, v) ∷ d) = ground (arith, length-remove-le k d)

guards-passed :
    (now_ms : ℕ) (view : OperationalRuntimeView) (auth_view : Result AuthRuntimeView)
    (r : AdmissionRequest) (c : AdmissionController) {u : Unit {0}}
    → acquire_guards now_ms view auth_view r c ≡ ok u
    → (member r.request_id c.waiters ≡ false) × (length c.waiters < c.max_waiters_global)
unfolding acquire_guards
guards-passed now_ms view auth_view r c h =
    let (_, h1) =
      guard-eq-ok (send_closed (sync_runtime view.dispatches r.attempt_budget))
        admission_unavailable _ h in
    let (_, h2) = guard-eq-ok (leb r.deadline_at_ms now_ms) admission_unavailable _ h1 in
    let (new, h3) = guard-eq-ok (member r.request_id c.waiters) value_error _ h2 in
    let (few, _) =
      guard-eq-ok (leb c.max_waiters_global (length c.waiters)) admission_unavailable _ h3 in
    (new, leb-false _ _ few)

enqueued :
    (entry : QueueEntry) (q : WdrrQueue)
    → member entry.request_id q.queued ≡ false
    → (q' : WdrrQueue) × (enqueue entry q ≡ ok q')
      × (q'.queued
          ≡ put entry.request_id (record { entry = entry; sequence = q.next_sequence }) q.queued)
unfolding enqueue
enqueued entry q h = rw h (_, refl, refl)

queue_entry-id :
    (id key tier weight : ℕ) (legs : List AuthorizedLeg) {entry : QueueEntry}
    → queue_entry id key tier weight legs ≡ ok entry
    → entry.request_id ≡ id
unfolding queue_entry
queue_entry-id id key tier weight legs h =
    let (_, h1) = guard-eq-ok (ltb weight 1 || ltb 64 weight) value_error _ h in
    let (_, h2) = guard-eq-ok (null legs) value_error _ h1 in
    let (_, h3) =
      guard-eq-ok (not (unique (map (λ (leg : AuthorizedLeg). leg.leg_id) legs))) value_error _
        h2 in
    ap (λ (e : QueueEntry). e.request_id) (sym (ok-injective h3))

-- The entry that the request would have in the queue.
abbrev pub entry_of : AdmissionRequest → Result QueueEntry
entry_of r =
    queue_entry r.request_id r.client.key_id r.authorization_ceiling.queue_tier
      r.authorization_ceiling.queue_weight r.authorization_ceiling.authorized_legs

acquire_behind-InStep :
    (now_ms : ℕ) (r : AdmissionRequest) (c : AdmissionController) (entry : QueueEntry)
    (answer : Result (Unit {0}))
    → ((u : Unit {0})
        → answer ≡ ok u
        → (member r.request_id c.waiters ≡ false) × (length c.waiters < c.max_waiters_global))
    → entry_of r ≡ ok entry
    → InStep c
    → InStep (acquire_behind now_ms r c answer).0
acquire_behind-InStep now_ms r c entry (raised e) passed made step = step
acquire_behind-InStep now_ms r c entry (ok u) passed made step =
    let (new, room) = passed u refl in
    let named : entry.request_id ≡ r.request_id = queue_entry-id _ _ _ _ _ made in
    let absent : member entry.request_id c.queue.queued ≡ false =
      ap (λ i. member i c.queue.queued) named ∙ sym (step.agree r.request_id) ∙ new in
    let (q', queued, e) = enqueued entry c.queue absent in
    let w = new_waiter now_ms r in
    let item : Queued = record { entry = entry; sequence = c.queue.next_sequence } in
    subst (λ x. InStep (entered (record c { waiters = put r.request_id w c.waiters }) x).0)
      (sym (>>=-of-ok (entry_of r) (λ x. enqueue x c.queue) made queued))
      (record {
        agree = λ id.
            put-agree r.request_id c.waiters c.queue.queued w item id (step.agree id)
            ∙ sym (ap (λ x. member id x) (e ∙ ap (λ i. put i item c.queue.queued) named));
        few = omega (arith, room, length-put_absent r.request_id w c.waiters (is_some-false _ new));
        waiters_distinct = put-Distinct r.request_id w c.waiters step.waiters_distinct;
        queue_distinct =
            subst Distinct (sym e)
              (put-Distinct entry.request_id item c.queue.queued step.queue_distinct);
      })

-- Whether it admits the request or raises, `acquire` keeps waiters and queue in step and within the
-- bound, for a request of which a queue entry can be made.
pub acquire-InStep :
    (now_ms : ℕ) (view : OperationalRuntimeView) (auth_view : Result AuthRuntimeView)
    (r : AdmissionRequest) (c : AdmissionController) (entry : QueueEntry)
    → entry_of r ≡ ok entry
    → InStep c
    → InStep (acquire now_ms view auth_view r c).0
unfolding acquire
acquire-InStep now_ms view auth_view r c entry made step =
    acquire_behind-InStep now_ms
      (record r { attempt_budget = sync_runtime view.dispatches r.attempt_budget }) c entry
      (acquire_guards now_ms view auth_view r c) (λ u h. guards-passed now_ms view auth_view r c h)
      made step

pub fail_waiter-InStep :
    (id : RequestId) (c : AdmissionController) → InStep c → InStep (fail_waiter id c)
unfolding cancel
fail_waiter-InStep id c step = elim (Bool-cases (member id c.queue.queued)) [
  | inl there ↦
      subst
        (λ (x : WdrrQueue × Bool). InStep (record c { queue = x.0; waiters = remove id c.waiters }))
        (sym (if_true _ _ _ there))
        (record {
          agree = λ j.
              remove-agree id c.waiters c.queue.queued j step.waiters_distinct step.queue_distinct
                (step.agree j);
          few = omega (arith, step.few, length-remove-le id c.waiters);
          waiters_distinct = remove-Distinct id c.waiters step.waiters_distinct;
          queue_distinct = remove-Distinct id c.queue.queued step.queue_distinct;
        })
  | inr gone ↦
      subst
        (λ (x : WdrrQueue × Bool). InStep (record c { queue = x.0; waiters = remove id c.waiters }))
        (sym (if_false _ _ _ gone))
        (subst (λ (x : Dict RequestId Waiter). InStep (record c { queue = c.queue; waiters = x }))
          (sym (remove_absent id c.waiters (is_some-false _ (step.agree id ∙ gone)))) step)
]
