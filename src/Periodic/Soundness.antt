-- ===== src/Periodic/Soundness.antt =====
-- What holds of a `PeriodicTask` of process/periodic_task.go between its steps.
use go_cedar.Base.{
  ℕ, suc, ◌+◌, ◌≤◌, ◌<◌, ◌≡◌, refl, ◌⊎◌, ap, inl, inr, List, [], ◌∷◌, Bool, true, ◌&&◌, Option,
  none, some, if◌then◌else◌, Outcome, ok, blocked, panic, length, ltb, arith, subst, sym,
}
use go_cedar.Mailbox.{Mailbox, deliver, retrieve, drop_last}
use go_cedar.Periodic.{
  Phase, selecting, ticked, notified_once, running, returned, PeriodicTask, enqueue, close,
  take_notification, retrieve_and_run, Event, is_done, ticks, is_notified, enqueues_tick, retrieves,
  ends_task, cancels, calls_enqueue, calls_close, go_on, exec,
}

pub record IsSound (t : PeriodicTask) : Type 0 where
  pub one_place : (t.mailbox).capacity ≡ 1
  pub small : length (t.mailbox).queue ≤ 1
  pub roused :
      0 < length (t.mailbox).queue → ((t.mailbox).notified ≡ true) ⊎ (t.phase ≡ notified_once)
  pub counted : t.runs + length (t.mailbox).queue ≤ t.enqueues
  pub ended : t.phase ≡ returned → t.ctx_done ≡ true

-- A delivery to a mailbox with one place leaves that one value in it.
deliver_one :
    (m : Mailbox {0} (Unit {0}))
    → m.capacity ≡ 1
    → length m.queue ≤ 1
    → deliver tt m ≡ record m { queue = tt ∷ []; notified = true }
unfolding deliver
deliver_one m c h =
    ap (λ q. record m { queue = q; notified = true }) (one_place m.capacity m.queue c h)
  where
    one_place :
        (n : ℕ) (q : List (Unit {0}))
        → n ≡ 1
        → length q ≤ 1
        → (if ltb n (length (tt ∷ q)) && ltb 0 n then drop_last (tt ∷ q) else tt ∷ q) ≡ tt ∷ []
    one_place n [] e h = ground arith
    one_place n (x ∷ []) e h = ground arith
    one_place n (x ∷ y ∷ q) e h = ground arith

-- What `Retrieve` takes out of such a mailbox.
retrieve_one :
    (m : Mailbox {0} (Unit {0}))
    → length m.queue ≤ 1
    → ((length m.queue ≡ 0) × (retrieve m ≡ (m, none)))
      ⊎ ((length m.queue ≡ 1) × (retrieve m ≡ (record m { queue = [] }, some tt)))
unfolding retrieve
retrieve_one m h = by_queue m.notified m.queue m.capacity h
  where
    by_queue :
        (b : Bool) (q : List (Unit {0})) (c : ℕ)
        → length q ≤ 1
        → let m : Mailbox {0} (Unit {0}) = record { notified = b; queue = q; capacity = c } in
          ((length q ≡ 0) × (retrieve m ≡ (m, none)))
          ⊎ ((length q ≡ 1) × (retrieve m ≡ (record m { queue = [] }, some tt)))
    by_queue b [] c h = inl (refl, refl)
    by_queue b (x ∷ []) c h = inr (refl, refl)
    by_queue b (x ∷ y ∷ q) c h = ground arith

abbrev pub Safe : Outcome PeriodicTask → Type 0
Safe (ok t) = IsSound t
Safe blocked = Unit
Safe panic = ⊥

-- `Enqueue` on a sound task.
pub enqueue_eq :
    (t : PeriodicTask)
    → IsSound t
    → enqueue t ≡ record t {
      mailbox = record t.mailbox { queue = tt ∷ []; notified = true };
      enqueues = suc t.enqueues;
    }
unfolding enqueue
enqueue_eq t v =
    ap (λ m. record t { mailbox = m; enqueues = suc t.enqueues })
      (deliver_one t.mailbox v.one_place v.small)

-- `Retrieve` with what follows, on a sound task.
pub retrieve_and_run-cases :
    (t : PeriodicTask)
    → IsSound t
    → ((length (t.mailbox).queue ≡ 0) × (retrieve_and_run t ≡ record t { phase = selecting }))
      ⊎ ((length (t.mailbox).queue ≡ 1)
          × (retrieve_and_run t ≡ record t {
            mailbox = record t.mailbox { queue = [] };
            phase = running;
            runs = suc t.runs;
          }))
unfolding retrieve_and_run
retrieve_and_run-cases t v = elim (retrieve_one t.mailbox v.small) [
  | inl (n, e) ↦ inl (n, ap after e)
  | inr (n, e) ↦ inr (n, ap after e)
]
  where
    after : Mailbox {0} (Unit {0}) × Option (Unit {0}) → PeriodicTask
    after r = elim r.1 [
      | none ↦ record t { mailbox = r.0; phase = selecting }
      | some _ ↦ record t { mailbox = r.0; phase = running; runs = suc t.runs }
    ]

enqueue-IsSound : (t : PeriodicTask) → IsSound t → IsSound (enqueue t)
enqueue-IsSound t v = subst IsSound (sym (enqueue_eq t v)) (record {
  one_place = v.one_place;
  small = omega arith;
  roused = λ h. inl refl;
  counted = omega (arith, v.counted);
  ended = v.ended;
})

retrieve_and_run-IsSound : (t : PeriodicTask) → IsSound t → IsSound (retrieve_and_run t)
retrieve_and_run-IsSound t v = elim (retrieve_and_run-cases t v) [
  | inl (n, e) ↦ subst IsSound (sym e) (record {
    one_place = v.one_place;
    small = v.small;
    roused = ground (arith, n);
    counted = v.counted;
    ended = ground arith;
  })
  | inr (n, e) ↦ subst IsSound (sym e) (record {
    one_place = v.one_place;
    small = omega arith;
    roused = ground arith;
    counted = omega (arith, v.counted, n);
    ended = ground arith;
  })
]

go_on-Safe :
    (e : Event) (p : Phase) (t : PeriodicTask) → t.phase ≡ p → IsSound t → Safe (go_on e p t)
unfolding go_on take_notification
go_on-Safe is_done selecting t h v =
    ground (arith, v.one_place, v.small, v.roused, v.counted, v.ended)
go_on-Safe ticks selecting t h v =
    ground (arith, v.one_place, v.small, v.roused, v.counted, v.ended)
go_on-Safe is_notified selecting t h v =
    ground (arith, v.one_place, v.small, v.roused, v.counted, v.ended)
go_on-Safe enqueues_tick ticked t h v =
    subst (λ u. IsSound (record u { phase = selecting })) (sym (enqueue_eq t v))
      (record {
        one_place = v.one_place;
        small = omega arith;
        roused = λ h. inl refl;
        counted = omega (arith, v.counted);
        ended = ground arith;
      })
go_on-Safe retrieves notified_once t h v = retrieve_and_run-IsSound t v
go_on-Safe ends_task running t h v =
    ground (arith, v.one_place, v.small, v.roused, v.counted, v.ended)
go_on-Safe e p t h v = tt

pub exec-Safe : (e : Event) (t : PeriodicTask) → IsSound t → Safe (exec e t)
unfolding exec close
exec-Safe cancels t v = ground (arith, v.one_place, v.small, v.roused, v.counted, v.ended)
exec-Safe calls_enqueue t v = enqueue-IsSound t v
exec-Safe calls_close t v = ground (arith, v.one_place, v.small, v.roused, v.counted, v.ended)
exec-Safe is_done t v = go_on-Safe is_done t.phase t refl v
exec-Safe ticks t v = go_on-Safe ticks t.phase t refl v
exec-Safe is_notified t v = go_on-Safe is_notified t.phase t refl v
exec-Safe enqueues_tick t v = go_on-Safe enqueues_tick t.phase t refl v
exec-Safe retrieves t v = go_on-Safe retrieves t.phase t refl v
exec-Safe ends_task t v = go_on-Safe ends_task t.phase t refl v
