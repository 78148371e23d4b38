-- ===== src/Periodic/Wakeups.antt =====
-- A `PeriodicTask` of process/periodic_task.go runs its task for what is enqueued, and not more often.
use go_cedar.Base.{
  suc, ◌+◌, ◌≤◌, ◌<◌, ◌≡◌, refl, ◌≢◌, ap, ◌∙◌, inl, inr, List, [], ◌∷◌, true, false, Outcome, ok,
  ◌>>=◌, length, arith, subst, sym,
}
use go_cedar.Mailbox.{new_mailbox}
use go_cedar.Periodic.{
  Phase, selecting, ticked, notified_once, running, returned, PeriodicTask, new_periodic_task,
  take_notification, Event, is_notified, enqueues_tick, retrieves, ends_task, go_on, exec,
}
use go_cedar.Periodic.Soundness.{IsSound, Safe, enqueue_eq, retrieve_and_run-cases, exec-Safe}

-- The states that any interleaving of the goroutine and its clients comes to.
pub data Reach : PeriodicTask → Type 0 where
  start : Reach new_periodic_task
  step : {t u : PeriodicTask} (e : Event) → Reach t → exec e t ≡ ok u → Reach u

pub Reach-IsSound : (t : PeriodicTask) → Reach t → IsSound t
unfolding new_periodic_task new_mailbox
Reach-IsSound t start = ground arith
Reach-IsSound u (step {t} e r h) = subst Safe h (exec-Safe e t (Reach-IsSound t r))

-- In every reachable state the task has been begun at most once for each call of `Enqueue`, a call
-- whose value still lies in the mailbox not counted, and at most one such value lies there.
pub runs_within_enqueues :
    (t : PeriodicTask)
    → Reach t
    → (t.runs + length (t.mailbox).queue ≤ t.enqueues) × (length (t.mailbox).queue ≤ 1)
runs_within_enqueues t r = let v = Reach-IsSound t r in (v.counted, v.small)

unfoldable pub exec_all : List Event → PeriodicTask → Outcome PeriodicTask
exec_all [] t = ok t
exec_all (e ∷ es) t = exec e t >>= exec_all es

-- The steps that the goroutine makes until it begins the task, from each place where it stands.
abbrev pub to_run : Phase → List Event
to_run selecting = is_notified ∷ retrieves ∷ []
to_run ticked = enqueues_tick ∷ is_notified ∷ retrieves ∷ []
to_run notified_once = retrieves ∷ []
to_run running = ends_task ∷ is_notified ∷ retrieves ∷ []
to_run returned = []

abbrev pub Begins : List Event → PeriodicTask → Type 0
Begins es t = (u : PeriodicTask) × (exec_all es t ≡ ok u) × (u.runs ≡ suc t.runs)

-- One step first.
prepend :
    (e : Event) (es : List Event) (t u : PeriodicTask)
    → exec e t ≡ ok u
    → u.runs ≡ t.runs
    → Begins es u
    → Begins (e ∷ es) t
unfolding exec_all
prepend e es t u h n (w, g, r) = (w, ap (λ o. o >>= exec_all es) h ∙ g, r ∙ ap suc n)

-- The step of the goroutine from where it stands.
exec_at :
    (e : Event) (p : Phase) (t : PeriodicTask) → t.phase ≡ p → (go_on e p t) ≡ (go_on e t.phase t)
exec_at e p t h = ap (λ q. go_on e q t) (sym h)

Begins-notified :
    (t : PeriodicTask)
    → t.phase ≡ notified_once
    → IsSound t
    → 0 < length (t.mailbox).queue
    → Begins (retrieves ∷ []) t
unfolding exec_all exec go_on
Begins-notified t h v q = elim (retrieve_and_run-cases t v) [
  | inl (n, e) ↦ ground (arith, n)
  | inr (n, e) ↦ (
    record t { mailbox = record t.mailbox { queue = [] }; phase = running; runs = suc t.runs },
    ap (λ o. o >>= λ u. ok u) (sym (exec_at retrieves notified_once t h) ∙ ap ok e),
    refl,
  )
]

Begins-selecting :
    (t : PeriodicTask)
    → t.phase ≡ selecting
    → IsSound t
    → 0 < length (t.mailbox).queue
    → Begins (is_notified ∷ retrieves ∷ []) t
unfolding exec go_on take_notification
Begins-selecting t h v q =
    let u : PeriodicTask = record t {
      mailbox = record t.mailbox { notified = false };
      phase = notified_once;
    } in
    let b : (t.mailbox).notified ≡ true = ground (arith, h, v.roused q) in
    let g : exec is_notified t ≡ ok u =
      sym (exec_at is_notified selecting t h) ∙ ground (arith, b) in
    prepend is_notified (retrieves ∷ []) t u g refl
      (Begins-notified u refl (subst Safe g (exec-Safe is_notified t v)) q)

-- In every reachable state in which a value lies in the mailbox and the goroutine has not returned,
-- whether or not the ticker is closed, the steps of the goroutine up to the next call of its task can
-- all be made, with no step of a client between, and they begin the task once.
pub enqueued_task_begins :
    (t : PeriodicTask)
    → Reach t
    → t.phase ≢ returned
    → 0 < length (t.mailbox).queue
    → (u : PeriodicTask) × (exec_all (to_run t.phase) t ≡ ok u) × (u.runs ≡ suc t.runs)
unfolding exec go_on
enqueued_task_begins t r n q = begins t.phase refl
  where
    v : IsSound t
    v = Reach-IsSound t r

    rested : PeriodicTask → Outcome PeriodicTask
    rested w = ok (record w { phase = selecting })

    begins : (p : Phase) → t.phase ≡ p → Begins (to_run p) t
    begins selecting h = Begins-selecting t h v q
    begins ticked h =
        let u : PeriodicTask = record t {
          mailbox = record t.mailbox { queue = tt ∷ []; notified = true };
          phase = selecting;
          enqueues = suc t.enqueues;
        } in
        let g : exec enqueues_tick t ≡ ok u =
          sym (exec_at enqueues_tick ticked t h) ∙ ap rested (enqueue_eq t v) in
        prepend enqueues_tick (to_run selecting) t u g refl
          (Begins-selecting u refl (subst Safe g (exec-Safe enqueues_tick t v)) (omega arith))
    begins notified_once h = Begins-notified t h v q
    begins running h =
        let u : PeriodicTask = record t { phase = selecting } in
        let g : exec ends_task t ≡ ok u = sym (exec_at ends_task running t h) in
        prepend ends_task (to_run selecting) t u g refl
          (Begins-selecting u refl (subst Safe g (exec-Safe ends_task t v)) q)
    begins returned h = elim (n h) [ ]

-- In every reachable state the goroutine has returned only if its context is done: neither a call of
-- `Close` nor anything else ends it.
pub runs_until_cancelled : (t : PeriodicTask) → Reach t → t.phase ≡ returned → t.ctx_done ≡ true
runs_until_cancelled t r h = (Reach-IsSound t r).ended h
