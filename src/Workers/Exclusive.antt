-- ===== src/Workers/Exclusive.antt =====
-- What no history of the workers of process/pool_worker.go can do.
use go_cedar.Base.{
  ℕ, ◌≡◌, ◌<◌, refl, inl, inr, true, false, some, Option-cases, Outcome-cases, lookup, Outcome, ok,
  arith, ◌>>=◌, get_elem?, count, ap, sym, ◌∙◌, subst,
}
use go_cedar.Pool.Semaphore.{Setting}
use go_cedar.Pool.Ops.{Pool, get_entry, retry_later, complete}
use go_cedar.Pool.World.{
  World, Event, reads, completes, retries, acquires, cancels, hands_over, exec,
}
use go_cedar.Pool.Invariant.{Allowed}
use go_cedar.Pool.Safety.{Reach, begin, next, Reach-Inv}
use go_cedar.Workers.{
  Crew, Phase, checking, getting, selecting, returned, received, working, Act, checks, passes,
  gives_up, leaves, takes, looks_up, ends, start_crew, place, sent, act, work, surround, Ambient,
}
use go_cedar.Workers.Named.{IsNamed, exec-IsNamed}
use go_cedar.Workers.Matching.{
  total-two, total-le, works_on, Matches, start-Matches, Shifts, place-Matches, acquires-Shifts,
  cancels-Shifts, hands_over-Shifts, reads-Shifts, give_back-Shifts, Ambient-kept,
}
use go_cedar.Pool.Overflow.{availability-le}
use native.Mathlib.Decide.{ℕ_discrete}

module _ (env : Setting) (c i : ℕ) where
  open env use {Sem, Item, item_id}

  -- A crew whose pool is at a reachable moment, and whose workers match the pool's account.
  pub record IsSound (s : Crew Sem Item) : Type 0 where
    pub reached : Reach env c i s.world
    pub matched : Matches env s

  -- A worker's step that makes one step of the pool.
  place-IsSound :
      (s s' : Crew Sem Item) (k : ℕ) (e : Event Item) (x y : Phase Item)
      → IsSound s
      → get_elem? s.workers k ≡ some x
      → Allowed env c e s.world
      → ((w : World Sem Item) → exec env e s.world ≡ ok w → Shifts env s.world w x y)
      → (exec env e s.world >>= place env k y s) ≡ ok s'
      → IsSound s'
  place-IsSound s s' k e x y v g a f h = elim (Outcome-cases (exec env e s.world)) [
    | inl p ↦ absurd (ground (arith, p))
    | inr (inl p) ↦ absurd (ground (arith, p))
    | inr (inr (w, p)) ↦ subst IsSound (ground (arith, p)) (record {
      reached = next s.world e w v.reached a p;
      matched =
          place-Matches env s k x y w v.matched g (f w p)
            (exec-IsNamed env e s.world w p v.matched.named);
    })
  ]

  -- A worker's step of its own.
  move-IsSound :
      (s s' : Crew Sem Item) (k : ℕ) (x y : Phase Item)
      → IsSound s
      → get_elem? s.workers k ≡ some x
      → Shifts env s.world s.world x y
      → place env k y s s.world ≡ ok s'
      → IsSound s'
  move-IsSound s s' k x y v g f h = subst IsSound (ground arith) (record {
    reached = v.reached;
    matched = place-Matches env s k x y s.world v.matched g f v.matched.named;
  })

  get_entry-named :
      (p : Pool Sem Item) (id : ℕ) (item : Item)
      → IsNamed env p
      → get_entry env id p ≡ ok item
      → item_id item ≡ id
  unfolding get_entry
  get_entry-named p id item n h = elim (Option-cases (lookup id p.pool_items)) [
    | inl x ↦ absurd (ground (arith, x))
    | inr (e, x) ↦ ground (arith, x, n id e x)
  ]

  -- A worker at work holds its item.
  pub working_held :
      (s : Crew Sem Item) (k : ℕ) (item : Item)
      → IsSound s
      → get_elem? s.workers k ≡ some (working item)
      → 0 < count (item_id item) s.world.held
  working_held s k item v g =
      let id = item_id item in
      ground (arith, v.matched.items id, total-le (works_on env id) s.workers k (working item) g)

  act-IsSound :
      (s s' : Crew Sem Item) (k : ℕ) (a : Act) (x : Phase Item)
      → IsSound s
      → get_elem? s.workers k ≡ some x
      → act env k a x s ≡ ok s'
      → IsSound s'
  unfolding act
  act-IsSound s s' k (checks true) checking v g h =
      move-IsSound s s' k checking returned v g (ground arith) h
  act-IsSound s s' k (checks false) checking v g h =
      move-IsSound s s' k checking getting v g (ground arith) h
  act-IsSound s s' k passes getting v g h =
      place-IsSound s s' k acquires getting selecting v g tt (acquires-Shifts env s.world) h
  act-IsSound s s' k gives_up getting v g h =
      move-IsSound s s' k getting returned v g (ground arith) h
  act-IsSound s s' k leaves selecting v g h =
      place-IsSound s s' k cancels selecting returned v g tt (cancels-Shifts env s.world) h
  act-IsSound s s' k takes selecting v g h = elim (Outcome-cases (sent env s.world.deliverer)) [
    | inl p ↦ absurd (ground (arith, p))
    | inr (inl p) ↦ absurd (ground (arith, p))
    | inr (inr (id, p)) ↦
        place-IsSound s s' k hands_over selecting (received id) v g tt
          (λ w e. hands_over-Shifts env s.world w id p e)
          (ap
              (λ (o : Outcome ℕ).
                o >>= λ j. exec env hands_over s.world >>= place env k (received j) s)
              (sym p)
            ∙ h)
  ]
  act-IsSound s s' k looks_up (received id) v g h =
      elim (Outcome-cases (get_entry env id s.world.pool)) [
        | inl p ↦ absurd (ground (arith, p))
        | inr (inl p) ↦ absurd (ground (arith, p))
        | inr (inr (item, p)) ↦
            place-IsSound s s' k (reads id) (received id) (working item) v g tt
              (λ w e.
                reads-Shifts env s.world w id item
                  (get_entry-named s.world.pool id item v.matched.named p) e)
              (ap
                  (λ (o : Outcome Item).
                    o >>= λ x. exec env (reads id) s.world >>= place env k (working x) s)
                  (sym p)
                ∙ h)
      ]
  act-IsSound s s' k (ends true t) (working item) v g h =
      place-IsSound s s' k (retries (item_id item) t) (working item) checking v g
        (working_held s k item v g)
        (λ w e.
          give_back-Shifts env s.world w item (retry_later env (item_id item) t s.world.pool)
            (unfold exec in e))
        h
  act-IsSound s s' k (ends false t) (working item) v g h =
      place-IsSound s s' k (completes (item_id item)) (working item) checking v g
        (working_held s k item v g)
        (λ w e.
          give_back-Shifts env s.world w item (complete env (item_id item) s.world.pool)
            (unfold exec in e))
        h
  act-IsSound s s' k _ _ v g h = cc

  Ambient-IsSound :
      (s : Crew Sem Item) (e : Event Item) (w : World Sem Item)
      → IsSound s
      → Ambient env e
      → Allowed env c e s.world
      → exec env e s.world ≡ ok w
      → IsSound (record s { world = w })
  Ambient-IsSound s e w v m a h = record {
    reached = next s.world e w v.reached a h;
    matched = record {
      clients = omega (arith, v.matched.clients, (Ambient-kept env s.world w e m h).0);
      ids = λ id. ap (count id) (Ambient-kept env s.world w e m h).1 ∙ v.matched.ids id;
      items = λ id. ap (count id) (Ambient-kept env s.world w e m h).2 ∙ v.matched.items id;
      named = exec-IsNamed env e s.world w h v.matched.named;
    };
  }

  -- The moments that a new crew can come to, by its workers and by all others.
  pub data CrewReach : Crew Sem Item → Type 0 where
    begins : (s : Crew Sem Item) → s ≡ start_crew env c i → CrewReach s
    by_worker :
        (s : Crew Sem Item) (k : ℕ) (a : Act) (s' : Crew Sem Item)
        → CrewReach s
        → work env k a s ≡ ok s'
        → CrewReach s'
    by_others :
        (s : Crew Sem Item) (e : Event Item) (s' : Crew Sem Item)
        → CrewReach s
        → Ambient env e
        → Allowed env c e s.world
        → surround env e s ≡ ok s'
        → CrewReach s'

  start-IsSound : IsSound (start_crew env c i)
  unfolding start_crew
  start-IsSound = record { reached = begin _ refl; matched = start-Matches env c i }

  pub CrewReach-IsSound : {s : Crew Sem Item} → CrewReach s → IsSound s
  CrewReach-IsSound (begins s e) = subst IsSound (sym e) start-IsSound
  CrewReach-IsSound (by_worker s k a s' r h) = elim (Option-cases (get_elem? s.workers k)) [
    | inl n ↦ absurd (unfold work in ground (arith, n))
    | inr (x, g) ↦ act-IsSound s s' k a x (CrewReach-IsSound r) g (unfold work in ground (arith, g))
  ]
  CrewReach-IsSound (by_others s e s' r m a h) = elim (Outcome-cases (exec env e s.world)) [
    | inl p ↦ absurd (unfold surround in ground (arith, p))
    | inr (inl p) ↦ absurd (unfold surround in ground (arith, p))
    | inr (inr (w, p)) ↦
        let q : record s { world = w } ≡ s' = unfold surround in ground (arith, p) in
        subst IsSound q (Ambient-IsSound s e w (CrewReach-IsSound r) m a p)
  ]

  -- At every moment that a new crew can come to, by steps of its workers and by allowed steps of the
  -- pool's goroutines and other clients, two workers that work on items with the same identifier are
  -- one worker.
  pub same_item_same_worker :
      (s : Crew Sem Item) (j k : ℕ) (x y : Item)
      → CrewReach s
      → get_elem? s.workers j ≡ some (working x)
      → get_elem? s.workers k ≡ some (working y)
      → item_id x ≡ item_id y
      → j ≡ k
  same_item_same_worker s j k x y r g h e = elim (ℕ_discrete j k) [
    | yes p ↦ p
    | no n ↦
        let v = CrewReach-IsSound r in
        let inv = Reach-Inv env c v.reached in
        let id = item_id x in
        absurd (
          ground (
            arith,
            inv.once id,
            v.matched.items id,
            total-two (works_on env id) s.workers j k (working x) (working y) g h n,
            availability-le id s.world.pool,
          ))
  ]
