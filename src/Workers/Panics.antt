-- ===== src/Workers/Panics.antt =====
-- No worker of process/pool_worker.go comes to the panic of `Get` or of the semaphore.
use go_cedar.Base.{
  ℕ, ◌≡◌, ◌≢◌, inl, inr, true, false, some, Option-cases, Outcome, panic, Outcome-cases, arith,
  ◌>>=◌, get_elem?, ap, sym, ◌∙◌,
}
use go_cedar.Pool.Semaphore.{Setting}
use go_cedar.Pool.Ops.{get_entry}
use go_cedar.Pool.World.{Event, reads, completes, retries, acquires, cancels, hands_over, exec}
use go_cedar.Pool.Invariant.{Allowed, known}
use go_cedar.Pool.Safety.{Reach-Inv, pool_never_panics}
use go_cedar.Workers.{
  Crew, Phase, checking, getting, selecting, returned, received, working, Act, checks, passes,
  gives_up, leaves, takes, looks_up, ends, place, sent, act, work,
}
use go_cedar.Workers.Matching.{total-le, has_id}
use go_cedar.Workers.Exclusive.{IsSound, CrewReach, CrewReach-IsSound, working_held}

module _ (env : Setting) (c i : ℕ) where
  open env use {Sem, Item, item_id}

  -- A worker's step that makes one step of the pool does not panic.
  place_never_panics :
      (s : Crew Sem Item) (k : ℕ) (e : Event Item) (y : Phase Item)
      → IsSound env c i s
      → Allowed env c e s.world
      → (exec env e s.world >>= place env k y s) ≢ panic
  place_never_panics s k e y v a h = elim (Outcome-cases (exec env e s.world)) [
    | inl p ↦ pool_never_panics env c i s.world e v.reached a p
    | inr (inl p) ↦ ground (arith, p)
    | inr (inr (w, p)) ↦ ground (arith, p)
  ]

  get_entry_never_panics :
      (s : Crew Sem Item) (k id : ℕ)
      → IsSound env c i s
      → get_elem? s.workers k ≡ some (received id)
      → get_entry env id s.world.pool ≢ panic
  unfolding get_entry
  get_entry_never_panics s k id v g h =
      let inv = Reach-Inv env c v.reached in
      let (e, x, a) = known env c s.world id (
        ground (
          arith,
          inv.once id,
          v.matched.ids id,
          total-le (has_id id) s.workers k (received id) g,
        )) in
      ground (arith, x, a)

  act_never_panics :
      (s : Crew Sem Item) (k : ℕ) (a : Act) (x : Phase Item)
      → IsSound env c i s
      → get_elem? s.workers k ≡ some x
      → act env k a x s ≢ panic
  unfolding act
  act_never_panics s k (checks true) checking v g h = ground arith
  act_never_panics s k (checks false) checking v g h = ground arith
  act_never_panics s k gives_up getting v g h = ground arith
  act_never_panics s k passes getting v g h = place_never_panics s k acquires selecting v tt h
  act_never_panics s k leaves selecting v g h = place_never_panics s k cancels returned v tt h
  act_never_panics s k takes selecting v g h = elim (Outcome-cases (sent env s.world.deliverer)) [
    | inl p ↦ ground arith
    | inr (inl p) ↦ ground (arith, p)
    | inr (inr (id, p)) ↦ place_never_panics s k hands_over (received id) v tt (
        ap
          (λ (o : Outcome ℕ). o >>= λ j. exec env hands_over s.world >>= place env k (received j) s)
          (sym p)
        ∙ h)
  ]
  act_never_panics s k looks_up (received id) v g h =
      elim (Outcome-cases (get_entry env id s.world.pool)) [
        | inl p ↦ get_entry_never_panics s k id v g p
        | inr (inl p) ↦ ground (arith, p)
        | inr (inr (item, p)) ↦ place_never_panics s k (reads id) (working item) v tt (
            ap
              (λ (o : Outcome Item).
                o >>= λ x. exec env (reads id) s.world >>= place env k (working x) s)
              (sym p)
            ∙ h)
      ]
  act_never_panics s k (ends true t) (working item) v g h =
      place_never_panics s k (retries (item_id item) t) checking v
        (working_held env c i s k item v g) h
  act_never_panics s k (ends false t) (working item) v g h =
      place_never_panics s k (completes (item_id item)) checking v
        (working_held env c i s k item v g) h
  act_never_panics s k _ _ v g h = ground arith

  -- At every moment that a new crew can come to, by steps of its workers and by allowed steps of the
  -- pool's goroutines and other clients, no step of any worker panics.
  pub crew_never_panics :
      (s : Crew Sem Item) (k : ℕ) (a : Act) → CrewReach env c i s → work env k a s ≢ panic
  unfolding work
  crew_never_panics s k a r h = elim (Option-cases (get_elem? s.workers k)) [
    | inl n ↦ ground (arith, n)
    | inr (x, g) ↦ act_never_panics s k a x (CrewReach-IsSound env c i r) g (ground (arith, g))
  ]
