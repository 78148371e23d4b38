-- ===== src/Pool/Flow.antt =====
-- How the identifiers of process/pool.go travel: no step puts one on its way unless its item becomes
-- available by that step.
use go_cedar.Base.{
  ℕ, ◌+◌, ◌≤◌, ◌≡◌, refl, ◌⊎◌, inl, inr, false, none, lookup, lookup-insert, Outcome, ok, arith,
  count, take_out, count-take_out, count-reverse, Option-cases, ◌>>=◌, ap,
}
use go_cedar.Mailbox.{retrieve_all}
use go_cedar.Mailbox.Reversal.{reverse_in_place-eq-reverse}
use go_cedar.Pool.Semaphore.{Setting}
use go_cedar.Pool.Ops.{
  Pool, ItemState, in_retry_pool, done, is_available, add, force_retry, retry_later, complete,
  set_state, release_unit, get_entry,
}
use go_cedar.Pool.World.{
  World, Deliverer, waiting, woken, stopped, delivering, offering, Event, adds, forces, reads,
  completes, retries, ticks, acquires, cancels, wakes, collects, looks, hands_over, stops,
  enter_get, leave_get, hand_over, read_entry, wake, collect, look, stop, give_back, on_pool, exec,
}
use go_cedar.Pool.Effects.{
  available_at, add-Announces, Succeeds, force_retry-Succeeds, retry_items-Succeeds,
}
use go_cedar.Pool.Invariant.{batch, tally}

-- The step from the first world to the second adds to an identifier's tally at most what it adds to
-- its availability.
abbrev pub Balanced : {Sem Item : Type 0} → ℕ → World Sem Item → World Sem Item → Type 0
Balanced id w w' = tally id w' + available_at id w.pool ≤ tally id w + available_at id w'.pool

module _ (env : Setting) where
  open env use {Sem, Item, acquire, release}

  on_pool-Balanced :
      (w w' : World Sem Item) (r : Outcome (Pool Sem Item)) (id : ℕ)
      → Succeeds env w.pool r
      → on_pool env r w ≡ ok w'
      → Balanced id w w'
  unfolding on_pool
  on_pool-Balanced w w' r id (q, e, a) h = ground (arith, e, a.balanced id)

  give_back-Balanced :
      (w w' : World Sem Item) (x state_time : ℕ) (state : ItemState) (id : ℕ)
      → is_available state ≡ false
      → give_back env x (set_state env x state state_time w.pool >>= release_unit env) w ≡ ok w'
      → Balanced id w w'
  unfolding give_back set_state release_unit
  give_back-Balanced w w' x t state id n h = elim (Option-cases (take_out x w.held)) [
    | inl e ↦ ground (arith, e)
    | inr (rest, e) ↦ elim (Option-cases (lookup x w.pool.pool_items)) [
      | inl u ↦ ground (arith, e, u)
      | inr (entry, s) ↦ ground (
        arith,
        e,
        s,
        count-take_out x id w.held e,
        lookup-insert x id (record entry { state = state; retry_when = t }) w.pool.pool_items,
      )
    ]
  ]

  deliverer-Balanced :
      (w w' : World Sem Item) (d : Deliverer) (id : ℕ)
      → w.deliverer ≡ d
      → (hand_over env d w ≡ ok w')
        ⊎ (wake env d w ≡ ok w')
        ⊎ (look env d w ≡ ok w')
        ⊎ (stop env d w ≡ ok w')
      → Balanced id w w'
  unfolding hand_over wake look stop
  deliverer-Balanced w w' waiting id e h = ground (arith, ap (λ d. count id (batch d)) e)
  deliverer-Balanced w w' d id e h = ground (arith, ap (λ d. count id (batch d)) e)

  collect-Balanced :
      (w w' : World Sem Item) (d : Deliverer) (id : ℕ)
      → w.deliverer ≡ d
      → collect env d w ≡ ok w'
      → Balanced id w w'
  unfolding collect retrieve_all
  collect-Balanced w w' woken id e h =
      let queue = w.pool.items_available.queue in
      ground (
        arith,
        ap (λ d. count id (batch d)) e,
        ap (count id) (reverse_in_place-eq-reverse queue),
        count-reverse id queue,
      )
  collect-Balanced w w' waiting id e h = cc
  collect-Balanced w w' stopped id e h = cc
  collect-Balanced w w' (delivering ids) id e h = cc
  collect-Balanced w w' (offering x ids) id e h = cc

  clients-Balanced :
      (w w' : World Sem Item) (x : ℕ) (id : ℕ)
      → (enter_get env w ≡ ok w') ⊎ (leave_get env w ≡ ok w')
      → Balanced id w w'
  unfolding enter_get leave_get release_unit
  clients-Balanced w w' x id h = ground arith

  read_entry-Balanced :
      (w w' : World Sem Item) (x : ℕ) (id : ℕ) → read_entry env x w ≡ ok w' → Balanced id w w'
  unfolding read_entry get_entry
  read_entry-Balanced w w' x id h = elim (Option-cases (take_out x w.received)) [
    | inl e ↦ ground (arith, e)
    | inr (rest, e) ↦ ground (arith, e, count-take_out x id w.received e)
  ]

  force-Balanced :
      (w w' : World Sem Item) (x : ℕ) (id : ℕ)
      → on_pool env (force_retry env x w.pool) w ≡ ok w'
      → Balanced id w w'
  force-Balanced w w' x id h = elim (Option-cases (lookup x w.pool.pool_items)) [
    | inl n ↦ absurd (unknown n h)
    | inr (e, s) ↦ on_pool-Balanced w w' _ id (force_retry-Succeeds env x w.pool e s) h
  ]
    where
      unknown :
          lookup x w.pool.pool_items ≡ none → on_pool env (force_retry env x w.pool) w ≡ ok w' → ⊥
      unknown n k = unfold force_retry on_pool in ground (arith, n)

  -- Every step of every goroutine is balanced for every identifier.
  pub exec-Balanced :
      (e : Event Item) (w w' : World Sem Item) (id : ℕ) → exec env e w ≡ ok w' → Balanced id w w'
  unfolding exec
  exec-Balanced (adds item) w w' id h =
      on_pool-Balanced w w' _ id (add env item w.pool, refl, add-Announces env item w.pool) h
  exec-Balanced (forces x) w w' id h = force-Balanced w w' x id h
  exec-Balanced (ticks now order) w w' id h =
      on_pool-Balanced w w' _ id (retry_items-Succeeds env now order w.pool) h
  exec-Balanced (retries x t) w w' id h =
      give_back-Balanced w w' x t in_retry_pool id refl (unfold retry_later in h)
  exec-Balanced (completes x) w w' id h =
      give_back-Balanced w w' x 0 done id refl (unfold complete in h)
  exec-Balanced (reads x) w w' id h = read_entry-Balanced w w' x id h
  exec-Balanced acquires w w' id h = clients-Balanced w w' 0 id (inl h)
  exec-Balanced cancels w w' id h = clients-Balanced w w' 0 id (inr h)
  exec-Balanced wakes w w' id h = deliverer-Balanced w w' w.deliverer id refl (inr (inl h))
  exec-Balanced collects w w' id h = collect-Balanced w w' w.deliverer id refl h
  exec-Balanced looks w w' id h = deliverer-Balanced w w' w.deliverer id refl (inr (inr (inl h)))
  exec-Balanced hands_over w w' id h = deliverer-Balanced w w' w.deliverer id refl (inl h)
  exec-Balanced stops w w' id h = deliverer-Balanced w w' w.deliverer id refl (inr (inr (inr h)))
