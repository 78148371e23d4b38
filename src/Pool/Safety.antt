-- ===== src/Pool/Safety.antt =====
-- What no history of a pool of process/pool.go can do.
use go_cedar.Base.{
  ℕ, ◌+◌, ◌≤◌, ◌<◌, ◌≡◌, refl, ◌≢◌, ◌⊎◌, true, none, lookup, ok, panic, arith, length, count, sym,
  subst,
}
use go_cedar.Pool.Semaphore.{Setting}
use go_cedar.Pool.Ops.{add}
use go_cedar.Pool.World.{
  World, woken, Event, adds, forces, reads, completes, retries, ticks, acquires, cancels, wakes,
  collects, looks, hands_over, stops, start, exec,
}
use go_cedar.Pool.Effects.{
  queued, add-Announces, force_retry-Succeeds, retry_items-Succeeds, retry_later-Returns,
  complete-Returns,
}
use go_cedar.Pool.Invariant.{
  batch, Inv, Allowed, Safe, start-Inv, on_pool-Safe, give_back-Safe, enter_get-Safe,
  leave_get-Safe, read_entry-Safe,
}
use go_cedar.Pool.Delivery.{hand_over-Safe, wake-Safe, collect-Safe, look-Safe, stop-Safe}

module _ (env : Setting) (c : ℕ) where
  open env use {Sem, Item, acquire, release, units, size}

  -- No allowed step of any goroutine panics, and each keeps the invariant.
  pub exec-Safe :
      (e : Event Item) (w : World Sem Item)
      → Allowed env c e w
      → Inv env c w
      → Safe env c (exec env e w)
  unfolding exec
  exec-Safe (adds item) w a v =
      on_pool-Safe env c w _ (add env item w.pool, refl, add-Announces env item w.pool) v
  exec-Safe (forces id) w (e, s) v =
      on_pool-Safe env c w _ (force_retry-Succeeds env id w.pool e s) v
  exec-Safe (ticks now order) w a v =
      on_pool-Safe env c w _ (retry_items-Succeeds env now order w.pool) v
  exec-Safe (retries id t) w a v =
      give_back-Safe env c w id _ (λ e s u. retry_later-Returns env id t w.pool e s u) a v
  exec-Safe (completes id) w a v =
      give_back-Safe env c w id _ (λ e s u. complete-Returns env id w.pool e s u) a v
  exec-Safe (reads id) w a v = read_entry-Safe env c w id v
  exec-Safe acquires w a v = enter_get-Safe env c w v
  exec-Safe cancels w a v = leave_get-Safe env c w w.selecting refl v
  exec-Safe wakes w a v = wake-Safe env c w w.deliverer refl v
  exec-Safe collects w a v = collect-Safe env c w w.deliverer refl v
  exec-Safe looks w a v = look-Safe env c w w.deliverer refl v
  exec-Safe hands_over w a v = hand_over-Safe env c w w.deliverer w.selecting refl refl v
  exec-Safe stops w a v = stop-Safe env c w w.deliverer refl v

  -- The moments that a new pool can come to.
  pub data Reach (retry_interval : ℕ) : World Sem Item → Type 0 where
    begin : (w : World Sem Item) → w ≡ start env c retry_interval → Reach retry_interval w
    next :
        (w : World Sem Item) (e : Event Item) (w' : World Sem Item)
        → Reach retry_interval w
        → Allowed env c e w
        → exec env e w ≡ ok w'
        → Reach retry_interval w'

  pub Reach-Inv : {i : ℕ} {w : World Sem Item} → Reach i w → Inv env c w
  Reach-Inv {i} (begin w e) = subst (Inv env c) (sym e) (start-Inv env c i)
  Reach-Inv (next w e w' r a h) = subst (Safe env c) h (exec-Safe e w a (Reach-Inv r))

  -- In every state of a pool that is reached by steps that `Allowed` admits, where clients force only
  -- identifiers that they have added and give back only items that they hold, no such step panics:
  -- `Get` and the deliverer never meet an identifier that is unknown or not available, and the
  -- semaphore is not released too often.
  pub pool_never_panics :
      (i : ℕ) (w : World Sem Item) (e : Event Item)
      → Reach i w
      → Allowed env c e w
      → exec env e w ≢ panic
  pool_never_panics i w e r a h = subst (Safe env c) h (exec-Safe e w a (Reach-Inv r))

  -- In every state that a pool reaches by allowed steps, an identifier that a client holds is held
  -- once, is nowhere on its way to another client, and its item is in the map.
  pub held_once :
      (i : ℕ) (w : World Sem Item) (id : ℕ)
      → Reach i w
      → 0 < count id w.held
      → (count id w.held ≡ 1)
        × (queued id w.pool + count id (batch w.deliverer) + count id w.received ≡ 0)
        × (lookup id w.pool.pool_items ≢ none)
  held_once i w id r h =
      let v = Reach-Inv r in
      (ground (arith, v.once id), ground (arith, v.once id), ground (arith, v.once id))

  -- In every state that a pool reaches by allowed steps, the clients in `Get` past the semaphore and those that hold an item are
  -- together not more than the pool's concurrency.
  pub concurrency_bounded :
      (i : ℕ) (w : World Sem Item) → Reach i w → w.selecting + length w.received + length w.held ≤ c
  concurrency_bounded i w r = let v = Reach-Inv r in omega (arith, v.leased, v.within)

  -- In every state that a pool reaches by allowed steps no wake-up is lost: while an announced identifier waits, the channel holds a
  -- signal, or the deliverer has taken it and is about to collect.
  pub wake_up_pending :
      (i : ℕ) (w : World Sem Item)
      → Reach i w
      → 0 < length w.pool.items_available.queue
      → (w.pool.items_available.notified ≡ true) ⊎ (w.deliverer ≡ woken)
  wake_up_pending i w r = (Reach-Inv r).roused
