-- ===== src/Pool/Invariant.antt =====
-- What holds of a pool of process/pool.go at every moment of its work.
use go_cedar.Base.{
  ℕ, zero, suc, ◌+◌, ◌≤◌, ◌<◌, ◌≡◌, ◌⊎◌, inl, inr, List, [], ◌∷◌, true, some, lookup, Outcome, ok,
  blocked, panic, arith, length, count, take_out, count-take_out, count-take_out-none, Option-cases,
  ◌>>=◌, ap, ◌∙◌,
}
use go_cedar.Mailbox.{Mailbox, new_mailbox}
use go_cedar.Pool.Semaphore.{Setting}
use go_cedar.Pool.Ops.{Pool, PoolItem, is_available, new_pool, release_unit, get_entry}
use go_cedar.Pool.World.{
  World, Deliverer, waiting, woken, stopped, delivering, offering, Event, adds, forces, reads,
  completes, retries, ticks, acquires, cancels, wakes, collects, looks, hands_over, stops, start,
  enter_get, leave_get, read_entry, give_back, on_pool,
}
use go_cedar.Pool.Effects.{available_at, queued, Succeeds, Returns}

-- The identifiers that the deliverer carries.
abbrev pub batch : Deliverer → List ℕ
batch (delivering ids) = ids
batch (offering id rest) = id ∷ rest
batch waiting = []
batch woken = []
batch stopped = []

-- How often an identifier is on its way or with a client.
abbrev pub tally : {Sem Item : Type 0} → ℕ → World Sem Item → ℕ
tally id w = queued id w.pool + count id (batch w.deliverer) + count id w.received + count id w.held

module _ (env : Setting) (c : ℕ) where
  open env use {Sem, Item, acquire, release, units, size}

  pub record Inv (w : World Sem Item) : Type 0 where
    pub once : (id : ℕ) → tally id w ≤ available_at id w.pool
    pub leased : units w.pool.sem ≡ w.selecting + length w.received + length w.held
    pub within : units w.pool.sem ≤ c
    pub sized : size w.pool.sem ≡ c
    pub roused :
        0 < length w.pool.items_available.queue
        → (w.pool.items_available.notified ≡ true) ⊎ (w.deliverer ≡ woken)

  -- A client forces only identifiers that it has added, and gives back only items that it holds.
  abbrev pub Allowed : Event Item → World Sem Item → Type 0
  Allowed (forces id) w = (e : PoolItem Item) × (lookup id w.pool.pool_items ≡ some e)
  Allowed (adds _) w = Unit
  Allowed (reads _) w = Unit
  Allowed (completes id) w = 0 < count id w.held
  Allowed (retries id _) w = 0 < count id w.held
  Allowed (ticks _ _) w = Unit
  Allowed acquires w = Unit
  Allowed cancels w = Unit
  Allowed wakes w = Unit
  Allowed collects w = Unit
  Allowed looks w = Unit
  Allowed hands_over w = Unit
  Allowed stops w = Unit

  -- No panic, and the invariant if the step is made.
  abbrev pub Safe : Outcome (World Sem Item) → Type 0
  Safe (ok w) = Inv w
  Safe blocked = Unit
  Safe panic = ⊥

  pub start-Inv : (retry_interval : ℕ) → Inv (start env c retry_interval)
  unfolding start new_pool new_mailbox lookup
  start-Inv i = record {
    once = λ id. omega arith;
    leased = omega (arith, (env.new_weighted_lem c).0);
    within = omega (arith, (env.new_weighted_lem c).0);
    sized = (env.new_weighted_lem c).1;
    roused = λ h. absurd (omega arith);
  }

  pub on_pool-Safe :
      (w : World Sem Item) (r : Outcome (Pool Sem Item))
      → Succeeds env w.pool r
      → Inv w
      → Safe (on_pool env r w)
  unfolding on_pool
  on_pool-Safe w r (q, e, a) v = rw e (record {
    once = λ id. omega (arith, v.once id, a.balanced id);
    leased = rw a.sem_kept v.leased;
    within = rw a.sem_kept v.within;
    sized = rw a.sem_kept v.sized;
    roused = ground (arith, a.rings, v.roused);
  })

  -- What is out of its way or with a client is known and available.
  pub known :
      (w : World Sem Item) (id : ℕ)
      → 0 < available_at id w.pool
      → (e : PoolItem Item) × (lookup id w.pool.pool_items ≡ some e) × (is_available e.state ≡ true)
  known w id h = elim (Option-cases (lookup id w.pool.pool_items)) [
    | inl n ↦ ground (arith, n)
    | inr (e, s) ↦ (e, s, ground arith)
  ]

  pub give_back-Safe :
      (w : World Sem Item) (id : ℕ) (r : Outcome (Pool Sem Item))
      → ((e : PoolItem Item)
          → lookup id w.pool.pool_items ≡ some e
          → 0 < units w.pool.sem
          → (q : Pool Sem Item) × (r ≡ ok q) × Returns env id w.pool q)
      → 0 < count id w.held
      → Inv w
      → Safe (give_back env id r w)
  unfolding give_back
  give_back-Safe w id r call b v = elim (Option-cases (take_out id w.held)) [
    | inl n ↦ absurd (omega (arith, count-take_out-none id w.held n, b))
    | inr (rest, t) ↦
        let (e, s, _) = known w id (ground (arith, v.once id, count-take_out id id w.held t)) in
        let (q, f, a) = call e s (omega (arith, v.leased, count-take_out id id w.held t)) in
        rw (t, f, give_back)
          (record {
            once = λ j. ground (
              arith,
              v.once j,
              v.once id,
              a.withdrawn j,
              count-take_out id j w.held t,
              count-take_out id id w.held t,
              ap (λ m. count j (Mailbox.queue m)) a.box_kept,
            );
            leased = omega (arith, v.leased, a.freed, count-take_out id id w.held t);
            within = omega (arith, v.within, a.freed);
            sized = a.size_kept ∙ v.sized;
            roused = rw a.box_kept v.roused;
          })
  ]

  pub enter_get-Safe : (w : World Sem Item) → Inv w → Safe (enter_get env w)
  unfolding enter_get
  enter_get-Safe w v = elim (Option-cases (acquire w.pool.sem)) [
    | inl n ↦ rw (n, enter_get) tt
    | inr (s, a) ↦
        let (up, room, same) = env.acquire_some w.pool.sem s a in
        rw (a, enter_get)
          (record {
            once = v.once;
            leased = omega (arith, v.leased);
            within = omega (arith, v.sized);
            sized = same ∙ v.sized;
            roused = v.roused;
          })
  ]

  release_unit-Safe :
      (w : World Sem Item) (n : ℕ)
      → Inv w
      → w.selecting ≡ suc n
      → Safe (release_unit env w.pool >>= λ q. ok (record w { pool = q; selecting = n }))
  unfolding release_unit
  release_unit-Safe w n v h = elim (Option-cases (release w.pool.sem)) [
    | inl empty ↦ absurd (omega (arith, env.release_none w.pool.sem empty, v.leased))
    | inr (s, out) ↦
        let (down, same) = env.release_some w.pool.sem s out in
        rw out (record {
          once = v.once;
          leased = omega (arith, v.leased);
          within = omega (arith, v.within);
          sized = same ∙ v.sized;
          roused = v.roused;
        })
  ]

  pub leave_get-Safe :
      (w : World Sem Item) (n : ℕ) → w.selecting ≡ n → Inv w → Safe (leave_get env w)
  unfolding leave_get
  leave_get-Safe w zero h v = rw (h, leave_get) tt
  leave_get-Safe w (suc n) h v = rw (h, leave_get) (release_unit-Safe w n v h)

  pub read_entry-Safe : (w : World Sem Item) (id : ℕ) → Inv w → Safe (read_entry env id w)
  unfolding read_entry get_entry
  read_entry-Safe w id v = elim (Option-cases (take_out id w.received)) [
    | inl n ↦ rw (n, read_entry) tt
    | inr (rest, t) ↦
        let (e, s, a) = known w id (ground (arith, v.once id, count-take_out id id w.received t)) in
        rw (t, s, a, read_entry)
          (record {
            once = λ j. omega (arith, v.once j, count-take_out id j w.received t);
            leased = omega (arith, v.leased, count-take_out id id w.received t);
            within = v.within;
            sized = v.sized;
            roused = v.roused;
          })
  ]
