-- ===== src/Workers.antt =====
-- process/pool_worker.go: the goroutines of a `poolWorker`, each of which takes items from the pool
-- and gives them back. An event is what one goroutine does between two points where another may run.
pub mod Named
pub mod Matching
pub mod Exclusive
pub mod Panics
pub mod Scheduler
pub mod Retries
mod Tests
use go_cedar.Base.{
  ℕ, zero, suc, ◌+◌, List, [], ◌∷◌, Bool, true, false, Option, none, some, get_elem?, set,
  if◌then◌else◌, Outcome, ok, blocked, panic, ◌>>=◌, or_block,
}
use go_cedar.Pool.Semaphore.{Setting}
use go_cedar.Pool.Ops.{get_entry}
use go_cedar.Pool.World.{
  World, Deliverer, waiting, woken, stopped, delivering, offering, Event, adds, forces, reads,
  completes, retries, ticks, acquires, cancels, wakes, collects, looks, hands_over, stops, start,
  exec,
}

-- Where a worker stands: at the check of `ctx.Done()`, in `sem.Acquire`, in the `select` of `Get`,
-- before the look-up of `Get`, in `item.Work`, or returned.
pub data Phase (Item : Type 0) : Type 0 where
  checking getting selecting returned : Phase Item
  received : ℕ → Phase Item
  working : Item → Phase Item

pub record Crew (Sem : Type 0) (Item : Type 0) : Type 0 where
  pub world : World Sem Item
  pub workers : List (Phase Item)

-- What a worker does next; the flag of `checks` says whether `ctx.Done()` is closed, and `Work`
-- returns whether to retry, for which the scheduler gives the time.
pub data Act : Type 0 where
  checks : Bool → Act
  passes gives_up leaves takes looks_up : Act
  ends : Bool → ℕ → Act

abbrev pub replicate {ℓ} : {A : Type ℓ} → ℕ → A → List A
replicate zero a = []
replicate (suc n) a = a ∷ replicate n a

module _ (env : Setting) where
  open env use {Sem, Item, item_id}

  -- `OnContextStarted` starts the pool and as many workers as its concurrency.
  unfoldable pub start_crew : ℕ → ℕ → Crew Sem Item
  start_crew concurrency retry_interval = record {
    world = start env concurrency retry_interval;
    workers = replicate concurrency checking;
  }

  abbrev pub place : ℕ → Phase Item → Crew Sem Item → World Sem Item → Outcome (Crew Sem Item)
  place k phase s w = ok (record { world = w; workers = set s.workers k phase })

  -- The identifier that the deliverer sends.
  abbrev pub sent : Deliverer → Outcome ℕ
  sent (offering id rest) = ok id
  sent waiting = blocked
  sent woken = blocked
  sent stopped = blocked
  sent (delivering ids) = blocked

  -- One step of the loop of worker `k`.
  unfoldable pub act : ℕ → Act → Phase Item → Crew Sem Item → Outcome (Crew Sem Item)
  act k (checks canceled) checking s = place k (if canceled then returned else getting) s s.world
  act k passes getting s = exec env acquires s.world >>= place k selecting s
  act k gives_up getting s = place k returned s s.world
  act k leaves selecting s = exec env cancels s.world >>= place k returned s
  act k takes selecting s =
      sent s.world.deliverer >>= λ id. exec env hands_over s.world >>= place k (received id) s
  act k looks_up (received id) s = get_entry env id s.world.pool >>= λ item.
      exec env (reads id) s.world >>= place k (working item) s
  act k (ends retry when) (working item) s =
      (if retry
        then exec env (retries (item_id item) when) s.world
        else exec env (completes (item_id item)) s.world)
      >>= place k checking s
  act k _ _ s = blocked

  -- What the pool and its other clients do.
  pub data Ambient : Event Item → Type 0 where
    adding : (item : Item) → Ambient (adds item)
    forcing : (id : ℕ) → Ambient (forces id)
    ticking : (now : ℕ) (order : List ℕ) → Ambient (ticks now order)
    waking : Ambient wakes
    collecting : Ambient collects
    looking : Ambient looks
    stopping : Ambient stops

  unfoldable pub work : ℕ → Act → Crew Sem Item → Outcome (Crew Sem Item)
  work k a s = or_block (get_elem? s.workers k) >>= λ phase. act k a phase s

  unfoldable pub surround : Event Item → Crew Sem Item → Outcome (Crew Sem Item)
  surround e s = exec env e s.world >>= λ w. ok (record s { world = w })
