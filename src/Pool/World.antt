-- ===== src/Pool/World.antt =====
-- process/pool.go at work: the pool, its goroutine `deliverAvailableItems`, the ticks of
-- `handleItemsAwaitingRetry`, and the clients that stand in `Get` or hold an item. An event is what
-- one goroutine does between two points where another may run.
use go_cedar.Base.{
  ℕ, zero, suc, List, [], ◌∷◌, false, if◌then◌else◌, Outcome, ok, blocked, ◌>>=◌, or_block,
  or_panic, take_out,
}
use go_cedar.Mailbox.{retrieve_all}
use go_cedar.Pool.Semaphore.{Setting}
use go_cedar.Pool.Ops.{
  Pool, new_pool, add, force_retry, retry_items, retry_later, complete, release_unit, get_entry,
  is_offered,
}

-- Where `deliverAvailableItems` stands: in its outer `select`, before `RetrieveAll`, in the loop over
-- a batch, in the inner `select` with an identifier to send, or returned.
pub data Deliverer : Type 0 where
  waiting woken stopped : Deliverer
  delivering : List ℕ → Deliverer
  offering : ℕ → List ℕ → Deliverer

-- `selecting`: how many clients stand in the `select` of `Get`. `received`: the identifiers that a
-- client has from `chItems` and not yet looked up. `held`: those whose item `Get` has returned, up to
-- the client's `RetryLater` or `Complete`.
pub record World (Sem : Type 0) (Item : Type 0) : Type 0 where
  pub pool : Pool Sem Item
  pub deliverer : Deliverer
  pub selecting : ℕ
  pub received : List ℕ
  pub held : List ℕ

-- Clients: `adds`, `forces`, and in `Get` `acquires` a unit, `cancels` at `ctx.Done()`, `reads` the
-- entry of an identifier that it has received; then `retries` or `completes`. The deliverer `wakes`,
-- `collects`, `looks`, `hands_over` to a client in `Get`, or `stops` at `ctx.Done()`. `ticks` is one
-- round of `handleItemsAwaitingRetry` at a time, over the keys in some order.
pub data Event (Item : Type 0) : Type 0 where
  adds : Item → Event Item
  forces reads completes : ℕ → Event Item
  retries : ℕ → ℕ → Event Item
  ticks : ℕ → List ℕ → Event Item
  acquires cancels wakes collects looks hands_over stops : Event Item

module _ (env : Setting) where
  open env use {Sem, Item, acquire}

  -- The retry interval is taken to be positive; `time.NewTicker` panics at another.
  unfoldable pub start : ℕ → ℕ → World Sem Item
  start concurrency retry_interval = record {
    pool = new_pool env concurrency retry_interval;
    deliverer = waiting;
    selecting = 0;
    received = [];
    held = [];
  }

  -- The first lines of `Get`: `sem.Acquire(ctx, 1)`.
  unfoldable pub enter_get : World Sem Item → Outcome (World Sem Item)
  enter_get w = do
    s ← or_block (acquire w.pool.sem)
    ok (record w { pool = record w.pool { sem = s }; selecting = suc w.selecting })

  -- `case <-ctx.Done()` in `Get`, with the deferred `sem.Release(1)`.
  unfoldable pub leave_get : World Sem Item → Outcome (World Sem Item)
  leave_get w = elim w.selecting [
    | zero ↦ blocked
    | suc n ↦ release_unit env w.pool >>= λ q. ok (record w { pool = q; selecting = n })
  ]

  -- `case id := <-p.chItems` meets `case p.chItems <- id`.
  unfoldable pub hand_over : Deliverer → World Sem Item → Outcome (World Sem Item)
  hand_over (offering id rest) w = elim w.selecting [
    | zero ↦ blocked
    | suc n ↦
        ok (record w { deliverer = delivering rest; selecting = n; received = id ∷ w.received })
  ]
  hand_over _ w = blocked

  unfoldable pub read_entry : ℕ → World Sem Item → Outcome (World Sem Item)
  read_entry id w = do
    rest ← or_block (take_out id w.received)
    item ← get_entry env id w.pool
    ok (record w { received = rest; held = id ∷ w.held })

  unfoldable pub wake : Deliverer → World Sem Item → Outcome (World Sem Item)
  wake waiting w =
      let m = w.pool.items_available in
      if m.notified
      then ok (record w {
        pool = record w.pool { items_available = record m { notified = false } };
        deliverer = woken;
      })
      else blocked
  wake _ w = blocked

  unfoldable pub collect : Deliverer → World Sem Item → Outcome (World Sem Item)
  collect woken w =
      let (m, ids) = retrieve_all w.pool.items_available in
      ok (record w { pool = record w.pool { items_available = m }; deliverer = delivering ids })
  collect _ w = blocked

  -- One round of the loop over a batch; after the last one the deliverer waits again.
  unfoldable pub look : Deliverer → World Sem Item → Outcome (World Sem Item)
  look (delivering []) w = ok (record w { deliverer = waiting })
  look (delivering (id ∷ rest)) w = do
    offered ← is_offered env id w.pool
    ok (record w { deliverer = if offered then offering id rest else delivering rest })
  look _ w = blocked

  unfoldable pub stop : Deliverer → World Sem Item → Outcome (World Sem Item)
  stop waiting w = ok (record w { deliverer = stopped })
  stop (offering id rest) w = ok (record w { deliverer = stopped })
  stop _ w = blocked

  -- A client gives an item back. The source does not check that the client holds it: it would then
  -- set the state of an item that is not the client's and release a unit that is not its own, which
  -- panics when no unit is out. Any such misuse is a panic here.
  unfoldable pub give_back : ℕ → Outcome (Pool Sem Item) → World Sem Item → Outcome (World Sem Item)
  give_back id result w = do
    rest ← or_panic (take_out id w.held)
    q ← result
    ok (record w { pool = q; held = rest })

  unfoldable pub on_pool : Outcome (Pool Sem Item) → World Sem Item → Outcome (World Sem Item)
  on_pool result w = result >>= λ q. ok (record w { pool = q })

  unfoldable pub exec : Event Item → World Sem Item → Outcome (World Sem Item)
  exec (adds item) w = on_pool (ok (add env item w.pool)) w
  exec (forces id) w = on_pool (force_retry env id w.pool) w
  exec (ticks now order) w = on_pool (retry_items env now order w.pool) w
  exec (retries id retry_when) w = give_back id (retry_later env id retry_when w.pool) w
  exec (completes id) w = give_back id (complete env id w.pool) w
  exec (reads id) w = read_entry id w
  exec acquires w = enter_get w
  exec cancels w = leave_get w
  exec wakes w = wake w.deliverer w
  exec collects w = collect w.deliverer w
  exec looks w = look w.deliverer w
  exec hands_over w = hand_over w.deliverer w
  exec stops w = stop w.deliverer w
