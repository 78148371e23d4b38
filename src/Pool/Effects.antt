-- ===== src/Pool/Effects.antt =====
-- What the methods of process/pool.go do to the queue of announced identifiers and to the states.
use go_cedar.Base.{
  ℕ, suc, ◌+◌, ◌-◌, ◌≤◌, ◌<◌, ◌≡◌, refl, ◌⊎◌, inl, inr, List, [], ◌∷◌, Bool, true, false, Option,
  none, some, ltb, Option-cases, ◌&&◌, if◌then◌else◌, lookup, insert, lookup-insert, Outcome, ok,
  arith, length, count, one_if, count-take-le, ◌==◌, ◌>>=◌,
}
use go_cedar.Mailbox.{Mailbox, deliver}
use go_cedar.Pool.Semaphore.{Setting}
use go_cedar.Pool.Ops.{
  Pool, PoolItem, ItemState, available, in_retry_pool, done, is_available, is_in_retry_pool,
  announce, add, set_state, revive, force_retry, retry_item, retry_items, retry_later, complete,
  release_unit,
}

abbrev pub as_unit : Bool → ℕ
as_unit b = if b then 1 else 0

abbrev pub availability : {Item : Type 0} → Option (PoolItem Item) → ℕ
availability none = 0
availability (some entry) = as_unit (is_available entry.state)

-- 1 if the identifier is known and its item available, 0 otherwise.
abbrev pub available_at : {Sem Item : Type 0} → ℕ → Pool Sem Item → ℕ
available_at id p = availability (lookup id p.pool_items)

abbrev pub queued : {Sem Item : Type 0} → ℕ → Pool Sem Item → ℕ
queued id p = count id p.items_available.queue

pub count-deliver :
    (id x : ℕ) (m : Mailbox ℕ) → count id (deliver x m).queue ≤ one_if x id + count id m.queue
unfolding deliver
count-deliver id x m = ground (arith, count-take-le id (length (x ∷ m.queue) - 1) (x ∷ m.queue))

-- Identifiers are announced only as their items become available; the semaphore is not touched, and
-- a queue that has changed leaves a wake-up.
pub record Announces {Sem Item : Type 0} (p q : Pool Sem Item) : Type 0 where
  pub balanced : (id : ℕ) → queued id q + available_at id p ≤ queued id p + available_at id q
  pub sem_kept : q.sem ≡ p.sem
  pub rings : (q.items_available.notified ≡ true) ⊎ (q.items_available ≡ p.items_available)

Announces-refl : {Sem Item : Type 0} (p : Pool Sem Item) → Announces p p
Announces-refl p = record { balanced = λ id. omega arith; sem_kept = refl; rings = inr refl }

Announces-trans :
    {Sem Item : Type 0} (p q r : Pool Sem Item) → Announces p q → Announces q r → Announces p r
Announces-trans p q r a b = record {
  balanced = λ id. omega (arith, a.balanced id, b.balanced id);
  sem_kept = ground arith;
  rings = ground arith;
}

module _ (env : Setting) where
  open env use {Sem, Item, item_id, release}

  pub set_state_lem :
      (id : ℕ) (state : ItemState) (retry_when : ℕ) (p : Pool Sem Item) (e : PoolItem Item)
      → lookup id p.pool_items ≡ some e
      → set_state env id state retry_when p
        ≡ ok (record p {
          pool_items = insert id (record e { state = state; retry_when = retry_when }) p.pool_items;
        })
  unfolding set_state
  set_state_lem id state retry_when p e h = rw h

  -- An item that was not available becomes so, and is announced.
  publish-Announces :
      (id : ℕ) (e : PoolItem Item) (p : Pool Sem Item)
      → e.state ≡ available
      → available_at id p ≡ 0
      → Announces p (announce env id (record p { pool_items = insert id e p.pool_items }))
  unfolding announce
  publish-Announces id e p now before = record {
    balanced = λ j.
        ground (arith, lookup-insert id j e p.pool_items, count-deliver j id p.items_available);
    sem_kept = refl;
    rings = inl (unfold deliver in refl);
  }

  pub add-Announces : (item : Item) (p : Pool Sem Item) → Announces p (add env item p)
  unfolding add
  add-Announces item p = elim (Option-cases (lookup (item_id item) p.pool_items)) [
    | inl h ↦ rw (h, add) (publish-Announces (item_id item) _ p refl (rw h))
    | inr (e, h) ↦ rw (h, add) (Announces-refl p)
  ]

  revive-Announces :
      (id : ℕ) (p : Pool Sem Item) (e : PoolItem Item)
      → lookup id p.pool_items ≡ some e
      → is_in_retry_pool e.state ≡ true
      → (q : Pool Sem Item) × (revive env id p ≡ ok q) × Announces p q
  unfolding revive
  revive-Announces id p e h r =
      let f : PoolItem Item = record e { state = available; retry_when = 0 } in
      (
        announce env id (record p { pool_items = insert id f p.pool_items }),
        rw (set_state_lem id available 0 p e h),
        publish-Announces id f p refl (ground arith),
      )

  -- A call that succeeds, with a pool that has announced what became available.
  abbrev pub Succeeds : Pool Sem Item → Outcome (Pool Sem Item) → Type 0
  Succeeds p r = (q : Pool Sem Item) × (r ≡ ok q) × Announces p q

  revive_if :
      (id : ℕ) (p : Pool Sem Item) (e : PoolItem Item) (due : Bool)
      → lookup id p.pool_items ≡ some e
      → (due ≡ true → is_in_retry_pool e.state ≡ true)
      → Succeeds p (if due then revive env id p else ok p)
  revive_if id p e true h r = revive-Announces id p e h (r refl)
  revive_if id p e false h r = (p, refl, Announces-refl p)

  pub force_retry-Succeeds :
      (id : ℕ) (p : Pool Sem Item) (e : PoolItem Item)
      → lookup id p.pool_items ≡ some e
      → Succeeds p (force_retry env id p)
  unfolding force_retry
  force_retry-Succeeds id p e h =
      rw (h, force_retry) (revive_if id p e (is_in_retry_pool e.state) h (λ r. r))

  pub retry_item-Succeeds : (now id : ℕ) (p : Pool Sem Item) → Succeeds p (retry_item env now id p)
  unfolding retry_item
  retry_item-Succeeds now id p = elim (Option-cases (lookup id p.pool_items)) [
    | inl h ↦ rw (h, retry_item) (p, refl, Announces-refl p)
    | inr (e, h) ↦
        rw (h, retry_item)
          (revive_if id p e (is_in_retry_pool e.state && ltb e.retry_when now) h (ground arith))
  ]

  pub retry_items-Succeeds :
      (now : ℕ) (order : List ℕ) (p : Pool Sem Item) → Succeeds p (retry_items env now order p)
  unfolding retry_items
  retry_items-Succeeds now [] p = (p, refl, Announces-refl p)
  retry_items-Succeeds now (id ∷ order) p =
      let (q, e, a) = retry_item-Succeeds now id p in
      let (r, f, b) = retry_items-Succeeds now order q in (r, rw e f, Announces-trans p q r a b)

  -- What a client's `RetryLater` or `Complete` does to a pool where the item is known and a unit out.
  pub record Returns (id : ℕ) (p q : Pool Sem Item) : Type 0 where
    pub freed : env.units p.sem ≡ suc (env.units q.sem)
    pub size_kept : env.size q.sem ≡ env.size p.sem
    pub box_kept : q.items_available ≡ p.items_available
    pub withdrawn : (j : ℕ) → available_at j q ≡ (if id == j then 0 else available_at j p)

  set_and_release :
      (id : ℕ) (state : ItemState) (retry_when : ℕ) (p : Pool Sem Item) (e : PoolItem Item)
      → lookup id p.pool_items ≡ some e
      → is_available state ≡ false
      → 0 < env.units p.sem
      → (q : Pool Sem Item) × ((set_state env id state retry_when p >>= release_unit env) ≡ ok q)
        × Returns id p q
  unfolding release_unit
  set_and_release id state retry_when p e h a u = elim (Option-cases (release p.sem)) [
    | inl none_out ↦ absurd (omega (arith, env.release_none p.sem none_out))
    | inr (s, out) ↦
        let f : PoolItem Item = record e { state = state; retry_when = retry_when } in
        (
          record p { sem = s; pool_items = insert id f p.pool_items },
          rw (set_state_lem id state retry_when p e h) (rw out),
          record {
            freed = (env.release_some p.sem s out).0;
            size_kept = (env.release_some p.sem s out).1;
            box_kept = refl;
            withdrawn = λ j. ground (arith, lookup-insert id j f p.pool_items);
          },
        )
  ]

  -- `RetryLater` and `Complete` of a known item with a unit out succeed: they take the item back and
  -- free the unit.
  pub retry_later-Returns :
      (id retry_when : ℕ) (p : Pool Sem Item) (e : PoolItem Item)
      → lookup id p.pool_items ≡ some e
      → 0 < env.units p.sem
      → (q : Pool Sem Item) × (retry_later env id retry_when p ≡ ok q) × Returns id p q
  unfolding retry_later
  retry_later-Returns id retry_when p e h u =
      set_and_release id in_retry_pool retry_when p e h refl u

  pub complete-Returns :
      (id : ℕ) (p : Pool Sem Item) (e : PoolItem Item)
      → lookup id p.pool_items ≡ some e
      → 0 < env.units p.sem
      → (q : Pool Sem Item) × (complete env id p ≡ ok q) × Returns id p q
  unfolding complete
  complete-Returns id p e h u = set_and_release id done 0 p e h refl u
