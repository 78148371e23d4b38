-- ===== src/Pool/Kept.antt =====
-- While the mailbox has room, process/pool.go loses no item.
use go_cedar.Base.{
  ℕ, ◌+◌, ◌≤◌, ◌≡◌, refl, ◌⊎◌, inl, inr, [], ◌∷◌, false, lookup, lookup-insert, Outcome, ok, arith,
  subst, count, length, take_out, count-take_out, count-reverse, Option-cases, Outcome-cases, ◌>>=◌,
  ap,
}
use go_cedar.Mailbox.{retrieve_all}
use go_cedar.Mailbox.Reversal.{reverse_in_place-eq-reverse}
use go_cedar.Pool.Semaphore.{Setting}
use go_cedar.Pool.Ops.{
  Pool, ItemState, in_retry_pool, done, is_available, add, retry_later, complete, set_state,
  release_unit, get_entry, is_offered,
}
use go_cedar.Pool.World.{
  World, Deliverer, waiting, woken, stopped, delivering, offering, Event, adds, forces, reads,
  completes, retries, ticks, acquires, cancels, wakes, collects, looks, hands_over, stops,
  enter_get, leave_get, hand_over, read_entry, wake, collect, look, give_back, on_pool, exec, start,
}
use go_cedar.Pool.Effects.{available_at}
use go_cedar.Pool.Invariant.{batch, tally}
use go_cedar.Pool.Room.{Keeps, HasRoom, add-Keeps, force_retry-Keeps, retry_items-Keeps}

-- The step from the first world to the second adds to an identifier's tally at least what it adds to
-- its availability.
abbrev Kept : {Sem Item : Type 0} → ℕ → World Sem Item → World Sem Item → Type 0
Kept id w w' = tally id w + available_at id w'.pool ≤ tally id w' + available_at id w.pool

-- The mailbox has room for what a step announces, and the deliverer does not end.
abbrev pub GoesOn : {Sem Item : Type 0} → Event Item → World Sem Item → Type 0
GoesOn (adds item) w = HasRoom 1 w.pool
GoesOn (forces id) w = HasRoom 1 w.pool
GoesOn (ticks now order) w = HasRoom (length order) w.pool
GoesOn stops w = ⊥
GoesOn (reads _) w = Unit
GoesOn (completes _) w = Unit
GoesOn (retries _ _) w = Unit
GoesOn acquires w = Unit
GoesOn cancels w = Unit
GoesOn wakes w = Unit
GoesOn collects w = Unit
GoesOn looks w = Unit
GoesOn hands_over w = Unit

module _ (env : Setting) where
  open env use {Sem, Item, acquire, release}

  on_pool-Kept :
      (w w' : World Sem Item) (r : Outcome (Pool Sem Item)) (id : ℕ)
      → ((q : Pool Sem Item) → r ≡ ok q → Keeps w.pool q)
      → on_pool env r w ≡ ok w'
      → Kept id w w'
  unfolding on_pool
  on_pool-Kept w w' r id k h = elim (Outcome-cases r) [
    | inl u ↦ absurd (ground (arith, u))
    | inr (inl u) ↦ absurd (ground (arith, u))
    | inr (inr (q, u)) ↦ ground (arith, u, k q u id)
  ]

  give_back-Kept :
      (w w' : World Sem Item) (x state_time : ℕ) (state : ItemState) (id : ℕ)
      → is_available state ≡ false
      → tally id w ≡ available_at id w.pool
      → give_back env x (set_state env x state state_time w.pool >>= release_unit env) w ≡ ok w'
      → Kept id w w'
  unfolding give_back set_state release_unit
  give_back-Kept w w' x t state id n v h = elim (Option-cases (take_out x w.held)) [
    | inl e ↦ ground (arith, e)
    | inr (rest, e) ↦ elim (Option-cases (lookup x w.pool.pool_items)) [
      | inl u ↦ ground (arith, e, u)
      | inr (entry, s) ↦ ground (
        arith,
        e,
        s,
        count-take_out x id w.held e,
        lookup-insert x id (record entry { state = state; retry_when = t }) w.pool.pool_items,
      )
    ]
  ]

  deliverer-Kept :
      (w w' : World Sem Item) (d : Deliverer) (id : ℕ)
      → w.deliverer ≡ d
      → tally id w ≡ available_at id w.pool
      → (hand_over env d w ≡ ok w') ⊎ (wake env d w ≡ ok w') ⊎ (look env d w ≡ ok w')
      → Kept id w w'
  unfolding hand_over wake look is_offered
  deliverer-Kept w w' waiting id e v h = ground (arith, ap (λ d. count id (batch d)) e)
  deliverer-Kept w w' woken id e v h = ground (arith, ap (λ d. count id (batch d)) e)
  deliverer-Kept w w' stopped id e v h = ground (arith, ap (λ d. count id (batch d)) e)
  deliverer-Kept w w' (offering x ids) id e v h = ground (arith, ap (λ d. count id (batch d)) e)
  deliverer-Kept w w' (delivering []) id e v h = ground (arith, ap (λ d. count id (batch d)) e)
  deliverer-Kept w w' (delivering (x ∷ ids)) id e v h =
      elim (Option-cases (lookup x w.pool.pool_items)) [
        | inl u ↦ ground (arith, ap (λ d. count id (batch d)) e, u)
        | inr (entry, u) ↦ ground (arith, ap (λ d. count id (batch d)) e, u)
      ]

  collect-Kept :
      (w w' : World Sem Item) (d : Deliverer) (id : ℕ)
      → w.deliverer ≡ d
      → collect env d w ≡ ok w'
      → Kept id w w'
  unfolding collect retrieve_all
  collect-Kept w w' woken id e h =
      let queue = w.pool.items_available.queue in
      ground (
        arith,
        ap (λ d. count id (batch d)) e,
        ap (count id) (reverse_in_place-eq-reverse queue),
        count-reverse id queue,
      )
  collect-Kept w w' waiting id e h = cc
  collect-Kept w w' stopped id e h = cc
  collect-Kept w w' (delivering ids) id e h = cc
  collect-Kept w w' (offering x ids) id e h = cc

  clients-Kept :
      (w w' : World Sem Item) (x : ℕ) (id : ℕ)
      → (enter_get env w ≡ ok w') ⊎ (leave_get env w ≡ ok w')
      → Kept id w w'
  unfolding enter_get leave_get release_unit
  clients-Kept w w' x id h = ground arith

  read_entry-Kept :
      (w w' : World Sem Item) (x : ℕ) (id : ℕ) → read_entry env x w ≡ ok w' → Kept id w w'
  unfolding read_entry get_entry
  read_entry-Kept w w' x id h = elim (Option-cases (take_out x w.received)) [
    | inl e ↦ ground (arith, e)
    | inr (rest, e) ↦ ground (arith, e, count-take_out x id w.received e)
  ]

  -- Such a step keeps an identifier whose tally is its availability.
  pub exec-Kept :
      (e : Event Item) (w w' : World Sem Item) (id : ℕ)
      → GoesOn e w
      → tally id w ≡ available_at id w.pool
      → exec env e w ≡ ok w'
      → Kept id w w'
  unfolding exec
  exec-Kept (adds item) w w' id g v h =
      on_pool-Kept w w' (ok (add env item w.pool)) id
        (λ q u.
          let p : add env item w.pool ≡ q = ground (arith, u) in
          subst (Keeps w.pool) p (add-Keeps env item w.pool g))
        h
  exec-Kept (forces x) w w' id g v h =
      on_pool-Kept w w' _ id (λ q u. force_retry-Keeps env x w.pool q g u) h
  exec-Kept (ticks now order) w w' id g v h =
      on_pool-Kept w w' _ id (λ q u. retry_items-Keeps env now order w.pool q g u) h
  exec-Kept (retries x t) w w' id g v h =
      give_back-Kept w w' x t in_retry_pool id refl v (unfold retry_later in h)
  exec-Kept (completes x) w w' id g v h =
      give_back-Kept w w' x 0 done id refl v (unfold complete in h)
  exec-Kept (reads x) w w' id g v h = read_entry-Kept w w' x id h
  exec-Kept acquires w w' id g v h = clients-Kept w w' 0 id (inl h)
  exec-Kept cancels w w' id g v h = clients-Kept w w' 0 id (inr h)
  exec-Kept wakes w w' id g v h = deliverer-Kept w w' w.deliverer id refl v (inr (inl h))
  exec-Kept collects w w' id g v h = collect-Kept w w' w.deliverer id refl h
  exec-Kept looks w w' id g v h = deliverer-Kept w w' w.deliverer id refl v (inr (inr h))
  exec-Kept hands_over w w' id g v h = deliverer-Kept w w' w.deliverer id refl v (inl h)
  exec-Kept stops w w' id g v h = absurd g

  -- The moments of a new pool whose mailbox always has room and whose deliverer goes on.
  pub data RoomyReach (c i : ℕ) : World Sem Item → Type 0 where
    begin : (w : World Sem Item) → w ≡ start env c i → RoomyReach c i w
    next :
        (w : World Sem Item) (e : Event Item) (w' : World Sem Item)
        → RoomyReach c i w
        → GoesOn e w
        → exec env e w ≡ ok w'
        → RoomyReach c i w'
