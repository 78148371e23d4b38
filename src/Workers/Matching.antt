-- ===== src/Workers/Matching.antt =====
-- The phases of the workers of process/pool_worker.go match the pool's account of its clients.
use go_cedar.Base.{
  ℕ, zero, suc, ◌+◌, ◌≤◌, ◌≡◌, refl, ◌≢◌, inl, inr, List, [], ◌∷◌, some, Option-cases, lookup,
  Outcome, ok, arith, get_elem?, set, count, one_if, take_out, count-take_out, ap, sym,
}
use go_cedar.Pool.Semaphore.{Setting}
use go_cedar.Pool.Ops.{Pool, new_pool, release_unit}
use go_cedar.Pool.World.{
  World, Event, reads, acquires, cancels, hands_over, start, enter_get, leave_get, hand_over,
  read_entry, wake, collect, look, stop, give_back, on_pool, exec,
}
use go_cedar.Workers.{
  Crew, Phase, checking, getting, selecting, returned, received, working, replicate, start_crew,
  sent, Ambient, adding, forcing, ticking, waking, collecting, looking, stopping,
}
use go_cedar.Workers.Named.{IsNamed}

-- A sum over the workers.
abbrev pub total : {A : Type 0} → (A → ℕ) → List A → ℕ
total f [] = 0
total f (x ∷ xs) = f x + total f xs

pub total-set :
    {A : Type 0} (f : A → ℕ) (xs : List A) (k : ℕ) (x y : A)
    → get_elem? xs k ≡ some x
    → total f (set xs k y) + f x ≡ total f xs + f y
total-set f [] k x y h = cc
total-set f (z ∷ xs) zero x y h = ground (arith, h)
total-set f (z ∷ xs) (suc k) x y h = omega (arith, total-set f xs k x y h)

pub total-le :
    {A : Type 0} (f : A → ℕ) (xs : List A) (k : ℕ) (x : A)
    → get_elem? xs k ≡ some x
    → f x ≤ total f xs
total-le f [] k x h = cc
total-le f (z ∷ xs) zero x h = ground (arith, h)
total-le f (z ∷ xs) (suc k) x h = omega (arith, total-le f xs k x h)

pub total-two :
    {A : Type 0} (f : A → ℕ) (xs : List A) (j k : ℕ) (x y : A)
    → get_elem? xs j ≡ some x
    → get_elem? xs k ≡ some y
    → j ≢ k
    → f x + f y ≤ total f xs
total-two f [] j k x y g h n = cc
total-two f (z ∷ xs) zero zero x y g h n = absurd (n refl)
total-two f (z ∷ xs) zero (suc k) x y g h n = ground (arith, total-le f xs k y h)
total-two f (z ∷ xs) (suc j) zero x y g h n = ground (arith, total-le f xs j x g)
total-two f (z ∷ xs) (suc j) (suc k) x y g h n =
    omega (arith, total-two f xs j k x y g h (λ e. n (ap suc e)))

total-replicate : {A : Type 0} (f : A → ℕ) (n : ℕ) (a : A) → f a ≡ 0 → total f (replicate n a) ≡ 0
total-replicate f zero a h = refl
total-replicate f (suc n) a h = omega (arith, total-replicate f n a h)

-- What a worker counts for: in `Get`, with an identifier, with an item.
abbrev pub in_get : {Item : Type 0} → Phase Item → ℕ
in_get selecting = 1
in_get checking = 0
in_get getting = 0
in_get returned = 0
in_get (received _) = 0
in_get (working _) = 0

abbrev pub has_id : {Item : Type 0} → ℕ → Phase Item → ℕ
has_id id (received j) = one_if j id
has_id id checking = 0
has_id id getting = 0
has_id id selecting = 0
has_id id returned = 0
has_id id (working _) = 0

module _ (env : Setting) where
  open env use {Sem, Item, item_id}

  abbrev pub works_on : ℕ → Phase Item → ℕ
  works_on id (working item) = one_if (item_id item) id
  works_on id checking = 0
  works_on id getting = 0
  works_on id selecting = 0
  works_on id returned = 0
  works_on id (received _) = 0

  pub record Matches (s : Crew Sem Item) : Type 0 where
    pub clients : s.world.selecting ≡ total in_get s.workers
    pub ids : (id : ℕ) → count id s.world.received ≡ total (has_id id) s.workers
    pub items : (id : ℕ) → count id s.world.held ≡ total (works_on id) s.workers
    pub named : IsNamed env s.world.pool

  pub start-Matches : (c i : ℕ) → Matches (start_crew env c i)
  unfolding start_crew start
  start-Matches c i = record {
    clients = sym (total-replicate in_get c checking refl);
    ids = λ id. sym (total-replicate (has_id id) c checking refl);
    items = λ id. sym (total-replicate (works_on id) c checking refl);
    named = λ id e h. unfold new_pool lookup in cc (h);
  }

  -- How a step changes the account: one client by one phase.
  pub record Shifts (w w' : World Sem Item) (x y : Phase Item) : Type 0 where
    pub clients : w'.selecting + in_get x ≡ w.selecting + in_get y
    pub ids : (id : ℕ) → count id w'.received + has_id id x ≡ count id w.received + has_id id y
    pub items : (id : ℕ) → count id w'.held + works_on id x ≡ count id w.held + works_on id y

  pub place-Matches :
      (s : Crew Sem Item) (k : ℕ) (x y : Phase Item) (w : World Sem Item)
      → Matches s
      → get_elem? s.workers k ≡ some x
      → Shifts s.world w x y
      → IsNamed env w.pool
      → Matches (record { world = w; workers = set s.workers k y })
  place-Matches s k x y w m g t n = record {
    clients = omega (arith, m.clients, t.clients, total-set in_get s.workers k x y g);
    ids = λ id. omega (arith, m.ids id, t.ids id, total-set (has_id id) s.workers k x y g);
    items = λ id. omega (arith, m.items id, t.items id, total-set (works_on id) s.workers k x y g);
    named = n;
  }

  pub acquires-Shifts :
      (w w' : World Sem Item) → exec env acquires w ≡ ok w' → Shifts w w' getting selecting
  unfolding exec enter_get
  acquires-Shifts w w' h = ground arith

  pub cancels-Shifts :
      (w w' : World Sem Item) → exec env cancels w ≡ ok w' → Shifts w w' selecting returned
  unfolding exec leave_get release_unit
  cancels-Shifts w w' h = ground arith

  pub hands_over-Shifts :
      (w w' : World Sem Item) (id : ℕ)
      → sent env w.deliverer ≡ ok id
      → exec env hands_over w ≡ ok w'
      → Shifts w w' selecting (received id)
  unfolding exec hand_over
  hands_over-Shifts w w' id e h = ground arith

  pub reads-Shifts :
      (w w' : World Sem Item) (id : ℕ) (item : Item)
      → item_id item ≡ id
      → exec env (reads id) w ≡ ok w'
      → Shifts w w' (received id) (working item)
  unfolding exec read_entry
  reads-Shifts w w' id item e h = elim (Option-cases (take_out id w.received)) [
    | inl x ↦ ground (arith, x)
    | inr (rest, x) ↦ record {
      clients = ground (arith, x);
      ids = λ j. ground (arith, x, count-take_out id j w.received x);
      items = λ j. ground (arith, x);
    }
  ]

  pub give_back-Shifts :
      (w w' : World Sem Item) (item : Item) (r : Outcome (Pool Sem Item))
      → give_back env (item_id item) r w ≡ ok w'
      → Shifts w w' (working item) checking
  unfolding give_back
  give_back-Shifts w w' item r h = elim (Option-cases (take_out (item_id item) w.held)) [
    | inl x ↦ ground (arith, x)
    | inr (rest, x) ↦ record {
      clients = ground (arith, x);
      ids = λ j. ground (arith, x);
      items = λ j. ground (arith, x, count-take_out (item_id item) j w.held x);
    }
  ]

  -- The pool and its other clients touch no worker.
  pub Ambient-kept :
      (w w' : World Sem Item) (e : Event Item)
      → Ambient env e
      → exec env e w ≡ ok w'
      → (w'.selecting ≡ w.selecting) × (w'.received ≡ w.received) × (w'.held ≡ w.held)
  unfolding exec on_pool wake collect look stop
  Ambient-kept w w' _ (adding item) h = ground arith
  Ambient-kept w w' _ (forcing id) h = ground arith
  Ambient-kept w w' _ (ticking now order) h = ground arith
  Ambient-kept w w' _ waking h = ground arith
  Ambient-kept w w' _ collecting h = ground arith
  Ambient-kept w w' _ looking h = ground arith
  Ambient-kept w w' _ stopping h = ground arith
