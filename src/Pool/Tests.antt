-- ===== src/Pool/Tests.antt =====
-- A pool of process/pool.go at a concrete history, over a semaphore that counts.
use go_cedar.Base.{
  ℕ, zero, suc, ◌+◌, ◌≤◌, ◌<◌, ◌≡◌, refl, ◌≢◌, ◌⊎◌, inl, true, [], ◌∷◌, Option, none, some, ltb,
  if◌then◌else◌, lookup, insert, take_out, ok, panic, arith, length, count,
}
use go_cedar.Mailbox.{new_mailbox, deliver, retrieve_all, reverse_in_place, reverse_loop, swap}
use go_cedar.Pool.Semaphore.{Semaphore, Setting}
use go_cedar.Pool.Ops.{
  available, new_pool, add, announce, force_retry, revive, set_state, retry_item, retry_items,
  retry_later, complete, release_unit, get_entry, is_offered,
}
use go_cedar.Pool.World.{
  World, waiting, woken, Event, adds, reads, completes, acquires, wakes, collects, looks,
  hands_over, start, enter_get, leave_get, hand_over, read_entry, wake, collect, look, stop,
  give_back, on_pool, exec,
}
use go_cedar.Pool.Effects.{queued}
use go_cedar.Pool.Invariant.{batch, Inv}
use go_cedar.Pool.Overflow.{IsLost, add_to_full-IsLost}
use go_cedar.Pool.Safety.{
  Reach, begin, next, pool_never_panics, held_once, concurrency_bounded, wake_up_pending,
}

abbrev counted_acquire : ℕ × ℕ → Option (ℕ × ℕ)
counted_acquire s = if ltb s.0 s.1 then some (suc s.0, s.1) else none

abbrev counted_release : ℕ × ℕ → Option (ℕ × ℕ)
counted_release s = elim s.0 [ zero ↦ none | suc n ↦ some (n, s.1) ]

pub counted_acquire-some :
    (s t : ℕ × ℕ) → counted_acquire s ≡ some t → (t.0 ≡ suc s.0) × (s.0 < s.1) × (t.1 ≡ s.1)
counted_acquire-some s t h = ground arith

pub counted_acquire-none : (s : ℕ × ℕ) → counted_acquire s ≡ none → s.1 ≤ s.0
counted_acquire-none s h = ground arith

pub counted_release-some :
    (s t : ℕ × ℕ) → counted_release s ≡ some t → (s.0 ≡ suc t.0) × (t.1 ≡ s.1)
counted_release-some s t h = ground arith

pub counted_release-none : (s : ℕ × ℕ) → counted_release s ≡ none → s.0 ≡ 0
counted_release-none s h = ground arith

abbrev counting : Semaphore
counting = record {
  Sem = ℕ × ℕ;
  new_weighted = λ n. (0, n);
  acquire = counted_acquire;
  release = counted_release;
  units = λ s. s.0;
  size = λ s. s.1;
  new_weighted_lem = λ n. (refl, refl);
  acquire_some = counted_acquire-some;
  acquire_none = counted_acquire-none;
  release_some = counted_release-some;
  release_none = counted_release-none;
}

-- Items that are their own identifiers.
abbrev pub plain : Setting
plain = record { semaphore = counting; Item = ℕ; item_id = λ n. n }

-- The world after an event that can happen, and the same world after any other.
after : Event ℕ → World (ℕ × ℕ) ℕ → World (ℕ × ℕ) ℕ
unfolding exec on_pool add announce deliver force_retry revive set_state retry_item retry_items
    retry_later complete release_unit get_entry is_offered enter_get leave_get hand_over read_entry
    wake collect look stop give_back retrieve_all reverse_in_place reverse_loop swap lookup insert
    take_out
after e w = elim (exec plain e w) [ ok w' ↦ w' | _ ↦ w ]

fresh_pool : World (ℕ × ℕ) ℕ
unfolding start new_pool new_mailbox
fresh_pool = start plain 2 100

-- Item 7 is added.
added : World (ℕ × ℕ) ℕ
unfolding after fresh_pool
added = after (adds 7) fresh_pool

-- It comes into the hands of the deliverer.
offered : World (ℕ × ℕ) ℕ
unfolding after added
offered = after looks (after collects (after wakes added))

-- A client holds it.
busy_pool : World (ℕ × ℕ) ℕ
unfolding after offered
busy_pool = after (reads 7) (after hands_over (after acquires offered))

busy_pool_holds : busy_pool.held ≡ 7 ∷ []
unfolding busy_pool
busy_pool_holds = refl

fresh-Reach : Reach plain 2 100 fresh_pool
unfolding fresh_pool
fresh-Reach = begin _ refl

added-Reach : Reach plain 2 100 added
unfolding added
added-Reach = next fresh_pool (adds 7) _ fresh-Reach tt refl

offered-Reach : Reach plain 2 100 offered
unfolding offered
offered-Reach =
    next (after collects (after wakes added)) looks _
      (next (after wakes added) collects _ (next added wakes _ added-Reach tt refl) tt refl) tt refl

busy-Reach : Reach plain 2 100 busy_pool
unfolding busy_pool
busy-Reach =
    next (after hands_over (after acquires offered)) (reads 7) _
      (next (after acquires offered) hands_over _ (next offered acquires _ offered-Reach tt refl) tt
        refl)
      tt refl

pool_never_panics_example : exec plain (completes 7) busy_pool ≢ panic
unfolding busy_pool
pool_never_panics_example =
    pool_never_panics plain 2 100 busy_pool (completes 7) busy-Reach (omega arith)

held_once_example :
    (count 7 busy_pool.held ≡ 1)
    × (queued 7 busy_pool.pool + count 7 (batch busy_pool.deliverer) + count 7 busy_pool.received
        ≡ 0)
    × (lookup 7 busy_pool.pool.pool_items ≢ none)
unfolding busy_pool
held_once_example = held_once plain 2 100 busy_pool 7 busy-Reach (omega arith)

concurrency_bounded_example :
    busy_pool.selecting + length busy_pool.received + length busy_pool.held ≤ 2
concurrency_bounded_example = concurrency_bounded plain 2 100 busy_pool busy-Reach

wake_up_pending_example : (added.pool.items_available.notified ≡ true) ⊎ (added.deliverer ≡ woken)
unfolding added
wake_up_pending_example = wake_up_pending plain 2 100 added added-Reach (omega arith)

-- A pool with a mailbox of one place, which the announcement of item 7 fills.
abbrev full_box : World (ℕ × ℕ) ℕ
full_box = record {
  pool = record {
    items_available = record { notified = true; queue = 7 ∷ []; capacity = 1 };
    sem = (0, 2);
    retry_interval = 100;
    pool_items = (7, record { item = 7; state = available; retry_when = 0 }) ∷ [];
  };
  deliverer = waiting;
  selecting = 0;
  received = [];
  held = [];
}

full_box-Inv : Inv plain 2 full_box
unfolding lookup
full_box-Inv = record {
  once = λ id. ground arith;
  leased = refl;
  within = omega arith;
  sized = refl;
  roused = λ h. inl refl;
}

IsLost-box : IsLost 7 (record full_box { pool = add plain 8 full_box.pool })
unfolding lookup
IsLost-box = add_to_full-IsLost plain 2 full_box 8 [] 7 full_box-Inv refl refl refl
