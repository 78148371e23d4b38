-- ===== src/Mailbox/Fifo.antt =====
-- utils/mailbox.go seen as a first-in first-out queue that forgets its oldest item when full.
use mathlib.Core.List.{reverse-append, reverse-cons}
use go_cedar.Base.{
  ℕ, suc, ◌-◌, ◌≡◌, refl, sym, ap, ◌∙◌, List, [], ◌∷◌, ◌++◌, reverse, arith, Option, none, some,
  length, drop, length-append, length-reverse, take-append, get_elem?, get_elem?-append, snoc-cases,
  ltb, ◌&&◌, Bool, true, if◌then◌else◌, subst,
}
use go_cedar.Mailbox.{Mailbox, deliver, drop_last, retrieve, retrieve_all, clear}
use go_cedar.Mailbox.Reversal.{reverse_in_place-eq-reverse}

module _ {ℓ} {A : Type ℓ} where
  -- Oldest first.
  abbrev pub contents : Mailbox A → List A
  contents m = reverse m.queue

  -- What the queue promises: an item goes to the end, and a full queue loses its head.
  abbrev pub enqueue : ℕ → A → List A → List A
  enqueue capacity x xs =
      if ltb 0 capacity && ltb capacity (suc (length xs))
      then drop 1 (xs ++ x ∷ [])
      else xs ++ x ∷ []

  abbrev pub dequeue : List A → List A × Option A
  dequeue [] = ([], none)
  dequeue (x ∷ xs) = (xs, some x)

  drop_last-snoc : (xs : List A) (x : A) → drop_last (xs ++ x ∷ []) ≡ xs
  drop_last-snoc xs x =
      let e : length (xs ++ x ∷ []) - 1 ≡ length xs = omega (arith, length-append xs (x ∷ [])) in
      rw e (take-append xs (x ∷ []))

  reverse-drop_last : (q : List A) → reverse (drop_last q) ≡ drop 1 (reverse q)
  reverse-drop_last [] = refl
  reverse-drop_last (x ∷ q) =
      let (m, z, e) = snoc-cases x q in
      subst (λ l. reverse (drop_last l) ≡ drop 1 (reverse l)) (sym e)
        (ap reverse (drop_last-snoc m z) ∙ ap (drop 1) (sym (reverse-append m (z ∷ []))))

  -- An item that is delivered goes to the end, and the head is lost exactly when the box was full;
  -- the box is left with a pending wake-up.
  pub contents-deliver :
      (x : A) (m : Mailbox A)
      → (contents (deliver x m) ≡ enqueue m.capacity x (contents m))
        × ((deliver x m).notified ≡ true)
  unfolding deliver
  contents-deliver x m =
      ground
        (arith, reverse-cons x m.queue, reverse-drop_last (x ∷ m.queue), length-reverse m.queue)

  get_last-snoc :
      (xs : List A) (x : A) → get_elem? (xs ++ x ∷ []) (length (xs ++ x ∷ []) - 1) ≡ some x
  get_last-snoc xs x =
      let e : length (xs ++ x ∷ []) - 1 ≡ length xs = omega (arith, length-append xs (x ∷ [])) in
      rw e (get_elem?-append xs [] x)

  dequeue-reverse :
      (x : A) (q : List A)
      → (reverse (drop_last (x ∷ q)), get_elem? (x ∷ q) (length (x ∷ q) - 1))
        ≡ dequeue (reverse (x ∷ q))
  dequeue-reverse x q =
      let (m, z, e) = snoc-cases x q in
      subst (λ l. (reverse (drop_last l), get_elem? l (length l - 1)) ≡ dequeue (reverse l)) (sym e)
        (rw (drop_last-snoc m z, get_last-snoc m z, reverse-append m (z ∷ [])) refl)

  retrieve_at :
      (n : Bool) (q : List A) (c : ℕ)
      → let m : Mailbox A = record { notified = n; queue = q; capacity = c } in
        (contents (retrieve m).0, (retrieve m).1) ≡ dequeue (contents m)
  unfolding retrieve
  retrieve_at n [] c = refl
  retrieve_at n (x ∷ q) c = ground (arith, dequeue-reverse x q)

  -- `Retrieve` takes the oldest item, and reports nil on the empty box only.
  pub contents-retrieve :
      (m : Mailbox A) → (contents (retrieve m).0, (retrieve m).1) ≡ dequeue (contents m)
  contents-retrieve m = retrieve_at m.notified m.queue m.capacity

  pub contents-retrieve_all :
      (m : Mailbox A) → (contents (retrieve_all m).0 ≡ []) × ((retrieve_all m).1 ≡ contents m)
  unfolding retrieve_all
  contents-retrieve_all m = (refl, reverse_in_place-eq-reverse m.queue)

-- The calls of a mailbox, with what each reports.
pub data Call {ℓ} (A : Type ℓ) : Type ℓ where
  deliver_call : A → Call A
  retrieve_call retrieve_all_call clear_call : Call A

module _ {ℓ} {A : Type ℓ} where
  unfoldable pub call : Call A → Mailbox A → Mailbox A × List A
  call (deliver_call x) m = (deliver x m, [])
  call retrieve_call m = let (m', r) = retrieve m in (m', elim r [ none ↦ [] | some x ↦ x ∷ [] ])
  call retrieve_all_call m = retrieve_all m
  call clear_call m = (clear m, [])

  -- The same calls on the queue that a box stands for.
  abbrev pub call_queue : ℕ → Call A → List A → List A × List A
  call_queue c (deliver_call x) xs = (enqueue c x xs, [])
  call_queue c retrieve_call xs =
      let (ys, r) = dequeue xs in (ys, elim r [ none ↦ [] | some x ↦ x ∷ [] ])
  call_queue c retrieve_all_call xs = ([], xs)
  call_queue c clear_call xs = ([], [])

  -- All that a history of calls reports.
  unfoldable pub calls : List (Call A) → Mailbox A → List A
  calls [] m = []
  calls (o ∷ os) m = let (m', r) = call o m in r ++ calls os m'

  unfoldable pub calls_queue : ℕ → List (Call A) → List A → List A
  calls_queue c [] xs = []
  calls_queue c (o ∷ os) xs = let (ys, r) = call_queue c o xs in r ++ calls_queue c os ys

  call-queue :
      (o : Call A) (m : Mailbox A)
      → let (m', r) = call o m in (contents m', r) ≡ call_queue m.capacity o (contents m)
  unfolding call retrieve_all
  call-queue (deliver_call x) m = ap (λ xs. (xs, [])) (contents-deliver x m).0
  call-queue retrieve_call m =
      ap (λ (p : List A × Option A). (p.0, elim p.1 [ none ↦ [] | some x ↦ x ∷ [] ]))
        (contents-retrieve m)
  call-queue retrieve_all_call m = ap (λ xs. ([], xs)) (reverse_in_place-eq-reverse m.queue)
  call-queue clear_call m = unfold clear in refl

  call-capacity : (o : Call A) (m : Mailbox A) → (call o m).0.capacity ≡ m.capacity
  unfolding call deliver retrieve retrieve_all clear
  call-capacity (deliver_call x) m = refl
  call-capacity retrieve_call m = ground arith
  call-capacity retrieve_all_call m = refl
  call-capacity clear_call m = refl

  -- Every history of calls reports what the bounded queue reports.
  pub calls-queue :
      (os : List (Call A)) (m : Mailbox A) → calls os m ≡ calls_queue m.capacity os (contents m)
  unfolding calls calls_queue
  calls-queue [] m = refl
  calls-queue (o ∷ os) m =
      ap (◌++◌ (call o m).1) (
        calls-queue os (call o m).0
        ∙ ap (λ c. calls_queue c os (contents (call o m).0)) (call-capacity o m))
      ∙ ap (λ (p : List A × List A). p.1 ++ calls_queue m.capacity os p.0) (call-queue o m)
