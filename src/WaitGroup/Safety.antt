-- ===== src/WaitGroup/Safety.antt =====
-- `WaitGroupChan` of utils/channels.go: when `chWait` is closed, and which steps panic.
use go_cedar.Base.{
  ℤ, pos, negsuc, ◌+ℤ◌, ℕ, zero, suc, ◌≡◌, Bool, false, ◌||◌, none, some, Bool-cases, inl, inr, ok,
  blocked, panic, get_elem?, arith, sym, ◌∙◌, List, [], ◌∷◌, Option, Outcome, ◌>>=◌, true, not,
  ◌&&◌, refl, ap,
}
use go_cedar.WaitGroup.{
  WaitGroupChan, new_wait_group_chan, close_wait, leave, reply, settle, receive, close, enter_add,
  add, skip_add, enter_done, finish, skip_done, wait, remove_at, Event, cancels, sees_ctx,
  sees_stop, closes, calls_done, finishes, skips_done, waits, calls_add, adds, skips_add, exec,
  Reply, accepted, already_finished, too_many_dones, answer, exchange,
}

-- `chWait` is closed exactly where the count has come to its end or the goroutine has returned.
pub record IsSound (wg : WaitGroupChan) : Type 0 where
  pub shut : wg.ch_wait ≡ (wg.done || wg.returned)

unfoldable pub is_panic : Outcome WaitGroupChan → Bool
is_panic panic = true
is_panic blocked = false
is_panic (ok wg) = false

unfoldable pub is_negative : ℤ → Bool
is_negative (pos n) = false
is_negative (negsuc n) = true

-- A number that the goroutine, still at work, refuses: the count has come to its end before, or
-- would be below 0 with it.
unfoldable pub is_refused : ℤ → WaitGroupChan → Bool
is_refused n wg = not wg.returned && (wg.done || is_negative (wg.i +ℤ n))

unfoldable pub is_refused_adding : Option ℤ → WaitGroupChan → Bool
is_refused_adding none wg = false
is_refused_adding (some n) wg = is_refused n wg

unfoldable pub is_refused_finishing : ℕ → WaitGroupChan → Bool
is_refused_finishing zero wg = false
is_refused_finishing (suc n) wg = is_refused (negsuc 0) wg

-- A second `Close`, an `Add` after `Wait`, and an `Add` or a `Done` whose number is refused.
unfoldable pub is_misuse : Event → WaitGroupChan → Bool
is_misuse closes wg = wg.ch_stop
is_misuse (calls_add n) wg = wg.wait_calls
is_misuse (adds k) wg = is_refused_adding (get_elem? wg.adding k) wg
is_misuse finishes wg = is_refused_finishing wg.finishing wg
is_misuse _ wg = false

settle-IsSound :
    (z : ℤ) (wg wg' : WaitGroupChan)
    → wg.done ≡ false
    → wg.returned ≡ false
    → IsSound wg
    → settle z wg ≡ ok wg'
    → IsSound wg'
unfolding settle close_wait reply
settle-IsSound (negsuc n) wg wg' d r v h = record { shut = ground (arith, v.shut) }
settle-IsSound (pos zero) wg wg' d r v h = record { shut = ground (arith, v.shut) }
settle-IsSound (pos (suc n)) wg wg' d r v h = record { shut = ground (arith, v.shut) }

settle-answer :
    (z : ℤ) (wg : WaitGroupChan)
    → wg.done ≡ false
    → wg.returned ≡ false
    → IsSound wg
    → is_panic (settle z wg >>= λ wg'. answer wg'.replies wg') ≡ is_negative z
unfolding settle close_wait reply answer is_panic is_negative
settle-answer (negsuc n) wg d r v = ground (arith, v.shut)
settle-answer (pos zero) wg d r v = ground (arith, v.shut)
settle-answer (pos (suc n)) wg d r v = ground (arith, v.shut)

receive-IsSound :
    (n : ℤ) (wg wg' : WaitGroupChan) → IsSound wg → receive n wg ≡ ok wg' → IsSound wg'
unfolding receive reply
receive-IsSound n wg wg' v h = elim (Bool-cases wg.returned) [
  | inl r ↦ absurd (ground (arith, r))
  | inr r ↦ elim (Bool-cases wg.done) [
    | inl d ↦ record { shut = ground (arith, v.shut) }
    | inr d ↦ settle-IsSound (wg.i +ℤ n) wg wg' d r v (ground (arith, r, d))
  ]
]

exchange-panic :
    (n : ℤ) (wg : WaitGroupChan) → IsSound wg → is_panic (exchange n wg) ≡ is_refused n wg
unfolding exchange receive reply answer is_panic is_refused
exchange-panic n wg v = elim (Bool-cases wg.returned) [
  | inl r ↦ ground (arith, r)
  | inr r ↦ elim (Bool-cases wg.done) [
    | inl d ↦ ground (arith, r, d)
    | inr d ↦ ground (arith, r, d, settle-answer (wg.i +ℤ n) wg d r v)
  ]
]

answer-ok : (rs : List Reply) (wg wg' : WaitGroupChan) → answer rs wg ≡ ok wg' → wg ≡ wg'
unfolding answer
answer-ok [] wg wg' h = cc
answer-ok (accepted ∷ rs) wg wg' h = cc
answer-ok (already_finished ∷ rs) wg wg' h = cc
answer-ok (too_many_dones ∷ rs) wg wg' h = cc

after_answer :
    (o : Outcome WaitGroupChan) (wg' : WaitGroupChan)
    → (o >>= λ wg. answer wg.replies wg) ≡ ok wg'
    → o ≡ ok wg'
after_answer (ok wg) wg' h = ap ok (answer-ok wg.replies wg wg' h)
after_answer blocked wg' h = cc
after_answer panic wg' h = cc

exchange-IsSound :
    (n : ℤ) (wg wg' : WaitGroupChan) → IsSound wg → exchange n wg ≡ ok wg' → IsSound wg'
unfolding exchange
exchange-IsSound n wg wg' v h = receive-IsSound n wg wg' v (after_answer (receive n wg) wg' h)

finish-IsSound : (n : ℕ) (wg wg' : WaitGroupChan) → IsSound wg → finish n wg ≡ ok wg' → IsSound wg'
unfolding finish
finish-IsSound zero wg wg' v h = cc
finish-IsSound (suc n) wg wg' v h =
    exchange-IsSound (negsuc 0) (record wg { finishing = n }) wg' (record { shut = v.shut }) h

finish-panic :
    (n : ℕ) (wg : WaitGroupChan) → IsSound wg → is_panic (finish n wg) ≡ is_refused_finishing n wg
unfolding finish is_refused_finishing is_panic is_refused
finish-panic zero wg v = refl
finish-panic (suc n) wg v =
    exchange-panic (negsuc 0) (record wg { finishing = n }) (record { shut = v.shut })

add_of :
    (k : ℕ) (wg : WaitGroupChan) (n : ℤ)
    → get_elem? wg.adding k ≡ some n
    → exchange n (record wg { adding = remove_at k wg.adding }) ≡ add k wg
unfolding add
add_of k wg n p = rw p

add-IsSound :
    (k : ℕ) (found : Option ℤ) (wg wg' : WaitGroupChan)
    → IsSound wg
    → get_elem? wg.adding k ≡ found
    → add k wg ≡ ok wg'
    → IsSound wg'
unfolding add
add-IsSound k none wg wg' v p h = absurd (ground (arith, p, h))
add-IsSound k (some n) wg wg' v p h =
    exchange-IsSound n (record wg { adding = remove_at k wg.adding }) wg' (record { shut = v.shut })
      (add_of k wg n p ∙ h)

add-panic :
    (k : ℕ) (found : Option ℤ) (wg : WaitGroupChan)
    → IsSound wg
    → get_elem? wg.adding k ≡ found
    → is_panic (add k wg) ≡ is_refused_adding (get_elem? wg.adding k) wg
unfolding add is_refused_adding is_panic is_refused
add-panic k none wg v p = rw p
add-panic k (some n) wg v p =
    ap is_panic (sym (add_of k wg n p))
    ∙ exchange-panic n (record wg { adding = remove_at k wg.adding }) (record { shut = v.shut })
    ∙ ap (λ o. is_refused_adding o wg) (sym p)

-- Every step keeps it.
pub exec-IsSound :
    (e : Event) (wg wg' : WaitGroupChan) → IsSound wg → exec e wg ≡ ok wg' → IsSound wg'
unfolding exec leave close close_wait enter_add skip_add enter_done skip_done wait
exec-IsSound cancels wg wg' v h = record { shut = ground (arith, v.shut) }
exec-IsSound sees_ctx wg wg' v h = record { shut = ground (arith, v.shut) }
exec-IsSound sees_stop wg wg' v h = record { shut = ground (arith, v.shut) }
exec-IsSound closes wg wg' v h = record { shut = ground (arith, v.shut) }
exec-IsSound (calls_add n) wg wg' v h = record { shut = ground (arith, v.shut) }
exec-IsSound (adds k) wg wg' v h = add-IsSound k (get_elem? wg.adding k) wg wg' v refl h
exec-IsSound (skips_add k) wg wg' v h = record { shut = ground (arith, v.shut) }
exec-IsSound calls_done wg wg' v h = record { shut = ground (arith, v.shut) }
exec-IsSound finishes wg wg' v h = finish-IsSound wg.finishing wg wg' v h
exec-IsSound skips_done wg wg' v h = record { shut = ground (arith, v.shut) }
exec-IsSound waits wg wg' v h = record { shut = ground (arith, v.shut) }

-- The moments that a new group can come to.
pub data Reach (canceled : Bool) : WaitGroupChan → Type 0 where
  begin : (wg : WaitGroupChan) → wg ≡ new_wait_group_chan canceled → Reach canceled wg
  next :
      (wg : WaitGroupChan) (e : Event) (wg' : WaitGroupChan)
      → Reach canceled wg
      → exec e wg ≡ ok wg'
      → Reach canceled wg'

pub Reach-IsSound : {canceled : Bool} {wg : WaitGroupChan} → Reach canceled wg → IsSound wg
unfolding new_wait_group_chan
Reach-IsSound (begin wg e) = record { shut = ground arith }
Reach-IsSound (next wg e wg' r h) = exec-IsSound e wg wg' (Reach-IsSound r) h

exec-panic : (e : Event) (wg : WaitGroupChan) → IsSound wg → is_panic (exec e wg) ≡ is_misuse e wg
unfolding exec leave close close_wait enter_add skip_add enter_done skip_done wait is_panic
    is_misuse
exec-panic (adds k) wg v = add-panic k (get_elem? wg.adding k) wg v refl
exec-panic finishes wg v = finish-panic wg.finishing wg v
exec-panic cancels wg v = refl
exec-panic sees_ctx wg v = ground (arith, v.shut)
exec-panic sees_stop wg v = ground (arith, v.shut)
exec-panic closes wg v = ground arith
exec-panic (calls_add n) wg v = ground arith
exec-panic (skips_add k) wg v = ground arith
exec-panic calls_done wg v = refl
exec-panic skips_done wg v = ground arith
exec-panic waits wg v = refl

-- At every moment that a new group can come to, `chWait` is closed exactly when the goroutine's
-- `done` is set or it has returned; and a step panics exactly when it is a second `Close`, an `Add`
-- after `Wait`, or an `Add` or a `Done` heard by the goroutine after the count has come to its end or
-- that would bring the count below 0. So no step closes `chWait` a second time.
pub wait_closed_once :
    (canceled : Bool) (wg : WaitGroupChan) (e : Event)
    → Reach canceled wg
    → (wg.ch_wait ≡ (wg.done || wg.returned)) × (is_panic (exec e wg) ≡ is_misuse e wg)
wait_closed_once canceled wg e r = let v = Reach-IsSound r in (v.shut, exec-panic e wg v)
