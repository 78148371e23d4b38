-- ===== src/WaitGroup/Count.antt =====
-- `WaitGroupChan` of utils/channels.go counts: when the goroutine has heard numbers from its clients,
-- `chWait` is closed at a count of zero and not before.
use go_cedar.Base.{
  ℤ, pos, negsuc, ◌+ℤ◌, zero, suc, ◌≡◌, refl, List, [], ◌∷◌, Bool, true, false, ◌&&◌, Outcome, ok,
  ◌>>=◌, arith, ◌∙◌, ap,
}
use go_cedar.WaitGroup.{
  WaitGroupChan, accepted, already_finished, close_wait, reply, settle, receive,
}

-- The goroutine hears the numbers one after another.
unfoldable pub receive_all : List ℤ → WaitGroupChan → Outcome WaitGroupChan
receive_all [] wg = ok wg
receive_all (n ∷ ns) wg = receive n wg >>= receive_all ns

abbrev pub is_positive : ℤ → Bool
is_positive (pos (suc n)) = true
is_positive (pos zero) = false
is_positive (negsuc n) = false

-- The sum of a count and the numbers, and whether every partial sum is positive.
abbrev pub sum_from : ℤ → List ℤ → ℤ
sum_from z [] = z
sum_from z (n ∷ ns) = sum_from (z +ℤ n) ns

abbrev pub stays_positive : ℤ → List ℤ → Bool
stays_positive z [] = true
stays_positive z (n ∷ ns) = is_positive (z +ℤ n) && stays_positive (z +ℤ n) ns

-- The goroutine counts, and has not closed `chWait`.
pub record IsCounting (z : ℤ) (wg : WaitGroupChan) : Type 0 where
  pub count : wg.i ≡ z
  pub unfinished : wg.done ≡ false
  pub at_work : wg.returned ≡ false
  pub open_wait : wg.ch_wait ≡ false

settle_positive :
    (z : ℤ) (wg : WaitGroupChan)
    → is_positive z ≡ true
    → settle z wg ≡ ok (reply accepted (record wg { i = z }))
unfolding settle
settle_positive (pos (suc n)) wg h = refl
settle_positive (pos zero) wg h = cc
settle_positive (negsuc n) wg h = cc

receive_settles :
    (z n : ℤ) (wg : WaitGroupChan) → IsCounting z wg → receive n wg ≡ settle (z +ℤ n) wg
unfolding receive
receive_settles z n wg v =
    ground (arith, v.unfinished, v.at_work) ∙ ap (λ y. settle (y +ℤ n) wg) v.count

-- While the goroutine counts and every partial sum is positive, it takes each number, its count is
-- their sum, and `chWait` stays open.
open_while_positive :
    (ns : List ℤ) (z : ℤ) (wg : WaitGroupChan)
    → IsCounting z wg
    → stays_positive z ns ≡ true
    → (u : WaitGroupChan) × (receive_all ns wg ≡ ok u) × IsCounting (sum_from z ns) u
unfolding receive_all
open_while_positive [] z wg v h = (wg, refl, v)
open_while_positive (n ∷ ns) z wg v h =
    let e : receive n wg ≡ ok (reply accepted (record wg { i = z +ℤ n })) =
      receive_settles z n wg v ∙ settle_positive (z +ℤ n) wg (ground arith) in
    let next : IsCounting (z +ℤ n) (reply accepted (record wg { i = z +ℤ n })) =
      unfold reply in
      record {
        count = refl;
        unfinished = v.unfinished;
        at_work = v.at_work;
        open_wait = v.open_wait;
      } in
    let (u, f, k) = open_while_positive ns (z +ℤ n) _ next (ground arith) in
    (u, ap (λ o. o >>= receive_all ns) e ∙ f, k)

-- While the goroutine counts, the number that brings the count to zero closes `chWait` and sets
-- `done`; and
-- whatever number is heard next is refused, after which the goroutine has returned.
closed_at_zero :
    (n m z : ℤ) (wg : WaitGroupChan)
    → IsCounting z wg
    → z +ℤ n ≡ pos 0
    → (u u' : WaitGroupChan) × (receive n wg ≡ ok u)
      × (u.ch_wait ≡ true)
      × (u.done ≡ true)
      × (receive m u ≡ ok u')
      × (u'.returned ≡ true)
unfolding receive settle close_wait reply
closed_at_zero n m z wg v h = (
  reply accepted (record wg { done = true; ch_wait = true; i = pos 0 }),
  reply already_finished
      (record (reply accepted (record wg { done = true; ch_wait = true; i = pos 0 })) {
        returned = true;
      }),
  receive_settles z n wg v ∙ ap (λ y. settle y wg) h ∙ ground (arith, v.open_wait),
  refl,
  refl,
  ground (arith, v.at_work),
  refl,
)

-- From a state in which the goroutine counts: while every partial sum of the numbers it takes is
-- positive, `chWait` stays open; the number that then brings the sum to zero closes it and sets
-- `done`; and whatever number is heard next is refused, after which the goroutine has returned.
pub counts_to_zero :
    (ns : List ℤ) (n m z : ℤ) (wg : WaitGroupChan)
    → IsCounting z wg
    → stays_positive z ns ≡ true
    → sum_from z ns +ℤ n ≡ pos 0
    → (t u u' : WaitGroupChan) × (receive_all ns wg ≡ ok t)
      × (t.ch_wait ≡ false)
      × (receive n t ≡ ok u)
      × (u.ch_wait ≡ true)
      × (u.done ≡ true)
      × (receive m u ≡ ok u')
      × (u'.returned ≡ true)
counts_to_zero ns n m z wg v p h =
    let (t, e, w) = open_while_positive ns z wg v p in
    let (u, u', g, c, d, r, l) = closed_at_zero n m (sum_from z ns) t w h in
    (t, u, u', e, w.open_wait, g, c, d, r, l)
