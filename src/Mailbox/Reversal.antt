-- ===== src/Mailbox/Reversal.antt =====
-- The in-place reversal of `RetrieveAll` in utils/mailbox.go.
use mathlib.Core.List.{append-nil, append_assoc, reverse-append, reverse-cons}
use go_cedar.Base.{
  ℕ, zero, suc, ◌+◌, ◌-◌, ◌≤◌, ◌≡◌, refl, sym, ap, ◌∙◌, List, [], ◌∷◌, ◌++◌, reverse, arith, length,
  set, get_elem?, some, length-append, get_elem?-append, set-append, snoc-cases, subst, lt→ltb,
  le→ltb_false,
}
use go_cedar.Mailbox.{swap, reverse_loop, reverse_in_place}

module _ {ℓ} {A : Type ℓ} where
  swap-eq :
      (i j : ℕ) (q : List A) {a b : A}
      → get_elem? q i ≡ some a
      → get_elem? q j ≡ some b
      → swap i j q ≡ set (set q i b) j a
  unfolding swap
  swap-eq i j q e h = rw (e, h, swap)

  get_at : (xs ys : List A) (x : A) (j : ℕ) → j ≡ length xs → get_elem? (xs ++ x ∷ ys) j ≡ some x
  get_at xs ys x j e = rw e (get_elem?-append xs ys x)

  set_at :
      (xs ys : List A) (x v : A) (j : ℕ) → j ≡ length xs → set (xs ++ x ∷ ys) j v ≡ xs ++ v ∷ ys
  set_at xs ys x v j e = rw e (set-append xs ys x v)

  swap_ends :
      (pre m post : List A) (x y : A) (i j : ℕ)
      → i ≡ length pre
      → j ≡ i + suc (length m)
      → swap i j (pre ++ x ∷ (m ++ y ∷ post)) ≡ pre ++ y ∷ (m ++ x ∷ post)
  swap_ends pre m post x y i j hi hj =
      swap-eq i j _ (get_at pre _ x i hi) (rw (split x y) (get_at _ post y j (place x)))
      ∙ ap (λ q. set q j x) (set_at pre _ x y i hi ∙ split y y)
      ∙ set_at _ post y x j (place y)
      ∙ sym (split y x)
    where
      split : (v w : A) → pre ++ v ∷ (m ++ w ∷ post) ≡ (pre ++ v ∷ m) ++ w ∷ post
      split v w = sym (append_assoc pre (v ∷ m) (w ∷ post))

      place : (v : A) → j ≡ length (pre ++ v ∷ m)
      place v = omega (arith, length-append pre (v ∷ m))

  reverse_ends :
      (pre m post : List A) (x y : A)
      → (pre ++ y ∷ []) ++ (reverse m ++ x ∷ post) ≡ pre ++ (reverse (x ∷ (m ++ y ∷ [])) ++ post)
  reverse_ends pre m post x y = simp (reverse-append, reverse-cons, append_assoc)

  -- The loop reverses what stands between its two indices.
  reverse_loop-between :
      (fuel : ℕ) (pre mid post : List A) (i j : ℕ)
      → i ≡ length pre
      → suc j ≡ i + length mid
      → length mid ≤ fuel
      → reverse_loop fuel i j (pre ++ (mid ++ post)) ≡ pre ++ (reverse mid ++ post)
  unfolding reverse_loop
  reverse_loop-between zero pre [] post i j hi hj hf = refl
  reverse_loop-between zero pre (x ∷ mid) post i j hi hj hf = absurd (omega arith)
  reverse_loop-between (suc fuel) pre [] post i j hi hj hf = rw (le→ltb_false i j (omega arith))
  reverse_loop-between (suc fuel) pre (x ∷ []) post i j hi hj hf =
      rw (le→ltb_false i j (omega arith))
  reverse_loop-between (suc fuel) pre (x ∷ y ∷ mid) post i j hi hj hf =
      let (m, z, e) = snoc-cases y mid in
      let n : length (y ∷ mid) ≡ suc (length m) =
        ap length e ∙ omega (arith, length-append m (z ∷ [])) in
      let inner : reverse_loop fuel (i + 1) (j - 1) ((pre ++ z ∷ []) ++ (m ++ x ∷ post))
          ≡ (pre ++ z ∷ []) ++ (reverse m ++ x ∷ post) =
        reverse_loop-between fuel (pre ++ z ∷ []) m (x ∷ post) (i + 1) (j - 1)
          (omega (arith, length-append pre (z ∷ []))) (omega arith) (omega arith) in
      let step : reverse_loop (suc fuel) i j (pre ++ x ∷ ((m ++ z ∷ []) ++ post))
          ≡ pre ++ (reverse (x ∷ (m ++ z ∷ [])) ++ post) =
        rw (lt→ltb i j (omega arith), append_assoc m (z ∷ []) post)
          (ap (reverse_loop fuel (i + 1) (j - 1)) (
              swap_ends pre m post x z i j hi (omega arith)
              ∙ sym (append_assoc pre (z ∷ []) (m ++ x ∷ post)))
            ∙ inner
            ∙ reverse_ends pre m post x z) in
      subst
        (λ t.
          reverse_loop (suc fuel) i j (pre ++ x ∷ (t ++ post)) ≡ pre ++ (reverse (x ∷ t) ++ post))
        (sym e) step

  -- The two-index loop that swaps the ends computes the reversal of the whole slice.
  pub reverse_in_place-eq-reverse : (q : List A) → reverse_in_place q ≡ reverse q
  unfolding reverse_in_place
  reverse_in_place-eq-reverse [] = unfold reverse_loop in refl
  reverse_in_place-eq-reverse (x ∷ q) =
      ap (reverse_loop (length (x ∷ q)) 0 (length (x ∷ q) - 1)) (sym (append-nil (x ∷ q)))
      ∙ reverse_loop-between (length (x ∷ q)) [] (x ∷ q) [] 0 _ refl (omega arith) (omega arith)
      ∙ append-nil (reverse (x ∷ q))
