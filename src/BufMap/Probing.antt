-- ===== src/BufMap/Probing.antt =====
-- The probing of bufs/map.go ends, and finds what was put.
use go_cedar.Base.{
  ℕ, zero, suc, ◌+◌, ◌%◌, ◌^◌, ◌≤◌, ◌<◌, ◌≡◌, refl, ◌≢◌, inl, inr, List, [], ◌∷◌, true, false,
  Option, none, some, Option-cases, Bool-cases, lookup, insert, lookup-insert, length, arith, ap,
  sym, ◌∙◌,
}
use native.Mathlib.Decide.{ℕ_discrete}
use go_cedar.BufMap.{equal, delete, probe, get, put}

pub equal_refl : (s : List ℕ) → equal s s ≡ true
equal_refl [] = refl
equal_refl (c ∷ s) = ground (arith, equal_refl s)

length-delete-le : {V : Type 0} (at : ℕ) (m : List (ℕ × V)) → length (delete at m) ≤ length m
unfolding delete
length-delete-le at [] = omega arith
length-delete-le at ((j, v) ∷ m) = ground (arith, length-delete-le at m)

-- A deletion at a used address makes the map smaller.
length-delete :
    {V : Type 0} (at : ℕ) (m : List (ℕ × V)) → lookup at m ≢ none → length (delete at m) < length m
unfolding delete lookup
length-delete at [] h = absurd (h refl)
length-delete at ((j, v) ∷ m) h = ground (arith, length-delete at m, length-delete-le at m)

lookup-delete :
    {V : Type 0} (at j : ℕ) (m : List (ℕ × V)) → at ≢ j → lookup j (delete at m) ≡ lookup j m
unfolding delete lookup
lookup-delete at j [] n = refl
lookup-delete at j ((i, v) ∷ m) n = ground (arith, lookup-delete at j m n)

-- So many addresses from one on are all used.
abbrev Used : {V : Type 0} → ℕ → ℕ → List (ℕ × V) → Type 0
Used n at m = (i : ℕ) → i < n → lookup ((at + i) % 2 ^ 64) m ≢ none

length-Used :
    {V : Type 0} (n at : ℕ) (m : List (ℕ × V))
    → n ≤ 2 ^ 64
    → at < 2 ^ 64
    → Used n at m
    → n ≤ length m
length-Used zero at m h k u = omega arith
length-Used (suc n) at m h k u =
    let e : (at + 0) % 2 ^ 64 ≡ at = omega arith in
    let here : lookup at m ≢ none = λ p. u 0 (omega arith) (ap (λ a. lookup a m) e ∙ p) in
    let later : Used n ((at + 1) % 2 ^ 64) (delete at m) = λ i l p.
      let f : ((at + 1) % 2 ^ 64 + i) % 2 ^ 64 ≡ (at + suc i) % 2 ^ 64 = omega arith in
      let g : at ≢ (at + suc i) % 2 ^ 64 = λ q. omega arith in
      u (suc i) (omega arith) (
        sym (lookup-delete at ((at + suc i) % 2 ^ 64) m g)
        ∙ sym (ap (λ a. lookup a (delete at m)) f)
        ∙ p) in
    omega (
      arith,
      length-Used n ((at + 1) % 2 ^ 64) (delete at m) (omega arith) (omega arith) later,
      length-delete at m here,
    )

module _ {Entry : Type 0} (map_key : Entry → List ℕ) where
  probe_next :
      (n : ℕ) (key : List ℕ) (at : ℕ) (m : List (ℕ × Entry)) (e : Entry)
      → lookup at m ≡ some e
      → equal (map_key e) key ≡ false
      → probe map_key (suc n) key at m ≡ probe map_key n key ((at + 1) % 2 ^ 64) m
  unfolding probe
  probe_next n key at m e u q = ground (arith, u, q)

  probe_found :
      (n : ℕ) (key : List ℕ) (at : ℕ) (m : List (ℕ × Entry)) (e : Entry)
      → lookup at m ≡ some e
      → equal (map_key e) key ≡ true
      → probe map_key (suc n) key at m ≡ some (some e, at)
  unfolding probe
  probe_found n key at m e u q = ground (arith, u, q)

  probe_free :
      (n : ℕ) (key : List ℕ) (at : ℕ) (m : List (ℕ × Entry))
      → lookup at m ≡ none
      → probe map_key (suc n) key at m ≡ some (none, at)
  unfolding probe
  probe_free n key at m u = ground (arith, u)

  probe-Used :
      (n : ℕ) (key : List ℕ) (at : ℕ) (m : List (ℕ × Entry))
      → at < 2 ^ 64
      → probe map_key n key at m ≡ none
      → Used n at m
  probe-Used zero key at m k h = λ i l p. omega arith
  probe-Used (suc n) key at m k h = elim (Option-cases (lookup at m)) [
    | inl u ↦ absurd (ground (arith, probe_free n key at m u))
    | inr (e, u) ↦ elim (Bool-cases (equal (map_key e) key)) [
      | inl q ↦ absurd (ground (arith, probe_found n key at m e u q))
      | inr q ↦
          let later : Used n ((at + 1) % 2 ^ 64) m =
            probe-Used n key ((at + 1) % 2 ^ 64) m (omega arith)
              (sym (probe_next n key at m e u q) ∙ h) in
          extend_Used n at m e k u later
    ]
  ]
    where
      extend_Used :
          (n at : ℕ) (m : List (ℕ × Entry)) (e : Entry)
          → at < 2 ^ 64
          → lookup at m ≡ some e
          → Used n ((at + 1) % 2 ^ 64) m
          → Used (suc n) at m
      extend_Used n at m e k u later zero l p =
          let f : (at + 0) % 2 ^ 64 ≡ at = omega arith in
          ground (arith, sym (ap (λ a. lookup a m) f) ∙ p, u)
      extend_Used n at m e k u later (suc i) l p =
          let f : ((at + 1) % 2 ^ 64 + i) % 2 ^ 64 ≡ (at + suc i) % 2 ^ 64 = omega arith in
          later i (omega arith) (ap (λ a. lookup a m) f ∙ p)

  probe_more :
      (n k : ℕ) (key : List ℕ) (at : ℕ) (m : List (ℕ × Entry)) (r : Option Entry × ℕ)
      → n ≤ k
      → probe map_key n key at m ≡ some r
      → probe map_key k key at m ≡ some r
  probe_more zero k key at m r l h = absurd (unfold probe in ground arith)
  probe_more (suc n) zero key at m r l h = absurd (omega arith)
  probe_more (suc n) (suc k) key at m r l h = elim (Option-cases (lookup at m)) [
    | inl u ↦ probe_free k key at m u ∙ sym (probe_free n key at m u) ∙ h
    | inr (e, u) ↦ elim (Bool-cases (equal (map_key e) key)) [
      | inl q ↦ probe_found k key at m e u q ∙ sym (probe_found n key at m e u q) ∙ h
      | inr q ↦
          probe_next k key at m e u q
          ∙ probe_more n k key ((at + 1) % 2 ^ 64) m r (omega arith)
              (sym (probe_next n key at m e u q) ∙ h)
    ]
  ]

  -- An entry that is put where its key's probing ends is found there.
  probe-insert :
      (n : ℕ) (key : List ℕ) (at a : ℕ) (m : List (ℕ × Entry)) (o : Option Entry) (e : Entry)
      → equal (map_key e) key ≡ true
      → probe map_key n key at m ≡ some (o, a)
      → probe map_key n key at (insert a e m) ≡ some (some e, a)
  probe-insert zero key at a m o e q h = absurd (unfold probe in ground arith)
  probe-insert (suc n) key at a m o e q h = elim (ℕ_discrete a at) [
    | yes p ↦
        let f : lookup at (insert a e m) ≡ some e = ground (arith, lookup-insert a at e m) in
        probe_found n key at (insert a e m) e f q ∙ ap (λ x. some (some e, x)) (sym p)
    | no p ↦
        let f : lookup at (insert a e m) ≡ lookup at m = ground (arith, lookup-insert a at e m) in
        elim (Option-cases (lookup at m)) [
          | inl u ↦ absurd (ground (arith, probe_free n key at m u, p))
          | inr (x, u) ↦ elim (Bool-cases (equal (map_key x) key)) [
            | inl t ↦ absurd (ground (arith, probe_found n key at m x u t, p))
            | inr t ↦
                probe_next n key at (insert a e m) x (f ∙ u) t
                ∙ probe-insert n key ((at + 1) % 2 ^ 64) a m o e q
                    (sym (probe_next n key at m x u t) ∙ h)
          ]
        ]
  ]

length-insert-le :
    {V : Type 0} (at : ℕ) (v : V) (m : List (ℕ × V)) → length m ≤ length (insert at v m)
unfolding insert
length-insert-le at v [] = omega arith
length-insert-le at v ((j, w) ∷ m) = ground (arith, length-insert-le at v m)

module _ {Entry : Type 0} (map_key : Entry → List ℕ) (hash : List ℕ → ℕ) where
  get_ends :
      (key : List ℕ) (m : List (ℕ × Entry)) → length m < 2 ^ 64 → get map_key hash key m ≢ none
  unfolding get
  get_ends key m l h =
      let n = suc (length m) in
      let u = probe-Used map_key n key (hash key % 2 ^ 64) m (omega arith) h in
      omega (arith, length-Used n (hash key % 2 ^ 64) m (omega arith) (omega arith) u)

  -- In a map of fewer than 2 ^ 64 entries the probing of `Put` ends, and `Get` then finds the entry
  -- under its key.
  pub get-put :
      (entry : Entry) (m : List (ℕ × Entry))
      → length m < 2 ^ 64
      → (existing : Option Entry) × (m' : List (ℕ × Entry)) × (at : ℕ) × (put map_key hash entry m
          ≡ some (existing, m'))
        × (get map_key hash (map_key entry) m' ≡ some (some entry, at))
  unfolding put
  get-put entry m l = elim (Option-cases (get map_key hash (map_key entry) m)) [
    | inl h ↦ absurd (get_ends (map_key entry) m l h)
    | inr ((existing, at), h) ↦ (
      existing,
      insert at entry m,
      at,
      rw (h, put) refl,
      unfold get in
          probe_more map_key (suc (length m)) (suc (length (insert at entry m))) (map_key entry)
            (hash (map_key entry) % 2 ^ 64) (insert at entry m) (some entry, at)
            (omega (arith, length-insert-le at entry m))
            (probe-insert map_key (suc (length m)) (map_key entry) (hash (map_key entry) % 2 ^ 64)
              at m existing entry (equal_refl (map_key entry)) (unfold get in h)),
    )
  ]
