-- ===== src/Files/Masks.antt =====
-- Permissions that utils/files.go cuts down, and stores that differ at one path.
use go_cedar.Base.{
  ℕ, ◌%◌, ◌<◌, ◌≡◌, refl, ◌≢◌, inl, inr, false, none, some, ◌==◌, bit_and, bit_and-le,
  bit_and_twice, bit_and_self, arith, ap, ◌∙◌, sym, Bool-cases,
}
use go_cedar.Files.{
  File, Store, not_exist, found, failed, mode, put_file, stat, chmod, ensure_file_max_perms,
}

-- No bit of the first number is missing from the second.
abbrev pub IsWithin : ℕ → ℕ → Type 0
IsWithin a b = bit_and a b ≡ a

-- The second store is the first one but for the file at the path.
pub record Holds (path : ℕ) (f : File) (s t : Store) : Type 0 where
  pub there : t.files path ≡ some f
  pub others : (j : ℕ) → j ≢ path → t.files j ≡ s.files j
  pub as_broken : t.broken ≡ s.broken

pub put_file-Holds : (path : ℕ) (f : File) (s : Store) → Holds path f s (put_file path f s)
put_file-Holds path f s = record {
  there = ground arith;
  others = λ j n. ground arith;
  as_broken = refl;
}

pub Holds-trans :
    (path : ℕ) (f g : File) (s t u : Store) → Holds path f s t → Holds path g t u → Holds path g s u
Holds-trans path f g s t u h k = record {
  there = k.there;
  others = λ j n. k.others j n ∙ h.others j n;
  as_broken = k.as_broken ∙ h.as_broken;
}

pub stat_found :
    (path : ℕ) (f : File) (s : Store)
    → s.broken path ≡ false
    → s.files path ≡ some f
    → stat path s ≡ found f
unfolding stat
stat_found path f s b e = ground (arith, b, e)

pub stat-none :
    (path : ℕ) (s : Store)
    → s.broken path ≡ false
    → s.files path ≡ none
    → stat path s ≡ failed not_exist
unfolding stat
stat-none path s b e = ground (arith, b, e)

-- Masked permissions are within the mask, and are permission bits if the mask is.
pub masked : (m perms : ℕ) → perms < 512 → IsWithin (bit_and m perms % 512) perms
masked m perms h =
    let small : bit_and m perms % 512 ≡ bit_and m perms = omega (arith, bit_and-le m perms) in
    ap (λ x. bit_and x perms) small ∙ bit_and_twice m perms ∙ sym small

pub ensure_file-IsWithin :
    (path perms : ℕ) (f : File) (s : Store)
    → perms < 512
    → s.broken path ≡ false
    → s.files path ≡ some f
    → f.is_dir ≡ false
    → (t : Store) × (q : ℕ) × (ensure_file_max_perms path perms s ≡ (t, none))
      × Holds path (record f { perms = q }) s t
      × IsWithin q perms
unfolding ensure_file_max_perms chmod
ensure_file-IsWithin path perms f s small b e d =
    let k = stat_found path f s b e in
    elim (Bool-cases (mode f == perms)) [
      | inl y ↦
          let same : f.perms ≡ perms = ground (arith, d, y) in
          (
            s,
            f.perms,
            ground (arith, k, y),
            record { there = e; others = λ j n. refl; as_broken = refl },
            ap (bit_and f.perms) (sym same) ∙ bit_and_self f.perms,
          )
      | inr n ↦ (
        put_file path (record f { perms = bit_and (mode f) perms % 512 }) s,
        bit_and (mode f) perms % 512,
        ground (arith, k, n),
        put_file-Holds path _ s,
        masked (mode f) perms small,
      )
    ]
