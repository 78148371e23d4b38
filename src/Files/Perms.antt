-- ===== src/Files/Perms.antt =====
-- What the functions of utils/files.go leave at a path, and that its permissions are within the given
-- ones.
use go_cedar.Base.{
  ℕ, ◌%◌, ◌<◌, ◌≡◌, refl, ◌≢◌, ◌⊎◌, inl, inr, List, [], ◌++◌, true, false, none, some, bit_and,
  bit_clear, bit_clear_within, arith, ap, ◌∙◌, Option-cases, Bool-cases,
}
use go_cedar.Files.{
  File, Store, not_a_directory, found, ◌then_do◌, mode, put_file, stat, mkdir_all, chmod, open_file,
  write, ensure_dir_and_max_perms, ensure_file_max_perms, write_file_with_max_perms, copy_contents,
  copy_file_with_max_perms,
}
use go_cedar.Files.Masks.{
  IsWithin, Holds, put_file-Holds, Holds-trans, stat_found, stat-none, masked, ensure_file-IsWithin,
}

-- A path where a file can be written: os does not fail there, and there is no directory.
pub record IsWritable (path : ℕ) (s : Store) : Type 0 where
  pub works : s.broken path ≡ false
  pub no_dir : (f : File) → s.files path ≡ some f → f.is_dir ≡ false

open_file_empty :
    (path perms : ℕ) (s : Store)
    → IsWritable path s
    → (t : Store) × (q : ℕ) × (open_file path true perms s ≡ (t, none))
      × Holds path (record { is_dir = false; perms = q; contents = [] }) s t
unfolding open_file
open_file_empty path perms s v = elim (Option-cases (s.files path)) [
  | inl e ↦
      let q = bit_clear perms s.umask in
      let f : File = record { is_dir = false; perms = q; contents = [] } in
      (put_file path f s, q, ground (arith, stat-none path s v.works e), put_file-Holds path f s)
  | inr (g, e) ↦
      let f : File = record { is_dir = false; perms = g.perms; contents = [] } in
      let d : record g { contents = [] } ≡ f =
        ap (λ b. record { is_dir = b; perms = g.perms; contents = [] }) (v.no_dir g e) in
      (
        put_file path f s,
        g.perms,
        ground (arith, stat_found path g s v.works e, v.no_dir g e, ap (λ x. put_file path x s) d),
        put_file-Holds path f s,
      )
]

write-Holds :
    (path : ℕ) (f : File) (bs : List ℕ) (s : Store)
    → s.broken path ≡ false
    → s.files path ≡ some f
    → let g = record f { contents = f.contents ++ bs } in
      (write path bs s ≡ (put_file path g s, none)) × Holds path g s (put_file path g s)
unfolding write
write-Holds path f bs s b e = (ground (arith, stat_found path f s b e), put_file-Holds path _ s)

-- The file opened and its permissions cut down.
open-IsWithin :
    (path perms : ℕ) (s : Store)
    → perms < 512
    → IsWritable path s
    → (t : Store) × (q : ℕ) × ((open_file path true perms s
          then_do ensure_file_max_perms path perms)
        ≡ (t, none))
      × Holds path (record { is_dir = false; perms = q; contents = [] }) s t
      × IsWithin q perms
open-IsWithin path perms s small v =
    let (t, q, e, h) = open_file_empty path perms s v in
    let f : File = record { is_dir = false; perms = q; contents = [] } in
    let (u, r, g, k, w) =
      ensure_file-IsWithin path perms f t small (ap (λ b. b path) h.as_broken ∙ v.works) h.there
        refl in
    (
      u,
      r,
      ap (λ d. d then_do ensure_file_max_perms path perms) e ∙ g,
      Holds-trans path f (record f { perms = r }) s t u h k,
      w,
    )

-- `WriteFileWithMaxPerms` to a path where a file can be written returns no error, and leaves a file
-- with the given contents and with no permission but the given ones, whatever was there before; no
-- other file changes.
pub write_file-IsWithin :
    (path perms : ℕ) (bs : List ℕ) (s : Store)
    → perms < 512
    → IsWritable path s
    → (t : Store) × (q : ℕ) × (write_file_with_max_perms path bs perms s ≡ (t, none))
      × Holds path (record { is_dir = false; perms = q; contents = bs }) s t
      × IsWithin q perms
unfolding write_file_with_max_perms
write_file-IsWithin path perms bs s small v =
    let (t, q, e, h, w) = open-IsWithin path perms s small v in
    let f : File = record { is_dir = false; perms = q; contents = [] } in
    let (g, k) = write-Holds path f bs t (ap (λ b. b path) h.as_broken ∙ v.works) h.there in
    (
      put_file path (record f { contents = bs }) t,
      q,
      ap (λ d. d then_do write path bs) e ∙ g,
      Holds-trans path f (record f { contents = bs }) s t _ h k,
      w,
    )

-- `CopyFileWithMaxPerms` from a file to another path where a file can be written returns no error, and
-- leaves there the source's contents with no permission but the given ones; no other file changes.
pub copy_file-IsWithin :
    (src dst perms : ℕ) (f : File) (s : Store)
    → perms < 512
    → IsWritable dst s
    → s.broken src ≡ false
    → s.files src ≡ some f
    → f.is_dir ≡ false
    → src ≢ dst
    → (t : Store) × (q : ℕ) × (copy_file_with_max_perms src dst perms s ≡ (t, none))
      × Holds dst (record { is_dir = false; perms = q; contents = f.contents }) s t
      × IsWithin q perms
unfolding copy_file_with_max_perms copy_contents
copy_file-IsWithin src dst perms f s small v b e d n =
    let (t, q, o, h, w) = open-IsWithin dst perms s small v in
    let g : File = record { is_dir = false; perms = q; contents = [] } in
    let (p, k) = write-Holds dst g f.contents t (ap (λ x. x dst) h.as_broken ∙ v.works) h.there in
    let there : stat src t ≡ found f =
      stat_found src f t (ap (λ x. x src) h.as_broken ∙ b) (h.others src n ∙ e) in
    (
      put_file dst (record g { contents = f.contents }) t,
      q,
      ground
          (arith, stat_found src f s b e, ap (λ d. d then_do copy_contents src dst) o, there, d, p),
      Holds-trans dst g (record g { contents = f.contents }) s t _ h k,
      w,
    )

-- `EnsureDirAndMaxPerms` where os does not fail: if there is a file that is no directory, it changes
-- nothing and returns an error; otherwise it returns no error, and there is a directory whose
-- permissions are among the given ones.
pub ensure_dir-IsWithin :
    (path perms : ℕ) (s : Store)
    → perms < 512
    → s.broken path ≡ false
    → ((ensure_dir_and_max_perms path perms s ≡ (s, some not_a_directory))
        × ((f : File) × (s.files path ≡ some f) × (f.is_dir ≡ false)))
      ⊎ ((t : Store) × (f : File) × (ensure_dir_and_max_perms path perms s ≡ (t, none))
          × Holds path f s t
          × (f.is_dir ≡ true)
          × IsWithin f.perms perms)
unfolding ensure_dir_and_max_perms mkdir_all chmod
ensure_dir-IsWithin path perms s small b = elim (Option-cases (s.files path)) [
  | inl e ↦
      let f : File = record { is_dir = true; perms = bit_clear perms s.umask; contents = [] } in
      inr (
        put_file path f s,
        f,
        ground (arith, stat-none path s b e),
        put_file-Holds path f s,
        refl,
        bit_clear_within perms s.umask,
      )
  | inr (f, e) ↦ elim (Bool-cases f.is_dir) [
    | inr d ↦ inl (ground (arith, stat_found path f s b e, d), (f, e, d))
    | inl d ↦
        let g : File = record f { perms = bit_and (mode f) perms % 512 } in
        inr (
          put_file path g s,
          g,
          ground (arith, stat_found path f s b e, d, small),
          put_file-Holds path g s,
          d,
          masked (mode f) perms small,
        )
  ]
]
