-- ===== src/Files/Tests.antt =====
-- A store of two files for utils/files.go.
use go_cedar.Base.{ℕ, ◌≡◌, refl, [], ◌∷◌, false, true, none, arith}
use go_cedar.Files.{File, Store, write_file_with_max_perms, put_file, make_fs_friendly, remap}
use go_cedar.Base.{same_text}
use go_cedar.Files.Temp.{Names, opened, create_temp, try_names, open_file}
use go_cedar.Files.Masks.{IsWithin, Holds}
use go_cedar.Files.Perms.{IsWritable, write_file-IsWithin}

-- Mode 0666.
abbrev open_to_all : File
open_to_all = record { is_dir = false; perms = 438; contents = 1 ∷ 2 ∷ [] }

-- A directory of mode 0777.
abbrev open_dir : File
open_dir = record { is_dir = true; perms = 511; contents = [] }

abbrev empty_store : Store
empty_store = record { files = λ path. none; broken = λ path. false; umask = 18 }

abbrev store : Store
store = put_file 4 open_dir (put_file 3 open_to_all empty_store)

file-IsWritable : IsWritable 3 store
file-IsWritable = record { works = refl; no_dir = λ f e. ground arith }

new-IsWritable : IsWritable 5 store
new-IsWritable = record { works = refl; no_dir = λ f e. ground arith }

write_file-IsWithin_example :
    (t : Store) × (q : ℕ) × (write_file_with_max_perms 3 (7 ∷ []) 384 store ≡ (t, none))
    × Holds 3 (record { is_dir = false; perms = q; contents = 7 ∷ [] }) store t
    × IsWithin q 384
write_file-IsWithin_example = write_file-IsWithin 3 384 (7 ∷ []) store (omega arith) file-IsWritable

-- "a b/" with two bytes
friendly_name :
    make_fs_friendly (λ bs. bs) (b'a' ∷ b' ' ∷ b'b' ∷ b'/' ∷ []) (b'x' ∷ [])
    ≡ b'a' ∷ b'-' ∷ b'b' ∷ b'+' ∷ b' ' ∷ b'x' ∷ []
unfolding make_fs_friendly remap
friendly_name = refl

-- "ab*c" in the directory "/t" at a second reading of the clock.
taken_names : Names
taken_names = record {
  exists = λ name. same_text name (b'/' ∷ b't' ∷ b'/' ∷ b'a' ∷ b'b' ∷ b'1' ∷ b'c' ∷ []);
  broken = λ name. false;
}

second_reading :
    create_temp []
      (b'/' ∷ b't' ∷ [])
      (b'a' ∷ b'b' ∷ b'*' ∷ b'c' ∷ [])
      true
      taken_names
      ((b'1' ∷ []) ∷ (b'2' ∷ []) ∷ [])
    ≡ opened (b'/' ∷ b't' ∷ b'/' ∷ b'a' ∷ b'b' ∷ b'2' ∷ b'c' ∷ [])
unfolding create_temp try_names open_file taken_names
second_reading = refl
