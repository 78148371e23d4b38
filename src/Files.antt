-- ===== src/Files.antt =====
-- utils/files.go: the functions that keep permissions small, over a store of files, and
-- `MakeFSFriendly`. Paths are coded by numbers; parents of a path are not looked at. An open file is
-- its path.
pub mod Masks
pub mod Perms
pub mod Temp
pub mod TempNames
mod Tests
use go_cedar.Base.{
  ℕ, ◌+◌, ◌%◌, ◌^◌, List, [], ◌∷◌, ◌++◌, map, Bool, true, false, not, ◌||◌, Option, none, some,
  length, ◌==◌, if◌then◌else◌, bit_and, bit_clear,
}

-- The permission bits stand apart from the directory bit.
pub record File : Type 0 where
  pub is_dir : Bool
  pub perms : ℕ
  pub contents : List ℕ

-- `broken`: the calls of os fail there for another reason than that there is no file.
pub record Store : Type 0 where
  pub files : ℕ → Option File
  pub broken : ℕ → Bool
  pub umask : ℕ

pub data Error : Type 0 where
  not_exist os_error is_a_directory not_a_directory already_exists : Error

pub data Stat : Type 0 where
  found : File → Stat
  failed : Error → Stat

-- What a function leaves, with its error, where `none` is nil.
abbrev pub Done : Type 0
Done = Store × Option Error

infixl 5 ◌then_do◌
abbrev pub ◌then_do◌ : Done → (Store → Done) → Done
(s, none) then_do f = f s
(s, some e) then_do f = (s, some e)

-- `stat.Mode()`, where `os.ModeDir` is bit 31.
abbrev pub mode : File → ℕ
mode f = if f.is_dir then f.perms + 2 ^ 31 else f.perms

abbrev pub put_file : ℕ → File → Store → Store
put_file path f s = record s { files = λ p. if path == p then some f else s.files p }

-- `os.Stat`
unfoldable pub stat : ℕ → Store → Stat
stat path s =
    if s.broken path
    then failed os_error
    else elim (s.files path) [ none ↦ failed not_exist | some f ↦ found f ]

-- `os.MkdirAll`
unfoldable pub mkdir_all : ℕ → ℕ → Store → Done
mkdir_all path perms s = elim (stat path s) [
  | found f ↦ (s, if f.is_dir then none else some not_a_directory)
  | failed not_exist ↦ (
    put_file path (record { is_dir = true; perms = bit_clear perms s.umask; contents = [] }) s,
    none,
  )
  | failed e ↦ (s, some e)
]

-- `os.Chmod`, which sets the permission bits.
unfoldable pub chmod : ℕ → ℕ → Store → Done
chmod path new_mode s = elim (stat path s) [
  | found f ↦ (put_file path (record f { perms = new_mode % 512 }) s, none)
  | failed e ↦ (s, some e)
]

-- `os.OpenFile` for writing; the flags are `os.O_CREATE|os.O_TRUNC`, or neither.
unfoldable pub open_file : ℕ → Bool → ℕ → Store → Done
open_file path create_and_trunc perms s = elim (stat path s) [
  | found f ↦
      if f.is_dir
      then (s, some is_a_directory)
      else (if create_and_trunc then put_file path (record f { contents = [] }) s else s, none)
  | failed not_exist ↦
      if create_and_trunc
      then (
        put_file path (record { is_dir = false; perms = bit_clear perms s.umask; contents = [] }) s,
        none,
      )
      else (s, some not_exist)
  | failed e ↦ (s, some e)
]

-- `f.Write`, at the end of what has been written.
unfoldable pub write : ℕ → List ℕ → Store → Done
write path data_written s = elim (stat path s) [
  | found f ↦ (put_file path (record f { contents = f.contents ++ data_written }) s, none)
  | failed e ↦ (s, some e)
]

unfoldable pub ensure_dir_and_max_perms : ℕ → ℕ → Store → Done
ensure_dir_and_max_perms path perms s = elim (stat path s) [
  | failed not_exist ↦ mkdir_all path perms s
  | failed e ↦ (s, some e)
  | found f ↦
      if not f.is_dir
      then (s, some not_a_directory)
      else if mode f == perms
      then (s, none)
      else chmod path (bit_and (mode f) perms) s
]

unfoldable pub ensure_file_max_perms : ℕ → ℕ → Store → Done
ensure_file_max_perms file perms s = elim (stat file s) [
  | failed e ↦ (s, some e)
  | found f ↦ if mode f == perms then (s, none) else chmod file (bit_and (mode f) perms) s
]

unfoldable pub ensure_filepath_max_perms : ℕ → ℕ → Store → Done
ensure_filepath_max_perms filepath perms s =
    open_file filepath false perms s then_do ensure_file_max_perms filepath perms

unfoldable pub write_file_with_max_perms : ℕ → List ℕ → ℕ → Store → Done
write_file_with_max_perms path data_written perms s =
    open_file path true perms s
    then_do ensure_file_max_perms path perms
    then_do write path data_written

-- `io.Copy`, which reads what the source holds by then.
unfoldable pub copy_contents : ℕ → ℕ → Store → Done
copy_contents src_path dst_path s = elim (stat src_path s) [
  | failed e ↦ (s, some e)
  | found f ↦ if f.is_dir then (s, some is_a_directory) else write dst_path f.contents s
]

unfoldable pub copy_file_with_max_perms : ℕ → ℕ → ℕ → Store → Done
copy_file_with_max_perms src_path dst_path perms s = elim (stat src_path s) [
  | failed e ↦ (s, some e)
  | found f ↦
      open_file dst_path true perms s
      then_do ensure_file_max_perms dst_path perms
      then_do copy_contents src_path dst_path
]

-- `ExpandAndCheckPath`, which expands nothing.
unfoldable pub expand_and_check_path : ℕ → Bool → Store → Done
expand_and_check_path pathname auto_create s = elim (stat pathname s) [
  | failed not_exist ↦ if auto_create then mkdir_all pathname 0o755 s else (s, some not_exist)
  | failed e ↦ (s, some e)
  | found f ↦ (s, none)
]

-- `CreateNewDir` at the effective path.
unfoldable pub create_new_dir : ℕ → Store → Done
create_new_dir pathname s = elim (stat pathname s) [
  | failed not_exist ↦ mkdir_all pathname 0o755 s
  | failed e ↦ (s, some already_exists)
  | found f ↦ (s, some already_exists)
]

-- `remapCharset`
unfoldable pub remap : ℕ → ℕ
remap r =
    if (r == b' ') || ((r == b'.') || (r == b'?'))
    then b'-'
    else if (r == b'\\') || ((r == b'/') || (r == b'&'))
    then b'+'
    else r

-- The text of encoding/base32 is a parameter.
unfoldable pub make_fs_friendly : (List ℕ → List ℕ) → List ℕ → List ℕ → List ℕ
make_fs_friendly encode name suffix =
    map remap name ++ (if length suffix == 0 then [] else b' ' ∷ encode suffix)
