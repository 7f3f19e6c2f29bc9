-- ===== src/FileSearch.antt =====
-- `get_man_paths`, `fs_lookup` and `search_filesystem` of main.c: the file of a manual page, by its
-- name and perhaps its section.
pub mod Order
mod Tests
use mangl.Prelude.{
  ℕ, Bool, true, false, Option, none, some, List, [], ◌∷◌, ◌++◌, ◌==◌, if◌then◌else◌, length, Bytes,
}
use mangl.Text.{codes}
use mangl.Run.{Run, done, fault, deref, strcpy, truncated, ◌>>=◌}
use mangl.ManPath.{Paths, get_man_paths_from_manpath_executable}

-- What the functions ask of the file system: whether `stat` succeeds, and the matches of `glob` if
-- it returns 0.
pub record FileSystem : Type 0 where
  pub stat : Bytes → Bool
  pub glob : Bytes → Option (List Bytes)

abbrev pub default_man_paths : Paths
default_man_paths =
    some (codes "/usr/share/man")
    ∷ some (codes "/usr/X11R6/man")
    ∷ some (codes "/usr/local/man")
    ∷ []

-- With what `manpath.c` keeps and what the `manpath` program prints.
unfoldable pub get_man_paths : Option Paths → Option Bytes → Run (Option Paths × Paths)
get_man_paths cache output = get_man_paths_from_manpath_executable cache output >>= λ r.
    if length r.1 == 0 then done (r.0, default_man_paths) else done r

abbrev pub sections : List Bytes
sections =
    codes "1"
    ∷ codes "8"
    ∷ codes "6"
    ∷ codes "2"
    ∷ codes "3"
    ∷ codes "5"
    ∷ codes "7"
    ∷ codes "4"
    ∷ codes "9"
    ∷ codes "3p"
    ∷ []

-- The size of the buffer `file` of `fs_lookup`.
abbrev pub file_size : ℕ
file_size = 2048

abbrev pub man_file : Bytes → Bytes → Bytes → Bytes
man_file path sec name =
    truncated file_size (path ++ codes "/man" ++ sec ++ codes "/" ++ name ++ codes "." ++ sec)

abbrev pub cat_file : Bytes → Bytes → Bytes → Bytes
cat_file path sec name =
    truncated file_size (path ++ codes "/cat" ++ sec ++ codes "/" ++ name ++ codes ".0")

abbrev pub man_pattern : Bytes → Bytes → Bytes → Bytes
man_pattern path sec name =
    truncated file_size (path ++ codes "/man" ++ sec ++ codes "/" ++ name ++ codes ".[01-9]*")

abbrev pub local_file : Bytes → Bytes → Bytes
local_file sec name = truncated file_size (name ++ codes "." ++ sec)

module _ (fs : FileSystem) (out_size : ℕ) where
  -- From `found` on: `filename_out` has `out_size` bytes.
  abbrev pub copy_out : Bytes → Run (Option Bytes)
  copy_out file = strcpy out_size file >>= λ out. done (some out)

  abbrev pub lookup_here : Bytes → Bytes → Run (Option Bytes)
  lookup_here sec name =
      if fs.stat (local_file sec name) then copy_out (local_file sec name) else done none

  -- The first match of the pattern, which `strcpy` copies to `file`.
  abbrev pub lookup_match : List Bytes → Bytes → Bytes → Run (Option Bytes)
  lookup_match [] sec name = fault
  lookup_match (match ∷ more) sec name = strcpy file_size match >>= λ file.
      if fs.stat file then copy_out file else lookup_here sec name

  -- `none` is -1.
  unfoldable pub fs_lookup : Bytes → Bytes → Bytes → Run (Option Bytes)
  fs_lookup path sec name =
      if fs.stat (man_file path sec name)
      then copy_out (man_file path sec name)
      else if fs.stat (cat_file path sec name)
      then copy_out (cat_file path sec name)
      else elim (fs.glob (man_pattern path sec name)) [
        | none ↦ lookup_here sec name
        | some matches ↦ lookup_match matches sec name
      ]

  -- The loop on `isec`.
  unfoldable pub search_sections : Bytes → List Bytes → Bytes → Run (Option Bytes)
  search_sections path [] name = done none
  search_sections path (sec ∷ secs) name = fs_lookup path sec name >>= λ r. elim r [
    | some file ↦ done (some file)
    | none ↦ search_sections path secs name
  ]

  -- The loop on `ipath`. A null path is read by `snprintf`.
  unfoldable pub search_paths : Paths → Option Bytes → Bytes → Run (Option Bytes)
  unfolding search_sections
  search_paths [] section search_term = done none
  search_paths (p ∷ paths) section search_term = deref p >>= λ path.
      (elim section [
        | some sec ↦ fs_lookup path sec search_term
        | none ↦ search_sections path sections search_term
      ])
      >>= λ r. elim r [
        | some file ↦ done (some file)
        | none ↦ search_paths paths section search_term
      ]

  unfoldable pub search_filesystem :
      Option Paths → Option Bytes → Option Bytes → Bytes → Run (Option Bytes)
  unfolding get_man_paths search_paths
  search_filesystem cache output section search_term =
      get_man_paths cache output >>= λ r. search_paths r.1 section search_term
