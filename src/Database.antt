-- ===== src/Database.antt =====
-- `make_manpage_database` of main.c: the two maps from the names of the pages to their files and
-- directories, and the sorted arrays of the names.
pub mod Keys
pub mod Contents
pub mod Compare
pub mod Names
pub mod Build
mod Tests
use mangl.Prelude.{
  ℕ, zero, suc, ◌+◌, Bool, true, false, Option, none, some, List, [], ◌∷◌, ◌++◌, map, ◌==◌,
  if◌then◌else◌, length, get_elem?, ℤ, value_or, Bytes,
}
use mangl.Text.{codes, to_lower, strcmp}
use mangl.Run.{Run, done, deref, truncated, ◌>>=◌}
use mangl.ManPath.{Paths}
use mangl.PageName.{get_page_name_and_section}
use mangl.HashMap.{HashMap, new_map, hashmap_put, hashmap_get, hashmap_remove}
use mangl.FileSearch.{FileSystem, get_man_paths, sections}

-- The globals of the page database.
pub record Database : Type 0 where
  pub manpage_database : HashMap Bytes
  pub manpage_database_pwd : HashMap Bytes
  pub manpage_names : List Bytes
  pub manpage_names_lower : List Bytes

-- What `main` starts with, where `hashmap_new` has memory for both maps.
abbrev pub empty_database : Database
empty_database = record {
  manpage_database = new_map;
  manpage_database_pwd = new_map;
  manpage_names = [];
  manpage_names_lower = [];
}

abbrev pub lowercase : Bytes → Bytes
lowercase s = map to_lower s

abbrev pub page_name_size : ℕ
page_name_size = 512

abbrev pub section_name_size : ℕ
section_name_size = 64

abbrev pub key_of : Bytes × Bytes → Bytes
key_of page = truncated 577 (page.0 ++ codes "(" ++ page.1 ++ codes ")")

-- A name that is there already is removed from both maps.
unfoldable pub remove_old : Database → Bytes → Run Database
remove_old db key = hashmap_get db.manpage_database key >>= λ test. elim test [
  | none ↦ done db
  | some old ↦ hashmap_remove db.manpage_database key >>= λ r.
      hashmap_remove db.manpage_database_pwd key >>= λ s.
      done (record db { manpage_database = r.0; manpage_database_pwd = s.0 })
]

-- The second `snprintf` to `file` is the one that counts.
abbrev pub directory_pattern : Bytes → Bytes → Bytes
directory_pattern path section = truncated 1024 (path ++ codes "/man" ++ section ++ codes "/*")

-- `memory` and `fuel` are those of the maps. What `hashmap_put` says is not looked at.
module _ (memory fuel : ℕ) where
  unfoldable pub put_page : Database → Bytes → Bytes → Bytes → Run Database
  put_page db path file key = hashmap_put memory fuel db.manpage_database key file >>= λ r.
      hashmap_put memory fuel db.manpage_database_pwd key path >>= λ s. done (record {
        manpage_database = r.0;
        manpage_database_pwd = s.0;
        manpage_names = db.manpage_names ++ key ∷ [];
        manpage_names_lower = db.manpage_names_lower ++ lowercase key ∷ [];
      })

  -- One file of a directory.
  unfoldable pub add_file : Bytes → Bytes → Database → Run Database
  unfolding remove_old put_page
  add_file path file db =
      get_page_name_and_section file page_name_size section_name_size >>= λ parsed. elim parsed [
        | none ↦ done db
        | some page ↦ remove_old db (key_of page) >>= λ db'. put_page db' path file (key_of page)
      ]

  unfoldable pub add_files : Bytes → List Bytes → Database → Run Database
  unfolding add_file
  add_files path [] db = done db
  add_files path (file ∷ files) db = add_file path file db >>= add_files path files

  module _ (fs : FileSystem) where
    unfoldable pub add_sections : Bytes → List Bytes → Database → Run Database
    unfolding add_files
    add_sections path [] db = done db
    add_sections path (section ∷ secs) db =
        add_files path (value_or (fs.glob (directory_pattern path section)) []) db
        >>= add_sections path secs

    unfoldable pub add_paths : Paths → Database → Run Database
    unfolding add_sections
    add_paths [] db = done db
    add_paths (p ∷ paths) db = deref p >>= λ path. add_sections path sections db >>= add_paths paths

-- The indices are those of the array.
unfoldable pub cmp_manpage_name_idx : List Bytes → ℕ → ℕ → ℤ
cmp_manpage_name_idx lower a b =
    strcmp (value_or (get_elem? lower a) []) (value_or (get_elem? lower b) [])

-- `indices`, from `i` on.
abbrev pub indices_from : ℕ → ℕ → List ℕ
indices_from i zero = []
indices_from i (suc n) = i ∷ indices_from (suc i) n

-- `tmp[indices[i]]` for every `i`.
abbrev pub gather : List Bytes → List ℕ → Run (List Bytes)
gather tmp [] = done []
gather tmp (i ∷ indices) =
    deref (get_elem? tmp i) >>= λ s. gather tmp indices >>= λ rest. done (s ∷ rest)

-- `room` says that both `malloc` succeed.
unfoldable pub sort_names : ((ℕ → ℕ → ℤ) → List ℕ → List ℕ) → Bool → Database → Run Database
unfolding cmp_manpage_name_idx
sort_names qsort room db =
    if length db.manpage_names == 0
    then done db
    else if room
    then (let indices =
          qsort (cmp_manpage_name_idx db.manpage_names_lower)
            (indices_from 0 (length db.manpage_names)) in
        gather db.manpage_names indices >>= λ names.
        gather db.manpage_names_lower indices >>= λ lower.
        done (record db { manpage_names = names; manpage_names_lower = lower }))
    else done db

unfoldable pub make_manpage_database :
    ((ℕ → ℕ → ℤ) → List ℕ → List ℕ)
    → Bool
    → ℕ
    → ℕ
    → FileSystem
    → Option Paths
    → Option Bytes
    → Database
    → Run Database
unfolding add_paths sort_names
make_manpage_database qsort room memory fuel fs cache output db =
    get_man_paths cache output >>= λ r. add_paths memory fuel fs r.1 db >>= sort_names qsort room
