-- ===== src/Database/Tests.antt =====
-- Databases of one and two files, and an insertion sort for `qsort`.
use mathlib.Core.Option
use mathlib.Core.Option.{some-injective}
use mathlib.Core.List.{Perm}
use mathlib.Core.List.Perm
use mangl.Prelude.{
  ℕ, ◌<◌, ◌≡◌, refl, sym, ap, ◌∙◌, Bool, true, false, inl, inr, Option, none, some, List, [], ◌∷◌,
  map, arith, length, ℤ, Bytes, if◌then◌else◌, Bool-cases,
}
use mangl.Text.{codes, same_text, is_prefix, strcmp}
use mangl.Run.{Run, done, exited, fault, ◌>>=◌}
use mangl.Crc.{crc32}
use mangl.PageName.{get_page_name_and_section, base_name, strip_compression, split_name}
use mangl.ManPath.{get_man_paths_from_manpath_executable}
use mangl.HashMap.{HashMap, new_map, hashmap_put, hashmap_get, hashmap_remove, mix}
use mangl.FileSearch.{FileSystem, get_man_paths, sections}
use mangl.Database.{
  Database, empty_database, make_manpage_database, sort_names, cmp_manpage_name_idx,
}
use mangl.Database.Compare.{comes, IsOrder, IsSortedBy}
use mangl.Database.Keys.{page_key, last_with, names_of, pages_of_paths}
use mangl.Database.Contents.{HasRoomForAll, HasRoom}
use mangl.Database.Names.{Sorts, IsInOrder, sort_names-IsInOrder}
use mangl.Database.Build.{NamesFit, make_manpage_database-IsDatabase}

unfoldable insert_by : (ℕ → ℕ → ℤ) → ℕ → List ℕ → List ℕ
insert_by cmp x [] = x ∷ []
insert_by cmp x (y ∷ ys) = if comes cmp x y then x ∷ y ∷ ys else y ∷ insert_by cmp x ys

unfoldable insertion_sort : (ℕ → ℕ → ℤ) → List ℕ → List ℕ
unfolding insert_by
insertion_sort cmp [] = []
insertion_sort cmp (x ∷ xs) = insert_by cmp x (insertion_sort cmp xs)

insert_by-perm : (cmp : ℕ → ℕ → ℤ) (x : ℕ) (xs : List ℕ) → Perm (insert_by cmp x xs) (x ∷ xs)
unfolding insert_by
insert_by-perm cmp x [] = Perm.refl (x ∷ [])
insert_by-perm cmp x (y ∷ ys) = elim (Bool-cases (comes cmp x y)) [
  | inl e ↦ rw e (Perm.refl (x ∷ y ∷ ys))
  | inr e ↦ rw e (Perm.trans (Perm.cons y (insert_by-perm cmp x ys)) (Perm.swap x y ys))
]

insert_by-IsSortedBy :
    (cmp : ℕ → ℕ → ℤ)
    → IsOrder cmp
    → (x : ℕ) (xs : List ℕ) → IsSortedBy cmp xs
    → IsSortedBy cmp (insert_by cmp x xs)
unfolding insert_by
insert_by-IsSortedBy cmp order x [] h = tt
insert_by-IsSortedBy cmp order x (y ∷ ys) h = elim (Bool-cases (comes cmp x y)) [
  | inl e ↦ rw e (e, h)
  | inr e ↦ rw e (
      behind ys (elim (order.0 x y) [ inl l ↦ absurd (cc (sym e ∙ l)) | inr l ↦ l ]) h
        (insert_by-IsSortedBy cmp order x ys (rest ys h)))
]
  where
    rest : (ys : List ℕ) → IsSortedBy cmp (y ∷ ys) → IsSortedBy cmp ys
    rest [] h = tt
    rest (z ∷ zs) h = h.1

    behind :
        (ys : List ℕ)
        → comes cmp y x ≡ true
        → IsSortedBy cmp (y ∷ ys)
        → IsSortedBy cmp (insert_by cmp x ys)
        → IsSortedBy cmp (y ∷ insert_by cmp x ys)
    behind [] l h s = (l, tt)
    behind (z ∷ zs) l h s = elim (Bool-cases (comes cmp x z)) [
      | inl e ↦ rw (insert_by, e) (l, rw e at s)
      | inr e ↦ rw (insert_by, e) (h.0, rw e at s)
    ]

insertion_sort-Sorts : Sorts insertion_sort
unfolding insertion_sort
insertion_sort-Sorts cmp order [] = (Perm.refl [], tt)
insertion_sort-Sorts cmp order (x ∷ xs) =
    let (perm, sorted) = insertion_sort-Sorts cmp order xs in
    (
      Perm.trans (insert_by-perm cmp x (insertion_sort cmp xs)) (Perm.cons x perm),
      insert_by-IsSortedBy cmp order x (insertion_sort cmp xs) sorted,
    )

abbrev share_file : Bytes
share_file = codes "/usr/share/man/man1/ls.1"

abbrev local_page : Bytes
local_page = codes "/usr/local/man/man1/ls.1.gz"

abbrev one_page : FileSystem
one_page = record {
  stat = λ file. false;
  glob = λ pattern.
      if same_text pattern (codes "/usr/share/man/man1/*") then some (share_file ∷ []) else none;
}

abbrev two_pages : FileSystem
two_pages = record {
  stat = λ file. false;
  glob = λ pattern.
      if same_text pattern (codes "/usr/share/man/man1/*")
      then some (share_file ∷ codes "/usr/share/man/man1/CP.1" ∷ [])
      else if same_text pattern (codes "/usr/local/man/man1/*")
      then some (local_page ∷ [])
      else none;
}

program : Unit {0}
unfolding make_manpage_database insertion_sort new_map hashmap_put hashmap_get hashmap_remove mix
    crc32 is_prefix same_text strcmp get_page_name_and_section base_name strip_compression
    split_name get_man_paths get_man_paths_from_manpath_executable cmp_manpage_name_idx page_key
    last_with names_of
program = tt

abbrev Listing : Type 0
Listing = List Bytes × Option Bytes × Option Bytes

listing : Database → Run Listing
listing db = hashmap_get db.manpage_database (codes "ls(1)") >>= λ file.
    hashmap_get db.manpage_database_pwd (codes "ls(1)") >>= λ path.
    (let l : Listing = (db.manpage_names, file, path) in done l)

-- The later path wins, and the name is listed twice.
two_pages_made :
    (make_manpage_database insertion_sort true 1000 2 two_pages none none empty_database
      >>= listing)
    ≡ done (
      codes "CP(1)" ∷ codes "ls(1)" ∷ codes "ls(1)" ∷ [],
      some local_page,
      some (codes "/usr/local/man"),
    )
unfolding program listing
two_pages_made = refl

abbrev one_path : List Bytes
one_path = codes "/usr/share/man" ∷ []

one_path_got :
    get_man_paths (some (map some one_path)) none
    ≡ done (some (map some one_path), map some one_path)
unfolding get_man_paths get_man_paths_from_manpath_executable
one_path_got = refl

is_ok : Run (HashMap Bytes × Bool) → Bool
is_ok (done r) = r.1
is_ok (exited n) = false
is_ok fault = false

first_put : (v : Bytes) → is_ok (hashmap_put 1000 2 new_map (codes "ls(1)") v) ≡ true
unfolding program is_ok
first_put v = refl

one_page_room : HasRoomForAll 1000 2 empty_database (pages_of_paths one_page sections one_path)
unfolding program is_ok
one_page_room = (
  (λ key named absent.
      let same = some-injective (codes "ls(1)") key named in
      (room key (sym same) share_file, room key (sym same) (codes "/usr/share/man"))),
  (λ db' ran. tt),
)
  where
    room : (key : Bytes) → key ≡ codes "ls(1)" → (v : Bytes) → HasRoom 1000 2 new_map key v
    room key same v r ran =
        sym (ap is_ok ran) ∙ ap (λ k. is_ok (hashmap_put 1000 2 new_map k v)) same ∙ first_put v

one_page_names : NamesFit one_page
unfolding same_text base_name
one_page_names pattern = elim (Bool-cases (same_text pattern (codes "/usr/share/man/man1/*"))) [
  | inl e ↦ rw e (short, tt)
  | inr e ↦ rw e tt
]
  where
    short : length (base_name share_file) < 256
    short = omega arith

make_manpage_database-IsDatabase_example :
    (db : Database) × (make_manpage_database insertion_sort true 1000 2 one_page
        (some (map some one_path))
        none
        empty_database
      ≡ done db)
    × ((k : Bytes)
        → hashmap_get db.manpage_database k
          ≡ done (
              Option.map
                (λ (p : Bytes × Bytes). p.1)
                (last_with k (pages_of_paths one_page sections one_path))))
    × ((k : Bytes)
        → hashmap_get db.manpage_database_pwd k
          ≡ done (
              Option.map
                (λ (p : Bytes × Bytes). p.0)
                (last_with k (pages_of_paths one_page sections one_path))))
    × IsInOrder (names_of (pages_of_paths one_page sections one_path)) db
make_manpage_database-IsDatabase_example =
    make_manpage_database-IsDatabase insertion_sort 1000 2 one_page (some (map some one_path))
      (some (map some one_path)) none one_path insertion_sort-Sorts one_page_names (omega arith)
      one_path_got one_page_room

abbrev unsorted : Database
unsorted = record empty_database {
  manpage_names = codes "ls(1)" ∷ codes "CP(1)" ∷ [];
  manpage_names_lower = codes "ls(1)" ∷ codes "cp(1)" ∷ [];
}

sort_names-IsInOrder_example :
    (db : Database) × (sort_names insertion_sort true unsorted ≡ done db)
    × IsInOrder unsorted.manpage_names db
    × (db.manpage_database ≡ unsorted.manpage_database)
    × (db.manpage_database_pwd ≡ unsorted.manpage_database_pwd)
sort_names-IsInOrder_example =
    sort_names-IsInOrder insertion_sort unsorted insertion_sort-Sorts refl
