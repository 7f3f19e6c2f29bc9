-- ===== src/Database/Build.antt =====
-- The whole database, from the directories to the sorted names.
use mathlib.Core.Option
use mangl.Prelude.{
  ℕ, ◌≡◌, ◌<◌, ◌*◌, ◌^◌, refl, ap, sym, subst, ◌∙◌, true, Option, some, List, [], ◌∷◌, ◌++◌, map,
  append_assoc, append-nil, length, ℤ, value_or, Bytes,
}
use mangl.Run.{Run, done, ◌>>=◌}
use mangl.ManPath.{Paths}
use mangl.PageName.{base_name}
use mangl.HashMap.{hashmap_get, initial_size, new_map}
use mangl.HashMap.Map.{new_map-IsValid}
use mangl.FileSearch.{FileSystem, get_man_paths, sections}
use mangl.Database.{
  Database, empty_database, directory_pattern, add_files, add_sections, add_paths, sort_names,
  make_manpage_database, lowercase,
}
use mangl.Database.Keys.{last_with, names_of, pages_in, pages_of_sections, pages_of_paths}
use mangl.Database.Contents.{IsDatabase, HasRoomForAll, add_file-IsDatabase}
use mangl.Database.Names.{Sorts, IsInOrder, sort_names-IsInOrder}

abbrev ShortNames : List Bytes → Type 0
ShortNames [] = Unit {0}
ShortNames (file ∷ files) = (length (base_name file) < 256) × ShortNames files

-- The names in a directory have at most 255 bytes, as file systems do.
abbrev pub NamesFit : FileSystem → Type 0
NamesFit fs = (pattern : Bytes) → ShortNames (value_or (fs.glob pattern) [])

module _ (memory fuel : ℕ) where
  -- What a part of the loop has come to, with `more` pages to go.
  abbrev Comes : Run Database → List (Bytes × Bytes) → List (Bytes × Bytes) → Type 0
  Comes r pages more =
      (db' : Database) × (r ≡ done db')
      × IsDatabase memory fuel pages db'
      × HasRoomForAll memory fuel db' more

  Comes-bind :
      {r : Run Database} (k : Database → Run Database) {pages pages' : List (Bytes × Bytes)}
      (more more' : List (Bytes × Bytes))
      → Comes r pages more
      → ((db : Database)
          → IsDatabase memory fuel pages db
          → HasRoomForAll memory fuel db more
          → Comes (k db) pages' more')
      → Comes (r >>= k) pages' more'
  Comes-bind k more more' (db, ran, is, room) next =
      let (db', ran', is', room') = next db is room in
      (db', ap (λ r. r >>= k) ran ∙ ran', is', room')

  add_files-Comes :
      (path : Bytes) (files : List Bytes) (pages more : List (Bytes × Bytes)) (db : Database)
      → ShortNames files
      → IsDatabase memory fuel pages db
      → HasRoomForAll memory fuel db (pages_in path files ++ more)
      → Comes (add_files memory fuel path files db) (pages ++ pages_in path files) more
  unfolding add_files
  add_files-Comes path [] pages more db short is room =
      (db, refl, subst (λ p. IsDatabase memory fuel p db) (sym (append-nil pages)) is, room)
  add_files-Comes path (file ∷ files) pages more db (fits, short) is (here, rest) =
      let (db', ran, is') = add_file-IsDatabase memory fuel pages db is path file fits here in
      subst (λ p. Comes (add_files memory fuel path (file ∷ files) db) p more)
        (append_assoc pages ((path, file) ∷ []) (pages_in path files))
        (Comes-bind (add_files memory fuel path files) (pages_in path files ++ more) more
          (db', ran, is', rest db' ran)
          (λ d i r. add_files-Comes path files (pages ++ (path, file) ∷ []) more d short i r))

  module _ (fs : FileSystem) (fit : NamesFit fs) where
    add_sections-Comes :
        (path : Bytes) (secs : List Bytes) (pages more : List (Bytes × Bytes)) (db : Database)
        → IsDatabase memory fuel pages db
        → HasRoomForAll memory fuel db (pages_of_sections fs path secs ++ more)
        → Comes
            (add_sections memory fuel fs path secs db)
            (pages ++ pages_of_sections fs path secs)
            more
    unfolding add_sections
    add_sections-Comes path [] pages more db is room =
        (db, refl, subst (λ p. IsDatabase memory fuel p db) (sym (append-nil pages)) is, room)
    add_sections-Comes path (section ∷ secs) pages more db is room =
        let pattern = directory_pattern path section in
        let files = value_or (fs.glob pattern) [] in
        let rest = pages_of_sections fs path secs in
        subst (λ p. Comes (add_sections memory fuel fs path (section ∷ secs) db) p more)
          (append_assoc pages (pages_in path files) rest)
          (Comes-bind (add_sections memory fuel fs path secs) (rest ++ more) more
            (add_files-Comes path files pages (rest ++ more) db (fit pattern) is (
              subst (HasRoomForAll memory fuel db) (append_assoc (pages_in path files) rest more)
                room))
            (λ d i r. add_sections-Comes path secs (pages ++ pages_in path files) more d i r))

    add_paths-Comes :
        (paths : List Bytes) (pages : List (Bytes × Bytes)) (db : Database)
        → IsDatabase memory fuel pages db
        → HasRoomForAll memory fuel db (pages_of_paths fs sections paths)
        → Comes
            (add_paths memory fuel fs (map some paths) db)
            (pages ++ pages_of_paths fs sections paths)
            []
    unfolding add_paths
    add_paths-Comes [] pages db is room =
        (db, refl, subst (λ p. IsDatabase memory fuel p db) (sym (append-nil pages)) is, tt)
    add_paths-Comes (path ∷ paths) pages db is room =
        let here = pages_of_sections fs path sections in
        subst (λ p. Comes (add_paths memory fuel fs (map some (path ∷ paths)) db) p [])
          (append_assoc pages here (pages_of_paths fs sections paths))
          (Comes-bind (add_paths memory fuel fs (map some paths)) (pages_of_paths fs sections paths)
            []
            (add_sections-Comes path sections pages (pages_of_paths fs sections paths) db is room)
            (λ d i r. add_paths-Comes paths (pages ++ here) d i r))

  empty-IsDatabase : memory < initial_size * 2 ^ fuel → IsDatabase memory fuel [] empty_database
  unfolding new_map last_with names_of
  empty-IsDatabase room =
      let (valid, length, nothing) = new_map-IsValid {V = Bytes} in
      record {
        valid = valid;
        valid_pwd = valid;
        room = room;
        room_pwd = room;
        files = nothing;
        directories = nothing;
        names = refl;
        lower = refl;
      }

-- The hash maps have fuel and memory for the pages, the names of files fit the buffer, `qsort` sorts,
-- its arrays are allocated, and no path is null: then `make_manpage_database` ends without a fault.
-- A lookup of a name gives the last file that has the name, in the order of the paths, of the
-- sections and of the matches of `glob`, with its path in the other map, and nothing for a name that
-- no file has. The names are those of the files, and their lower case is in step and in order.
pub make_manpage_database-IsDatabase :
    (qsort : (ℕ → ℕ → ℤ) → List ℕ → List ℕ) (memory fuel : ℕ) (fs : FileSystem)
    (cache c : Option Paths) (output : Option Bytes) (paths : List Bytes)
    → Sorts qsort
    → NamesFit fs
    → memory < initial_size * 2 ^ fuel
    → get_man_paths cache output ≡ done (c, map some paths)
    → HasRoomForAll memory fuel empty_database (pages_of_paths fs sections paths)
    → (db : Database) × (make_manpage_database qsort true memory fuel fs cache output empty_database
        ≡ done db)
      × ((k : Bytes)
          → hashmap_get db.manpage_database k
            ≡ done (
                Option.map
                  (λ (p : Bytes × Bytes). p.1)
                  (last_with k (pages_of_paths fs sections paths))))
      × ((k : Bytes)
          → hashmap_get db.manpage_database_pwd k
            ≡ done (
                Option.map
                  (λ (p : Bytes × Bytes). p.0)
                  (last_with k (pages_of_paths fs sections paths))))
      × IsInOrder (names_of (pages_of_paths fs sections paths)) db
unfolding make_manpage_database
make_manpage_database-IsDatabase qsort memory fuel fs cache c output paths sorts fit enough got
      room =
    let (db, ran, is, none_left) =
      add_paths-Comes memory fuel fs fit paths [] empty_database
        (empty-IsDatabase memory fuel enough) room in
    let (db', ran', order, files, directories) =
      sort_names-IsInOrder qsort db sorts (is.lower ∙ ap (map lowercase) (sym is.names)) in
    (
      db',
      rw got (ap (λ r. r >>= sort_names qsort true) ran ∙ ran'),
      (λ k. ap (λ m. hashmap_get m k) files ∙ is.files k),
      (λ k. ap (λ m. hashmap_get m k) directories ∙ is.directories k),
      subst (λ names. IsInOrder names db') is.names order,
    )
