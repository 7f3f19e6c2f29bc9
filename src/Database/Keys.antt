-- ===== src/Database/Keys.antt =====
-- What the database is to hold: under each name the last file that has it.
use mangl.Prelude.{
  ◌≡◌, ◌<◌, refl, ap, sym, ◌∙◌, Bool, true, false, Option, none, some, List, [], ◌∷◌, ◌++◌, map,
  arith, ltb, lt→ltb, if◌then◌else◌, length, value_or, Bytes,
}
use mangl.Text.{same_text}
use mangl.Run.{done, exited, fault}
use mangl.PageName.{get_page_name_and_section, base_name, split_name, strip_compression}
use mangl.FileSearch.{FileSystem}
use mangl.Database.{page_name_size, section_name_size, key_of, directory_pattern}

-- The name that the database gives a file, if it gives one.
unfoldable pub page_key : Bytes → Option Bytes
page_key file = elim (get_page_name_and_section file page_name_size section_name_size) [
  | done (some page) ↦ some (key_of page)
  | done none ↦ none
  | exited n ↦ none
  | fault ↦ none
]

-- The pages are pairs of a directory and a file.
unfoldable pub has_name : Bytes → Bytes × Bytes → Bool
unfolding page_key
has_name k (path, file) = elim (page_key file) [ none ↦ false | some key ↦ same_text key k ]

unfoldable pub last_with : Bytes → List (Bytes × Bytes) → Option (Bytes × Bytes)
last_with k [] = none
last_with k (page ∷ pages) = elim (last_with k pages) [
  | some p ↦ some p
  | none ↦ if has_name k page then some page else none
]

abbrev pub prepend : Option Bytes → List Bytes → List Bytes
prepend none names = names
prepend (some key) names = key ∷ names

-- The names in the order of the files.
unfoldable pub names_of : List (Bytes × Bytes) → List Bytes
names_of [] = []
names_of (page ∷ pages) = prepend (page_key page.1) (names_of pages)

abbrev pub pages_in : Bytes → List Bytes → List (Bytes × Bytes)
pages_in path files = map (λ file. (path, file)) files

-- The files that the patterns match, in the order of the loops.
abbrev pub pages_of_sections : FileSystem → Bytes → List Bytes → List (Bytes × Bytes)
pages_of_sections fs path [] = []
pages_of_sections fs path (section ∷ secs) =
    pages_in path (value_or (fs.glob (directory_pattern path section)) [])
    ++ pages_of_sections fs path secs

abbrev pub pages_of_paths : FileSystem → List Bytes → List Bytes → List (Bytes × Bytes)
pages_of_paths fs secs [] = []
pages_of_paths fs secs (path ∷ paths) =
    pages_of_sections fs path secs ++ pages_of_paths fs secs paths

pub last_with-append :
    (k : Bytes) (pages : List (Bytes × Bytes)) (page : Bytes × Bytes)
    → last_with k (pages ++ page ∷ []) ≡ (if has_name k page then some page else last_with k pages)
unfolding last_with
last_with-append k [] page = refl
last_with-append k (p ∷ pages) page = ground (arith, last_with-append k pages page)

prepend-append : (o : Option Bytes) (xs ys : List Bytes) → prepend o xs ++ ys ≡ prepend o (xs ++ ys)
prepend-append none xs ys = refl
prepend-append (some key) xs ys = refl

pub names_of-append :
    (pages : List (Bytes × Bytes)) (page : Bytes × Bytes)
    → names_of (pages ++ page ∷ []) ≡ names_of pages ++ prepend (page_key page.1) []
unfolding names_of
names_of-append [] page = refl
names_of-append (p ∷ pages) page =
    ap (prepend (page_key p.1)) (names_of-append pages page)
    ∙ sym (prepend-append (page_key p.1) (names_of pages) (prepend (page_key page.1) []))

-- A file with a name that fits the buffer is parsed without a fault.
pub get_page_name-done :
    (file : Bytes)
    → length (base_name file) < 256
    → (r : Option (Bytes × Bytes)) × (get_page_name_and_section file page_name_size
          section_name_size
        ≡ done r)
unfolding get_page_name_and_section
get_page_name-done [] h = (none, refl)
get_page_name-done (c ∷ file) h =
    let fits : ltb (length (base_name (c ∷ file))) 256 ≡ true =
      lt→ltb (length (base_name (c ∷ file))) 256 h in
    (
      split_name (strip_compression (base_name (c ∷ file))) page_name_size section_name_size,
      rw fits refl,
    )
