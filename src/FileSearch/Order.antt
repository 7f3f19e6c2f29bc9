-- ===== src/FileSearch/Order.antt =====
-- The search goes through the directories in the order of the paths, and through the sections in the
-- order of their list: the first place that has the page wins.
use mangl.Prelude.{
  ℕ, ◌<◌, ◌≡◌, true, false, Option, none, some, List, [], ◌∷◌, ◌++◌, map, length, Bytes,
}
use mangl.Run.{done}
use mangl.FileSearch.{FileSystem, fs_lookup, sections, file_size, man_file, cat_file}

-- The places in the order of the search.
abbrev pub places_in : Bytes → List Bytes → List (Bytes × Bytes)
places_in path secs = map (λ sec. (path, sec)) secs

abbrev pub places : List Bytes → List Bytes → List (Bytes × Bytes)
places [] secs = []
places (path ∷ paths) secs = places_in path secs ++ places paths secs

-- The sections that are searched.
abbrev pub searched : Option Bytes → List Bytes
searched (some sec) = sec ∷ []
searched none = sections

-- The matches that `glob` gives are never none, and the first fits the buffer.
abbrev pub GlobFits : FileSystem → Type 0
GlobFits fs =
    (pattern : Bytes) (matches : List Bytes)
    → fs.glob pattern ≡ some matches
    → (match : Bytes) × (more : List Bytes) × (matches ≡ match ∷ more) × (length match < file_size)

-- The names of the files that there are fit the caller's buffer.
abbrev pub FilesFit : FileSystem → ℕ → Type 0
FilesFit fs out_size = (file : Bytes) → fs.stat file ≡ true → length file < out_size

module _ (fs : FileSystem) (out_size : ℕ) (name : Bytes) where
  -- What `fs_lookup` finds at a place.
  abbrev pub IsLookedUp : Bytes × Bytes → Option Bytes → Type 0
  IsLookedUp p none =
      (fs.stat (man_file p.0 p.1 name) ≡ false) × (fs.stat (cat_file p.0 p.1 name) ≡ false)
  IsLookedUp p (some file) = fs.stat file ≡ true

  abbrev pub Finds : Bytes × Bytes → Option Bytes → Type 0
  Finds p r = (fs_lookup fs out_size p.0 p.1 name ≡ done r) × IsLookedUp p r

  -- The page is at none of the places.
  abbrev pub NoneAt : List (Bytes × Bytes) → Type 0
  NoneAt [] = Unit {0}
  NoneAt (p ∷ ps) = Finds p none × NoneAt ps

  -- The file is that of the first place that has one.
  abbrev pub IsFirstAt : List (Bytes × Bytes) → Bytes → Type 0
  IsFirstAt ps file =
      (before after : List (Bytes × Bytes)) × (p : Bytes × Bytes) × (ps ≡ before ++ p ∷ after)
      × NoneAt before
      × Finds p (some file)

  abbrev pub IsAnswer : List (Bytes × Bytes) → Option Bytes → Type 0
  IsAnswer ps none = NoneAt ps
  IsAnswer ps (some file) = IsFirstAt ps file
