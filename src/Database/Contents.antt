-- ===== src/Database/Contents.antt =====
-- The database holds under each name the last file that has it, whatever files there are.
use mathlib.Core.Option
use native.Mathlib.Nat.{mul-le-mul_right}
use mangl.Prelude.{
  ℕ, ◌≡◌, ◌<◌, ◌≤◌, ◌*◌, ◌^◌, refl, ap, sym, ◌∙◌, Bool, true, false, Option, none, some, List, [],
  ◌∷◌, ◌++◌, map, arith, append-nil, if◌then◌else◌, length, Bytes, Option-cases, Bool-cases, inl,
  inr,
}
use mangl.Text.{same_text}
use mangl.Run.{Run, done, exited, fault}
use mangl.PageName.{get_page_name_and_section, base_name}
use mangl.HashMap.{HashMap, hashmap_put, hashmap_get, hashmap_remove}
use mangl.HashMap.Probe.{IsValid}
use mangl.HashMap.Map.{hashmap_get-put}
use mangl.HashMap.Remove.{hashmap_put-remove}
use mangl.Database.{
  Database, lowercase, key_of, page_name_size, section_name_size, remove_old, put_page, add_file,
}
use mangl.Database.Keys.{
  page_key, has_name, last_with, names_of, prepend, last_with-append, names_of-append,
  get_page_name-done,
}

result : {A : Type 0} → Run (Option A) → Option A
result (done a) = a
result (exited n) = none
result fault = none

done-injective : {A : Type 0} {a b : Option A} → done a ≡ done b → a ≡ b
unfolding result
done-injective e = ap result e

-- The pages of the database, and what it says of them; the maps are valid, and have the fuel that
-- their memory asks for.
pub record IsDatabase (memory fuel : ℕ) (pages : List (Bytes × Bytes)) (db : Database)
    : Type 0 where
  pub valid : IsValid db.manpage_database
  pub valid_pwd : IsValid db.manpage_database_pwd
  pub room : memory < db.manpage_database.table_size * 2 ^ fuel
  pub room_pwd : memory < db.manpage_database_pwd.table_size * 2 ^ fuel
  pub files :
      (k : Bytes)
      → hashmap_get db.manpage_database k
        ≡ done (Option.map (λ (p : Bytes × Bytes). p.1) (last_with k pages))
  pub directories :
      (k : Bytes)
      → hashmap_get db.manpage_database_pwd k
        ≡ done (Option.map (λ (p : Bytes × Bytes). p.0) (last_with k pages))
  pub names : db.manpage_names ≡ names_of pages
  pub lower : db.manpage_names_lower ≡ map lowercase (names_of pages)

-- The map has a new value for a key, and is else the same.
record IsUpdated (m : HashMap Bytes) (key v : Bytes) (m' : HashMap Bytes) : Type 0 where
  valid : IsValid m'
  grows : m.table_size ≤ m'.table_size
  lookups :
      (k : Bytes)
      → (a : Option Bytes) × (hashmap_get m k ≡ done a)
        × (hashmap_get m' k ≡ done (if same_text key k then some v else a))

module _ (memory fuel : ℕ) where
  -- The map has memory for the key.
  abbrev pub HasRoom : HashMap Bytes → Bytes → Bytes → Type 0
  HasRoom m key v =
      (r : HashMap Bytes × Bool) → hashmap_put memory fuel m key v ≡ done r → r.1 ≡ true

  -- Both maps have memory for a page, if its name is new.
  abbrev pub HasRoomFor : Database → Bytes × Bytes → Type 0
  HasRoomFor db (path, file) =
      (key : Bytes)
      → page_key file ≡ some key
      → hashmap_get db.manpage_database key ≡ done none
      → HasRoom db.manpage_database key file × HasRoom db.manpage_database_pwd key path

  -- The same, for every page in turn.
  abbrev pub HasRoomForAll : Database → List (Bytes × Bytes) → Type 0
  HasRoomForAll db [] = Unit {0}
  HasRoomForAll db (page ∷ pages) =
      HasRoomFor db page
      × ((db' : Database)
          → add_file memory fuel page.0 page.1 db ≡ done db'
          → HasRoomForAll db' pages)

  put_new :
      (m : HashMap Bytes) (key v : Bytes)
      → IsValid m
      → memory < m.table_size * 2 ^ fuel
      → HasRoom m key v
      → (r : HashMap Bytes × Bool) × (hashmap_put memory fuel m key v ≡ done r)
        × IsUpdated m key v r.0
  put_new m key v valid room has =
      let (r, ran, valid', grows, lookups) = hashmap_get-put memory fuel m key v valid room in
      (r, ran, record { valid = valid'; grows = grows; lookups = lookups (has r ran) })

  replace :
      (m : HashMap Bytes) (key v w : Bytes)
      → IsValid m
      → hashmap_get m key ≡ done (some w)
      → (m' : HashMap Bytes) × (hashmap_remove m key ≡ done (m', true))
        × (r : HashMap Bytes × Bool) × (hashmap_put memory fuel m' key v ≡ done r)
        × IsUpdated m key v r.0
  replace m key v w valid got =
      let (m', r, removed, gone, ran, valid', long, size, lookups) =
        hashmap_put-remove memory fuel m key v w valid got in
      (
        m',
        removed,
        (r, true),
        ran,
        record { valid = valid'; grows = omega (arith, size); lookups = lookups },
      )

  module _ (pages : List (Bytes × Bytes)) (db : Database) (is : IsDatabase memory fuel pages db)
      (path file : Bytes) where
    looked_up :
        {m m' : HashMap Bytes} {key v : Bytes} (part : Bytes × Bytes → Bytes)
        → page_key file ≡ some key
        → IsUpdated m key v m'
        → ((k : Bytes) → hashmap_get m k ≡ done (Option.map part (last_with k pages)))
        → part (path, file) ≡ v
        → (k : Bytes)
        → hashmap_get m' k ≡ done (Option.map part (last_with k (pages ++ (path, file) ∷ [])))
    unfolding has_name
    looked_up {key = key} part named set before is_v k =
        let (a, got, got') = set.lookups k in
        let was = done-injective (sym got ∙ before k) in
        let name : has_name k (path, file) ≡ same_text key k = rw (has_name, named) refl in
        rw (last_with-append k pages (path, file), name)
          (elim (Bool-cases (same_text key k)) [
            | inl e ↦ rw e (rw e at got' ∙ ap (λ s. done (some s)) (sym is_v))
            | inr e ↦ rw e (rw e at got' ∙ ap done was)
          ])

    added :
        {key : Bytes} {m m' : HashMap Bytes}
        → page_key file ≡ some key
        → IsUpdated db.manpage_database key file m
        → IsUpdated db.manpage_database_pwd key path m'
        → IsDatabase memory fuel (pages ++ (path, file) ∷ []) (record {
          manpage_database = m;
          manpage_database_pwd = m';
          manpage_names = db.manpage_names ++ key ∷ [];
          manpage_names_lower = db.manpage_names_lower ++ lowercase key ∷ [];
        })
    added {key} {m} {m'} named set set' =
        let names : names_of (pages ++ (path, file) ∷ []) ≡ names_of pages ++ key ∷ [] =
          names_of-append pages (path, file) ∙ ap (λ o. names_of pages ++ prepend o []) named in
        record {
          valid = set.valid;
          valid_pwd = set'.valid;
          room = omega (arith, is.room, mul-le-mul_right (2 ^ fuel) set.grows);
          room_pwd = omega (arith, is.room_pwd, mul-le-mul_right (2 ^ fuel) set'.grows);
          files = looked_up (λ p. p.1) named set is.files refl;
          directories = looked_up (λ p. p.0) named set' is.directories refl;
          names = ap (λ l. l ++ key ∷ []) is.names ∙ sym names;
          lower =
              ap (λ l. l ++ lowercase key ∷ []) is.lower
              ∙ sym (map-append (names_of pages) key)
              ∙ ap (map lowercase) (sym names);
        }
      where
        map-append :
            (l : List Bytes) (key : Bytes)
            → map lowercase (l ++ key ∷ []) ≡ map lowercase l ++ lowercase key ∷ []
        map-append [] key = refl
        map-append (s ∷ l) key = ap (λ t. lowercase s ∷ t) (map-append l key)

    -- A file that is no page changes nothing.
    skipped : page_key file ≡ none → IsDatabase memory fuel (pages ++ (path, file) ∷ []) db
    unfolding has_name
    skipped unnamed = record {
      valid = is.valid;
      valid_pwd = is.valid_pwd;
      room = is.room;
      room_pwd = is.room_pwd;
      files = λ k.
          is.files k ∙ ap (λ l. done (Option.map (λ (p : Bytes × Bytes). p.1) l)) (sym (last k));
      directories = λ k.
          is.directories k
          ∙ ap (λ l. done (Option.map (λ (p : Bytes × Bytes). p.0) l)) (sym (last k));
      names = is.names ∙ sym names;
      lower = is.lower ∙ ap (map lowercase) (sym names);
    }
      where
        last : (k : Bytes) → last_with k (pages ++ (path, file) ∷ []) ≡ last_with k pages
        last k =
            let no : has_name k (path, file) ≡ false = rw (has_name, unnamed) refl in
            last_with-append k pages (path, file) ∙ rw no refl

        names : names_of (pages ++ (path, file) ∷ []) ≡ names_of pages
        names =
            names_of-append pages (path, file)
            ∙ ap (λ o. names_of pages ++ prepend o []) unnamed
            ∙ append-nil (names_of pages)

    -- A file with a name: the old page of the name goes, if there is one, and the new one comes.
    named-IsDatabase :
        (page : Bytes × Bytes)
        → get_page_name_and_section file page_name_size section_name_size ≡ done (some page)
        → HasRoomFor db (path, file)
        → (db' : Database) × (add_file memory fuel path file db ≡ done db')
          × IsDatabase memory fuel (pages ++ (path, file) ∷ []) db'
    unfolding add_file page_key
    named-IsDatabase page parsed has =
        let key = key_of page in
        let named : page_key file ≡ some key = rw (page_key, parsed) refl in
        elim (Option-cases (last_with key pages)) [
          | inl e ↦
              let new =
                is.files key ∙ ap (λ l. done (Option.map (λ (p : Bytes × Bytes). p.1) l)) e in
              let (room, room_pwd) = has key named new in
              let (r, ran, set) = put_new db.manpage_database key file is.valid is.room room in
              let (s, ran', set') =
                put_new db.manpage_database_pwd key path is.valid_pwd is.room_pwd room_pwd in
              (_, rw (parsed, remove_old, new, put_page, ran, ran') refl, added named set set')
          | inr (old, e) ↦
              let there =
                is.files key ∙ ap (λ l. done (Option.map (λ (p : Bytes × Bytes). p.1) l)) e in
              let there_pwd =
                is.directories key ∙ ap (λ l. done (Option.map (λ (p : Bytes × Bytes). p.0) l)) e in
              let (m, removed, r, ran, set) =
                replace db.manpage_database key file old.1 is.valid there in
              let (m', removed', s, ran', set') =
                replace db.manpage_database_pwd key path old.0 is.valid_pwd there_pwd in
              (
                _,
                rw (parsed, remove_old, there, removed, removed', put_page, ran, ran') refl,
                added named set set',
              )
        ]

    pub add_file-IsDatabase :
        length (base_name file) < 256
        → HasRoomFor db (path, file)
        → (db' : Database) × (add_file memory fuel path file db ≡ done db')
          × IsDatabase memory fuel (pages ++ (path, file) ∷ []) db'
    unfolding add_file page_key
    add_file-IsDatabase fits has =
        let (r, parsed) = get_page_name-done file fits in
        elim (Option-cases r) [
          | inl e ↦ (db, rw (parsed, e) refl, skipped (rw (page_key, parsed, e) refl))
          | inr (page, e) ↦ named-IsDatabase page (parsed ∙ ap done e) has
        ]
