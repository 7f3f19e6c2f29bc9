-- ===== src/Database/Names.antt =====
-- The arrays of names are sorted in step, if `qsort` sorts.
use mathlib.Core.Logic.Or
use mathlib.Core.List.{
  Perm, Mem, mem-cons_self, mem-cons_of_mem, eq-or-mem_of_mem-cons, not-mem-nil,
}
use mathlib.Core.List.Perm
use native.Mathlib.Bridge.{le_prop}
use mangl.Prelude.{
  ℕ, zero, suc, ◌+◌, ◌<◌, ◌≡◌, refl, sym, ap, ap₂, subst, ◌∙◌, true, inl, inr, List, [], ◌∷◌, ◌++◌,
  map, arith, append_assoc, ◌==◌, length, get_elem?, ℤ, value_or, Bytes, Bool-cases, get_elem?-lt,
  length-append, get_elem?-append_length,
}
use mangl.Text.{strcmp}
use mangl.Run.{done}
use mangl.Database.{Database, lowercase, cmp_manpage_name_idx, indices_from, gather, sort_names}
use mangl.Database.Compare.{IsOrder, IsSortedBy, cmp_manpage_name_idx-IsOrder}

-- What `qsort` is documented to do: it sorts by the comparison and keeps the elements.
abbrev pub Sorts : ((ℕ → ℕ → ℤ) → List ℕ → List ℕ) → Type 0
Sorts qsort =
    (cmp : ℕ → ℕ → ℤ)
    → IsOrder cmp
    → (xs : List ℕ) → Perm (qsort cmp xs) xs × IsSortedBy cmp (qsort cmp xs)

abbrev at : List Bytes → ℕ → Bytes
at tmp i = value_or (get_elem? tmp i) []

Mem-indices_from : (i k n : ℕ) → Mem i (indices_from k n) → i < k + n
Mem-indices_from i k zero h = absurd (not-mem-nil h)
Mem-indices_from i k (suc n) h =
    Or.elim le_prop (eq-or-mem_of_mem-cons h) (λ e. omega (arith, e))
      (λ m. omega (arith, Mem-indices_from i (suc k) n m))

gather-done :
    (tmp : List Bytes) (indices : List ℕ)
    → ((i : ℕ) → Mem i indices → i < length tmp)
    → gather tmp indices ≡ done (map (at tmp) indices)
gather-done tmp [] h = refl
gather-done tmp (i ∷ indices) h =
    let (s, e) = get_elem?-lt tmp i (h i mem-cons_self) in
    let rest = gather-done tmp indices (λ j m. h j (mem-cons_of_mem i m)) in rw (e, rest) refl

-- All elements, by their indices.
map-indices_from :
    (xs ys : List Bytes) → map (at (xs ++ ys)) (indices_from (length xs) (length ys)) ≡ ys
map-indices_from xs [] = refl
map-indices_from xs (y ∷ ys) =
    let next : length (xs ++ y ∷ []) ≡ suc (length xs) = length-append xs (y ∷ []) ∙ omega arith in
    ap₂ (λ a t. a ∷ t) (ap (λ o. value_or o []) (get_elem?-append_length xs y ys))
      (ap₂ (λ l n. map (at l) (indices_from n (length ys))) (sym (append_assoc xs (y ∷ []) ys))
          (sym next)
        ∙ map-indices_from (xs ++ y ∷ []) ys)

at-map : (tmp : List Bytes) (i : ℕ) → at (map lowercase tmp) i ≡ lowercase (at tmp i)
at-map [] i = refl
at-map (s ∷ tmp) zero = refl
at-map (s ∷ tmp) (suc i) = at-map tmp i

map-at :
    (tmp : List Bytes) (indices : List ℕ)
    → map (at (map lowercase tmp)) indices ≡ map lowercase (map (at tmp) indices)
map-at tmp [] = refl
map-at tmp (i ∷ indices) = ap₂ (λ a t. a ∷ t) (at-map tmp i) (map-at tmp indices)

IsSortedBy-map :
    (lower : List Bytes) (indices : List ℕ)
    → IsSortedBy (cmp_manpage_name_idx lower) indices
    → IsSortedBy strcmp (map (at lower) indices)
unfolding cmp_manpage_name_idx
IsSortedBy-map lower [] h = tt
IsSortedBy-map lower (i ∷ []) h = tt
IsSortedBy-map lower (i ∷ j ∷ indices) (h, hs) = (h, IsSortedBy-map lower (j ∷ indices) hs)

length-map : (tmp : List Bytes) → length (map lowercase tmp) ≡ length tmp
length-map [] = refl
length-map (s ∷ tmp) = ap suc (length-map tmp)

-- The names in their new order, with their lower case in step and in order.
pub record IsInOrder (names : List Bytes) (db : Database) : Type 0 where
  pub perm : Perm db.manpage_names names
  pub lower : db.manpage_names_lower ≡ map lowercase db.manpage_names
  pub sorted : IsSortedBy strcmp db.manpage_names_lower

-- With a `qsort` that sorts, memory for its arrays, and the lower case of the names as it is made,
-- the sort of the names ends without a fault. It keeps the names and the maps, and the lower case of
-- the names stands in step with them and in the order of `strcmp`.
pub sort_names-IsInOrder :
    (qsort : (ℕ → ℕ → ℤ) → List ℕ → List ℕ) (db : Database)
    → Sorts qsort
    → db.manpage_names_lower ≡ map lowercase db.manpage_names
    → (db' : Database) × (sort_names qsort true db ≡ done db')
      × IsInOrder db.manpage_names db'
      × (db'.manpage_database ≡ db.manpage_database)
      × (db'.manpage_database_pwd ≡ db.manpage_database_pwd)
unfolding sort_names
sort_names-IsInOrder qsort db sorts e = elim (Bool-cases (length db.manpage_names == 0)) [
  | inl z ↦
      let empty = nothing db.manpage_names z in
      (
        db,
        rw z refl,
        record {
          perm = Perm.refl db.manpage_names;
          lower = e;
          sorted = subst (IsSortedBy strcmp) (sym (e ∙ ap (map lowercase) empty)) tt;
        },
        refl,
        refl,
      )
  | inr z ↦
      let cmp = cmp_manpage_name_idx db.manpage_names_lower in
      let range = indices_from 0 (length db.manpage_names) in
      let (perm, sorted) = sorts cmp (cmp_manpage_name_idx-IsOrder db.manpage_names_lower) range in
      let inside : (i : ℕ) → Mem i (qsort cmp range) → i < length db.manpage_names = λ i m.
        omega (arith, Mem-indices_from i 0 (length db.manpage_names) ((Perm.mem_iff perm).0 m)) in
      let same : length db.manpage_names_lower ≡ length db.manpage_names =
        ap length e ∙ length-map db.manpage_names in
      let names = gather-done db.manpage_names (qsort cmp range) inside in
      let lower =
        gather-done db.manpage_names_lower (qsort cmp range)
          (λ i m. omega (arith, same, inside i m)) in
      (
        record db {
          manpage_names = map (at db.manpage_names) (qsort cmp range);
          manpage_names_lower = map (at db.manpage_names_lower) (qsort cmp range);
        },
        rw (z, names, lower) refl,
        record {
          perm =
              subst (Perm (map (at db.manpage_names) (qsort cmp range)))
                (map-indices_from [] db.manpage_names) (Perm.map (at db.manpage_names) perm);
          lower =
              ap (λ l. map (at l) (qsort cmp range)) e ∙ map-at db.manpage_names (qsort cmp range);
          sorted = IsSortedBy-map db.manpage_names_lower (qsort cmp range) sorted;
        },
        refl,
        refl,
      )
]
  where
    nothing : (names : List Bytes) → (length names == 0) ≡ true → names ≡ []
    nothing [] z = refl
    nothing (s ∷ names) z = absurd (ground arith)
