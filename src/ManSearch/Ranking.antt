-- ===== src/ManSearch/Ranking.antt =====
-- What the list of results is to be: the hits by goodness, the later one first where two are equal.
use mathlib.Core.Option.{some-injective}
use mathlib.Core.List.{Perm, perm_middle}
use mathlib.Core.List.Perm
use mangl.Prelude.{
  ℕ, zero, suc, ◌+◌, ◌≤◌, ◌≡◌, refl, ap, sym, ◌∙◌, Bool, inl, inr, none, some, List, [], ◌∷◌, ◌++◌,
  arith, if◌then◌else◌, length, get_elem?, take, append-nil, take-take_le, get_elem?-lt, ℤ, ltb_ℤ,
  ◌≤ℤ◌, -ℤ_parts, Bool-cases, Bytes,
}
use mangl.ManSearch.{Match, compar_match_rev, find_string, goodness_of}
use mangl.ManSearch.Bisect.{before, rank, IsParted}
use mangl.ManSearch.Insert.{insert_at}

-- `a` is a better hit than `b`.
abbrev pub beats : Match → Match → Bool
beats a b = ltb_ℤ b.goodness a.goodness

-- In front of the first hit that is not better.
unfoldable pub insert_ranked : Match → List Match → List Match
insert_ranked m [] = m ∷ []
insert_ranked m (x ∷ xs) = if beats x m then x ∷ insert_ranked m xs else m ∷ x ∷ xs

-- All hits, the loop's way round: `candidates term names i` are those of the names from `i` on.
unfoldable pub candidates : Bytes → List Bytes → ℕ → List Match
candidates term [] i = []
candidates term (name ∷ names) i = elim (find_string term name) [
  | none ↦ candidates term names (i + 1)
  | some position ↦
      record { idx = i; goodness = goodness_of term name position } ∷ candidates term names (i + 1)
]

unfoldable pub insert_all : List Match → List Match → List Match
insert_all ranked [] = ranked
insert_all ranked (m ∷ ms) = insert_all (insert_ranked m ranked) ms

-- All the hits of a list in order.
abbrev pub ranking : List Match → List Match
ranking ms = insert_all [] ms

-- Every hit is at least as good as those behind it.
abbrev pub AllLe : ℤ → List Match → Type 0
AllLe g [] = Unit {0}
AllLe g (x ∷ xs) = (x.goodness ≤ℤ g) × AllLe g xs

abbrev pub IsRanked : List Match → Type 0
IsRanked [] = Unit {0}
IsRanked (x ∷ xs) = AllLe x.goodness xs × IsRanked xs

AllLe-trans : (g h : ℤ) (xs : List Match) → g ≤ℤ h → AllLe g xs → AllLe h xs
AllLe-trans g h [] l a = tt
AllLe-trans g h (x ∷ xs) l a = (omega arith, AllLe-trans g h xs l a.1)

AllLe-insert_ranked :
    (g : ℤ) (m : Match) (xs : List Match)
    → m.goodness ≤ℤ g
    → AllLe g xs
    → AllLe g (insert_ranked m xs)
unfolding insert_ranked
AllLe-insert_ranked g m [] l a = (l, tt)
AllLe-insert_ranked g m (x ∷ xs) l a = ground (arith, AllLe-insert_ranked g m xs l a.1)

-- Inserting keeps the order.
pub insert_ranked-IsRanked :
    (m : Match) (xs : List Match) → IsRanked xs → IsRanked (insert_ranked m xs)
unfolding insert_ranked
insert_ranked-IsRanked m [] r = (tt, tt)
insert_ranked-IsRanked m (x ∷ xs) r = elim (Bool-cases (beats x m)) [
  | inl e ↦
      rw e (AllLe-insert_ranked x.goodness m xs (ground arith) r.0, insert_ranked-IsRanked m xs r.1)
  | inr e ↦ rw e ((ground arith, AllLe-trans x.goodness m.goodness xs (ground arith) r.0), r)
]

pub insert_all-IsRanked : (ms xs : List Match) → IsRanked xs → IsRanked (insert_all xs ms)
unfolding insert_all
insert_all-IsRanked [] xs r = r
insert_all-IsRanked (m ∷ ms) xs r =
    insert_all-IsRanked ms (insert_ranked m xs) (insert_ranked-IsRanked m xs r)

insert_ranked-perm : (m : Match) (xs : List Match) → Perm (insert_ranked m xs) (m ∷ xs)
unfolding insert_ranked
insert_ranked-perm m [] = Perm.refl (m ∷ [])
insert_ranked-perm m (x ∷ xs) = elim (Bool-cases (beats x m)) [
  | inl e ↦ rw e (Perm.trans (Perm.cons x (insert_ranked-perm m xs)) (Perm.swap m x xs))
  | inr e ↦ rw e (Perm.refl (m ∷ x ∷ xs))
]

insert_all-perm : (ms xs : List Match) → Perm (insert_all xs ms) (ms ++ xs)
unfolding insert_all
insert_all-perm [] xs = Perm.refl xs
insert_all-perm (m ∷ ms) xs =
    Perm.trans (insert_all-perm ms (insert_ranked m xs))
      (Perm.trans (Perm.append (Perm.refl ms) (insert_ranked-perm m xs)) (perm_middle ms xs))

-- The ranking holds each hit as often as the list does.
pub ranking-perm : (ms : List Match) → Perm (ranking ms) ms
ranking-perm ms = rw (append-nil ms) at (insert_all-perm ms [])

take-cut : (n : ℕ) (x : Match) (xs : List Match) → take n (x ∷ take n xs) ≡ take n (x ∷ xs)
take-cut zero x xs = refl
take-cut (suc n) x xs = ap (λ t. x ∷ t) (take-take_le n (suc n) xs (omega arith))

-- Cutting the list off before an insertion loses nothing of the first `n`.
pub take-insert_ranked :
    (n : ℕ) (m : Match) (xs : List Match)
    → take n (insert_ranked m (take n xs)) ≡ take n (insert_ranked m xs)
unfolding insert_ranked
take-insert_ranked zero m xs = refl
take-insert_ranked (suc n) m [] = refl
take-insert_ranked (suc n) m (x ∷ xs) = elim (Bool-cases (beats x m)) [
  | inl e ↦ rw e (ap (λ t. x ∷ t) (take-insert_ranked n m xs))
  | inr e ↦ rw e (ap (λ t. m ∷ t) (take-cut n x xs))
]

pub take-IsRanked : (n : ℕ) (xs : List Match) → IsRanked xs → IsRanked (take n xs)
take-IsRanked zero xs r = tt
take-IsRanked (suc n) [] r = tt
take-IsRanked (suc n) (x ∷ xs) r = (AllLe-take n xs r.0, take-IsRanked n xs r.1)
  where
    AllLe-take : (n : ℕ) (xs : List Match) → AllLe x.goodness xs → AllLe x.goodness (take n xs)
    AllLe-take zero xs a = tt
    AllLe-take (suc n) [] a = tt
    AllLe-take (suc n) (y ∷ ys) a = (a.0, AllLe-take n ys a.1)

pub length-insert_ranked :
    (m : Match) (xs : List Match) → length (insert_ranked m xs) ≡ suc (length xs)
unfolding insert_ranked
length-insert_ranked m [] = refl
length-insert_ranked m (x ∷ xs) = ground (arith, length-insert_ranked m xs)

pub length-insert_all : (ms xs : List Match) → length (insert_all xs ms) ≡ length xs + length ms
unfolding insert_all
length-insert_all [] xs = omega arith
length-insert_all (m ∷ ms) xs =
    omega (arith, length-insert_all ms (insert_ranked m xs), length-insert_ranked m xs)

-- The comparison function of main.c is the order by goodness.
before-beats : (m x : Match) → before compar_match_rev m x ≡ beats x m
unfolding compar_match_rev
before-beats m x = ground (arith, -ℤ_parts x.goodness m.goodness)

ranked_get :
    (xs : List Match) (i j : ℕ) {x y : Match}
    → IsRanked xs
    → i ≤ j
    → get_elem? xs i ≡ some x
    → get_elem? xs j ≡ some y
    → y.goodness ≤ℤ x.goodness
ranked_get [] i j r l p q = absurd (cc)
ranked_get (z ∷ xs) zero zero {x} {y} r l p q = rw (some-injective x y (sym p ∙ q)) (omega arith)
ranked_get (z ∷ xs) zero (suc j) {x} {y} r l p q = rw (← some-injective z x p) (get_le xs j r.0 q)
  where
    get_le :
        (xs : List Match) (j : ℕ)
        → AllLe z.goodness xs
        → get_elem? xs j ≡ some y
        → y.goodness ≤ℤ z.goodness
    get_le [] j a q = absurd (cc)
    get_le (w ∷ xs) zero a q = rw (← some-injective w y q) a.0
    get_le (w ∷ xs) (suc j) a q = get_le xs j a.1 q
ranked_get (z ∷ xs) (suc i) zero r l p q = absurd (omega arith)
ranked_get (z ∷ xs) (suc i) (suc j) r l p q = ranked_get xs i j r.1 (omega arith) p q

-- So a ranked list is what `binary_search_first` wants.
pub IsRanked-IsParted : (m : Match) (xs : List Match) → IsRanked xs → IsParted compar_match_rev m xs
IsRanked-IsParted m xs r i j l at lj x p =
    let (y, q) = get_elem?-lt xs j lj in
    let by = sym (before-beats m y) ∙ at y q in
    let le = ranked_get xs i j r l p q in before-beats m x ∙ ground arith

pub insert_at-rank :
    (m : Match) (xs : List Match) → insert_at (rank compar_match_rev m xs) m xs ≡ insert_ranked m xs
unfolding insert_at insert_ranked rank
insert_at-rank m [] = refl
insert_at-rank m (x ∷ xs) = elim (Bool-cases (beats x m)) [
  | inl e ↦ rw (before-beats m x ∙ e, e) (ap (λ t. x ∷ t) (insert_at-rank m xs))
  | inr e ↦ rw (before-beats m x ∙ e, e)
]
