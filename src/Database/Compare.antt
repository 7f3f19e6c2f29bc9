-- ===== src/Database/Compare.antt =====
-- `strcmp` orders the names, and so `cmp_manpage_name_idx` orders the indices.
use mangl.Prelude.{
  ℕ, ◌≡◌, refl, Bool, true, ◌⊎◌, inl, inr, List, [], ◌∷◌, arith, ltb, ◌==◌, if◌then◌else◌,
  get_elem?, ℤ, pos, leb_ℤ, value_or, Bytes,
}
use mangl.Text.{strcmp}
use mangl.Database.{cmp_manpage_name_idx}

-- `a` does not come behind `b`.
abbrev pub comes {ℓ} : {A : Type ℓ} → (A → A → ℤ) → A → A → Bool
comes cmp a b = leb_ℤ (cmp a b) (pos 0)

-- A comparison that `qsort` may be given.
abbrev pub IsOrder {ℓ} : {A : Type ℓ} → (A → A → ℤ) → Type ℓ
IsOrder {A = A} cmp =
    ((a b : A) → (comes cmp a b ≡ true) ⊎ (comes cmp b a ≡ true))
    × ((a b c : A) → comes cmp a b ≡ true → comes cmp b c ≡ true → comes cmp a c ≡ true)

-- Each element comes before the next.
abbrev pub IsSortedBy : {A : Type 0} → (A → A → ℤ) → List A → Type 0
IsSortedBy cmp [] = Unit {0}
IsSortedBy cmp (a ∷ []) = Unit {0}
IsSortedBy cmp (a ∷ b ∷ xs) = (comes cmp a b ≡ true) × IsSortedBy cmp (b ∷ xs)

strcmp-cons :
    (c d : ℕ) (s t : Bytes)
    → comes strcmp (c ∷ s) (d ∷ t) ≡ (if c == d then comes strcmp s t else ltb c d)
unfolding strcmp
strcmp-cons c d s t = ground arith

strcmp-total : (s t : Bytes) → (comes strcmp s t ≡ true) ⊎ (comes strcmp t s ≡ true)
unfolding strcmp
strcmp-total [] [] = inl refl
strcmp-total [] (d ∷ t) = inl refl
strcmp-total (c ∷ s) [] = inr refl
strcmp-total (c ∷ s) (d ∷ t) =
    ground (arith, strcmp-cons c d s t, strcmp-cons d c t s, strcmp-total s t)

strcmp_trans :
    (s t u : Bytes) → comes strcmp s t ≡ true → comes strcmp t u ≡ true → comes strcmp s u ≡ true
unfolding strcmp
strcmp_trans [] [] u h k = k
strcmp_trans [] (d ∷ t) [] h k = refl
strcmp_trans [] (d ∷ t) (e ∷ u) h k = refl
strcmp_trans (c ∷ s) [] u h k = absurd (cc)
strcmp_trans (c ∷ s) (d ∷ t) [] h k = absurd (cc)
strcmp_trans (c ∷ s) (d ∷ t) (e ∷ u) h k =
    ground
      (arith, strcmp-cons c d s t, strcmp-cons d e t u, strcmp-cons c e s u, strcmp_trans s t u)

pub strcmp-IsOrder : IsOrder strcmp
strcmp-IsOrder = (strcmp-total, strcmp_trans)

pub cmp_manpage_name_idx-IsOrder : (lower : List Bytes) → IsOrder (cmp_manpage_name_idx lower)
unfolding cmp_manpage_name_idx
cmp_manpage_name_idx-IsOrder lower = (
  (λ a b. strcmp-total (value_or (get_elem? lower a) []) (value_or (get_elem? lower b) [])),
  (λ a b c.
      strcmp_trans (value_or (get_elem? lower a) []) (value_or (get_elem? lower b) [])
        (value_or (get_elem? lower c) [])),
)
