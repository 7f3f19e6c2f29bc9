-- ===== src/Text/Same.antt =====
-- `strcmp(a, b) == 0` as an equation.
use mangl.Prelude.{
  ℕ, ◌≡◌, ◌≢◌, refl, sym, ap₂, subst, true, false, inl, inr, [], ◌∷◌, arith, ◌==◌, map, length,
  take, Bytes, Bool-cases,
}
use mangl.Text.{same_text, is_prefix, is_prefix_ignore_case, to_lower}

pub same_text-eq : (s t : Bytes) → same_text s t ≡ true → s ≡ t
unfolding same_text
same_text-eq [] [] e = refl
same_text-eq [] (d ∷ t) e = absurd (cc)
same_text-eq (c ∷ s) [] e = absurd (cc)
same_text-eq (c ∷ s) (d ∷ t) e = elim (Bool-cases (c == d)) [
  | inl same ↦ ap₂ (λ x u. x ∷ u) (ground arith) (same_text-eq s t (rw same at e))
  | inr ne ↦ absurd (cc (rw ne at e))
]

pub same_text_self : (s : Bytes) → same_text s s ≡ true
unfolding same_text
same_text_self [] = refl
same_text_self (c ∷ s) = let e : (c == c) ≡ true = ground arith in rw e (same_text_self s)

pub same_text-ne : (s t : Bytes) → same_text s t ≡ false → s ≢ t
same_text-ne s t e same = cc (subst (λ u. same_text s u ≡ true) same (same_text_self s), e)

-- A text begins with its prefix.
pub is_prefix-take : (q bytes : Bytes) → is_prefix q bytes ≡ true → take (length q) bytes ≡ q
unfolding is_prefix
is_prefix-take [] bytes e = refl
is_prefix-take (c ∷ q) [] e = absurd (cc)
is_prefix-take (c ∷ q) (d ∷ bytes) e = elim (Bool-cases (c == d)) [
  | inl same ↦ ap₂ (λ x t. x ∷ t) (sym (ground arith)) (is_prefix-take q bytes (rw same at e))
  | inr ne ↦ absurd (cc (rw ne at e))
]

pub take-is_prefix : (q bytes : Bytes) → take (length q) bytes ≡ q → is_prefix q bytes ≡ true
unfolding is_prefix
take-is_prefix [] bytes e = refl
take-is_prefix (c ∷ q) [] e = absurd (cc)
take-is_prefix (c ∷ q) (d ∷ bytes) e =
    let same : (c == d) ≡ true = ground arith in rw same (take-is_prefix q bytes (cc))

eq_of_test : (a b : ℕ) → (a == b) ≡ true → b ≡ a
eq_of_test a b e = ground arith

test_of_eq : (a b : ℕ) → b ≡ a → (a == b) ≡ true
test_of_eq a b e = ground arith

cons_parts : (a b : ℕ) (s t : Bytes) → a ∷ s ≡ b ∷ t → (a ≡ b) × (s ≡ t)
cons_parts a b s t e = (cc, cc)

-- The same, but for the case of letters.
pub is_prefix_ignore_case-take :
    (q bytes : Bytes)
    → is_prefix_ignore_case q bytes ≡ true
    → map to_lower (take (length q) bytes) ≡ map to_lower q
unfolding is_prefix_ignore_case
is_prefix_ignore_case-take [] bytes e = refl
is_prefix_ignore_case-take (c ∷ q) [] e = absurd (cc)
is_prefix_ignore_case-take (c ∷ q) (d ∷ bytes) e = elim (Bool-cases (to_lower c == to_lower d)) [
  | inl same ↦
      ap₂ (λ x t. x ∷ t) (eq_of_test (to_lower c) (to_lower d) same)
        (is_prefix_ignore_case-take q bytes (rw same at e))
  | inr ne ↦ absurd (cc (rw ne at e))
]

pub take-is_prefix_ignore_case :
    (q bytes : Bytes)
    → map to_lower (take (length q) bytes) ≡ map to_lower q
    → is_prefix_ignore_case q bytes ≡ true
unfolding is_prefix_ignore_case
take-is_prefix_ignore_case [] bytes e = refl
take-is_prefix_ignore_case (c ∷ q) [] e = absurd (cc)
take-is_prefix_ignore_case (c ∷ q) (d ∷ bytes) e =
    let (first, rest) =
      cons_parts (to_lower d) (to_lower c) (map to_lower (take (length q) bytes)) (map to_lower q)
        e in
    rw (test_of_eq (to_lower c) (to_lower d) first) (take-is_prefix_ignore_case q bytes rest)
