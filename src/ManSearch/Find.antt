-- ===== src/ManSearch/Find.antt =====
-- `find_string` of main.c: which position it returns, and which one it never reports.
use mangl.Prelude.{
  ℕ, zero, suc, ◌+◌, ◌-◌, ◌<◌, ◌≡◌, refl, true, false, inl, inr, Option, none, some, [], ◌∷◌, ◌++◌,
  arith, length, drop, Bytes, Bool-cases, length-append,
}
use mangl.Text.{is_prefix}
use mangl.ManSearch.{tail, find_loop, find_string}

-- The term stands in the text at `i`.
abbrev pub Occurs : Bytes → Bytes → ℕ → Type 0
Occurs term text i = is_prefix term (drop i text) ≡ true

-- What the loop returns: the first position among the `n` next ones, or none of these matches.
abbrev FirstBelow : Bytes → Bytes → ℕ → ℕ → Option ℕ → Type 0
FirstBelow term text n i none = (k : ℕ) → k < n → is_prefix term (drop k text) ≡ false
FirstBelow term text n i (some p) =
    (k : ℕ) × (p ≡ i + k)
    × (k < n)
    × Occurs term text k
    × ((j : ℕ) → j < k → is_prefix term (drop j text) ≡ false)

drop-tail : (k : ℕ) (text : Bytes) → drop (suc k) text ≡ drop k (tail text)
drop-tail zero [] = refl
drop-tail (suc k) [] = refl
drop-tail k (c ∷ text) = refl

FirstBelow-suc :
    (term text : Bytes) (n i : ℕ) (r : Option ℕ)
    → is_prefix term text ≡ false
    → FirstBelow term (tail text) n (i + 1) r
    → FirstBelow term text (suc n) i r
FirstBelow-suc term text n i none e h = later
  where
    later : (k : ℕ) → k < suc n → is_prefix term (drop k text) ≡ false
    later zero l = e
    later (suc k) l = rw drop-tail (h k (omega arith))
FirstBelow-suc term text n i (some p) e (k, at, l, occurs, first) =
    (suc k, omega arith, omega arith, rw drop-tail occurs, earlier)
  where
    earlier : (j : ℕ) → j < suc k → is_prefix term (drop j text) ≡ false
    earlier zero l = e
    earlier (suc j) l = rw drop-tail (first j (omega arith))

find_loop-FirstBelow :
    (term text : Bytes) (n i : ℕ) → FirstBelow term text n i (find_loop term n text i)
unfolding find_loop
find_loop-FirstBelow term text zero i = λ k l. absurd (omega arith)
find_loop-FirstBelow term text (suc n) i = elim (Bool-cases (is_prefix term text)) [
  | inl e ↦ rw e (0, omega arith, omega arith, e, λ j l. absurd (omega arith))
  | inr e ↦
      rw e (FirstBelow-suc term text n i _ e (find_loop-FirstBelow term (tail text) n (i + 1)))
]

-- The contract of `find_string`, result by result: a position is the first occurrence, and it ends
-- before the end of the text; -1 means that no occurrence ends before the end of the text.
abbrev pub IsFirst : Bytes → Bytes → Option ℕ → Type 0
IsFirst term text none =
    (k : ℕ) → k + length term < length text → is_prefix term (drop k text) ≡ false
IsFirst term text (some p) =
    (p + length term < length text)
    × Occurs term text p
    × ((j : ℕ) → j < p → is_prefix term (drop j text) ≡ false)

FirstBelow→IsFirst :
    (term text : Bytes) (r : Option ℕ)
    → FirstBelow term text (length text - length term) 0 r
    → IsFirst term text r
FirstBelow→IsFirst term text none h = λ k l. h k (omega arith)
FirstBelow→IsFirst term text (some p) (k, at, l, occurs, first) =
    let e : k ≡ p = omega arith in (omega arith, rw e at occurs, λ j lj. first j (omega arith))

-- `find_string` returns the first position at which the term stands in the text, if that occurrence
-- ends before the text does, and -1 exactly when there is no such position.
pub find_string-IsFirst : (term text : Bytes) → IsFirst term text (find_string term text)
unfolding find_string
find_string-IsFirst term text =
    FirstBelow→IsFirst term text _ (find_loop-FirstBelow term text (length text - length term) 0)

-- An occurrence that is the end of the text is never found: for a text that ends in the term,
-- with no earlier occurrence, the result is -1.
pub find_string_at_end :
    (start term : Bytes)
    → ((j : ℕ) → j < length start → is_prefix term (drop j (start ++ term)) ≡ false)
    → find_string term (start ++ term) ≡ none
find_string_at_end start term before =
    refute (find_string term (start ++ term)) (find_string-IsFirst term (start ++ term))
  where
    refute : (r : Option ℕ) → IsFirst term (start ++ term) r → r ≡ none
    refute none h = refl
    refute (some p) (l, occurs, first) =
        cc (occurs, before p (omega (arith, length-append start term)))
