-- ===== src/ManSearch/Bisect.antt =====
-- `binary_search_first` of main.c: it stays inside the data, its loop ends, and on data whose
-- elements before the key come first it returns how many those are.
use mathlib.Core.Option.{some-injective}
use mangl.Prelude.{
  sym, get_elem?-append_left, lt-of_get_elem?, ◌++◌, ℕ, zero, suc, ◌+◌, ◌-◌, ◌/◌, ◌≤◌, ◌<◌, ◌≡◌,
  refl, ap, ◌∙◌, Bool, true, false, inl, inr, Option, some, List, [], ◌∷◌, arith, ltb, ◌==◌,
  if◌then◌else◌, length, get_elem?, get_elem?-lt, ℤ, pos, ltb_ℤ, leb_ℤ, Bool-cases,
}
use mangl.ManSearch.{bisect, binary_search_first}

module _ {A : Type 0} (compar : A → A → ℤ) (key : A) where
  -- The element stands before the key: `compar(key, el) > 0`.
  abbrev pub before : A → Bool
  before el = ltb_ℤ (pos 0) (compar key el)

  -- What a test at index `i` gives, if there is an element.
  abbrev pub At : List A → ℕ → Bool → Type 0
  At xs i b = (el : A) → get_elem? xs i ≡ some el → before el ≡ b

  -- How many elements at the front stand before the key.
  unfoldable pub rank : List A → ℕ
  rank [] = 0
  rank (x ∷ xs) = if before x then suc (rank xs) else 0

  -- All elements that stand before the key come first.
  abbrev pub IsParted : List A → Type 0
  IsParted xs = (i j : ℕ) → i ≤ j → At xs j true → j < length xs → At xs i true

  -- The place where the tests change from true to false.
  record Boundary (xs : List A) (hi : ℕ) (r : Option ℕ) : Type 0 where
    last : ℕ
    found : r ≡ some (suc last)
    inside : suc last ≤ hi
    below : At xs last true
    above : At xs (suc last) false

  At-get_elem? :
      (xs : List A) (i : ℕ) {el : A} {b : Bool}
      → get_elem? xs i ≡ some el
      → before el ≡ b
      → At xs i b
  At-get_elem? xs i {el} read e = λ x r. ap before (some-injective x el (sym r ∙ read)) ∙ e

  Boundary-le :
      {xs : List A} {mid hi : ℕ} {r : Option ℕ} → mid ≤ hi → Boundary xs mid r → Boundary xs hi r
  Boundary-le l b = record {
    last = b.last;
    found = b.found;
    inside = omega arith;
    below = b.below;
    above = b.above;
  }

  bisect-Boundary :
      (fuel : ℕ) (xs : List A) (lo hi : ℕ)
      → lo < hi
      → hi ≤ lo + fuel
      → hi < length xs
      → At xs lo true
      → At xs hi false
      → Boundary xs hi (bisect compar key fuel xs lo hi)
  unfolding bisect
  bisect-Boundary zero xs lo hi l enough fits below above = absurd (omega arith)
  bisect-Boundary (suc fuel) xs lo hi l enough fits below above =
      elim (Bool-cases (ltb (lo + 1) hi)) [
        | inr stop ↦
            let e : hi ≡ suc lo = ground arith in
            rw (stop, bisect)
              (record {
                last = lo;
                found = ap some e;
                inside = omega arith;
                below = below;
                above = rw e at above;
              })
        | inl more ↦
            let wide : lo + 1 < hi = ground arith in
            let (el, read) = get_elem?-lt xs ((hi + lo) / 2) (omega arith) in
            rw (more, bisect, read)
              (elim (Bool-cases (before el)) [
                | inl e ↦ rw e (
                    bisect-Boundary fuel xs ((hi + lo) / 2) hi (omega arith) (omega arith) fits
                      (At-get_elem? xs ((hi + lo) / 2) read e) above)
                | inr e ↦ rw e (
                    Boundary-le {mid = (hi + lo) / 2} (omega arith) (
                      bisect-Boundary fuel xs lo ((hi + lo) / 2) (omega arith) (omega arith)
                        (omega arith) below (At-get_elem? xs ((hi + lo) / 2) read e)))
              ])
      ]

  rank_of_front :
      (xs : List A) (m : ℕ)
      → m ≤ length xs
      → ((i : ℕ) → i < m → At xs i true)
      → (m < length xs → At xs m false)
      → rank xs ≡ m
  unfolding rank
  rank_of_front [] m l front after = omega arith
  rank_of_front (x ∷ xs) zero l front after = rw (after (omega arith) x refl)
  rank_of_front (x ∷ xs) (suc m) l front after = rw (front 0 (omega arith) x refl) (
      ap suc (
        rank_of_front xs m (omega arith) (λ i h. front (suc i) (omega arith))
          (λ h. after (omega arith))))

  At-append :
      (xs rest : List A) (i : ℕ) {b : Bool} → i < length xs → At (xs ++ rest) i b → At xs i b
  At-append xs rest i l h = λ el r. h el (get_elem?-append_left xs rest i l ∙ r)

  Boundary→rank :
      (xs rest : List A) (hi : ℕ) (r : Option ℕ)
      → IsParted xs
      → hi < length xs
      → Boundary (xs ++ rest) hi r
      → r ≡ some (rank xs)
  Boundary→rank xs rest hi r parted l b =
      b.found
      ∙ ap some (
          sym (
            rank_of_front xs (suc b.last) (omega (arith, b.inside))
              (λ i h.
                parted i b.last (omega arith)
                  (At-append xs rest b.last (omega (arith, b.inside)) b.below)
                  (omega (arith, b.inside)))
              (λ h. At-append xs rest (suc b.last) h b.above)))

  -- The last element stands before the key, and so do all.
  rank_all :
      (xs : List A) → IsParted xs → (i : ℕ) → suc i ≡ length xs → At xs i true → rank xs ≡ suc i
  rank_all xs parted i e last =
      rank_of_front xs (suc i) (omega arith) (λ j h. parted j i (omega arith) last (omega arith))
        (λ h. absurd (omega arith))

  rank_zero : (x : A) (xs : List A) → before x ≡ false → rank (x ∷ xs) ≡ 0
  unfolding rank
  rank_zero x xs e = rw e

  leb_of_not_ltb : (c : ℤ) → ltb_ℤ (pos 0) c ≡ false → leb_ℤ c (pos 0) ≡ true
  leb_of_not_ltb c h = ground arith

  not_leb_of_ltb : (c : ℤ) → ltb_ℤ (pos 0) c ≡ true → leb_ℤ c (pos 0) ≡ false
  not_leb_of_ltb c h = ground arith

  -- The three ways out of `binary_search_first` on a non-empty array.
  first_not_before :
      (x : A) (data' : List A) (n : ℕ)
      → n < length (x ∷ data')
      → before x ≡ false
      → binary_search_first compar key (x ∷ data') (suc n) ≡ some 0
  unfolding binary_search_first
  first_not_before x data' n l e =
      let (y, read) = get_elem?-lt (x ∷ data') n l in
      let back : suc n - 1 ≡ n = omega arith in
      let nonempty : (suc n == 0) ≡ false = ground arith in
      rw (nonempty, back, read, leb_of_not_ltb (compar key x) e)

  last_before :
      (x y : A) (data' : List A) (n : ℕ)
      → get_elem? (x ∷ data') n ≡ some y
      → before x ≡ true
      → before y ≡ true
      → binary_search_first compar key (x ∷ data') (suc n) ≡ some (suc n)
  unfolding binary_search_first
  last_before x y data' n read e e' =
      let back : suc n - 1 ≡ n = omega arith in
      let nonempty : (suc n == 0) ≡ false = ground arith in
      rw (nonempty, back, read, not_leb_of_ltb (compar key x) e, e')

  in_between :
      (x y : A) (data' : List A) (n : ℕ)
      → get_elem? (x ∷ data') n ≡ some y
      → before x ≡ true
      → before y ≡ false
      → binary_search_first compar key (x ∷ data') (suc n)
        ≡ bisect compar key (suc n) (x ∷ data') 0 n
  unfolding binary_search_first
  in_between x y data' n read e e' =
      let back : suc n - 1 ≡ n = omega arith in
      let nonempty : (suc n == 0) ≡ false = ground arith in
      rw (nonempty, back, read, not_leb_of_ltb (compar key x) e, e', back)

  zero_or_lt :
      (x y : A) (data' : List A) (n : ℕ)
      → get_elem? (x ∷ data') n ≡ some y
      → before x ≡ true
      → before y ≡ false
      → 0 < n
  zero_or_lt x y data' zero read e e' = absurd (cc (ap before (some-injective x y read)))
  zero_or_lt x y data' (suc n) read e e' = omega arith

  -- On an array whose first `length xs` elements are parted by the key, the search reads only
  -- those, ends, and returns how many of them stand before the key.
  pub binary_search_first_lem :
      (xs rest : List A)
      → IsParted xs
      → binary_search_first compar key (xs ++ rest) (length xs) ≡ some (rank xs)
  binary_search_first_lem [] rest parted = unfold binary_search_first rank in refl
  binary_search_first_lem (x ∷ xs) rest parted =
      let n = length xs in
      let data' = xs ++ rest in
      let (y, read) = get_elem?-lt (x ∷ xs) n (omega arith) in
      let whole : get_elem? (x ∷ data') n ≡ some y =
        get_elem?-append_left (x ∷ xs) rest n (omega arith) ∙ read in
      elim (Bool-cases (before x)) [
        | inr e ↦
            first_not_before x data' n (lt-of_get_elem? (x ∷ data') n whole) e
            ∙ ap some (sym (rank_zero x xs e))
        | inl e ↦ elim (Bool-cases (before y)) [
          | inl e' ↦
              last_before x y data' n whole e e'
              ∙ ap some (sym (rank_all (x ∷ xs) parted n refl (At-get_elem? (x ∷ xs) n read e')))
          | inr e' ↦
              in_between x y data' n whole e e'
              ∙ Boundary→rank (x ∷ xs) rest n _ parted (omega arith) (
                  bisect-Boundary (suc n) (x ∷ data') 0 n (zero_or_lt x y data' n whole e e')
                    (omega arith) (lt-of_get_elem? (x ∷ data') n whole)
                    (At-get_elem? (x ∷ data') 0 refl e) (At-get_elem? (x ∷ data') n whole e'))
        ]
      ]
