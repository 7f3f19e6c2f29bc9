-- ===== src/ManSearch/Insert.antt =====
-- `insert_array` of main.c: inside the array it inserts the element and drops the last one.
use mathlib.Core.Option.{some-injective}
use mangl.Prelude.{
  ap₂, length-set, append_assoc, append-nil, ℕ, zero, suc, ◌+◌, ◌-◌, ◌≤◌, ◌<◌, ◌≡◌, refl, ap, sym,
  ◌∙◌, true, false, inl, inr, Option, none, some, List, [], ◌∷◌, ◌++◌, arith, ltb, leb,
  if◌then◌else◌, length, get_elem?, set, take, drop, get_elem?-lt, ℤ, pos, negsuc, Bool-cases,
}
use mangl.ManSearch.{write_elem, copy_elem, shift_up, insert_array}

module _ {A : Type 0} where
  -- The list with `key` put in at index `i`, at the end if the list is shorter.
  unfoldable pub insert_at : ℕ → A → List A → List A
  insert_at zero key xs = key ∷ xs
  insert_at (suc i) key [] = key ∷ []
  insert_at (suc i) key (x ∷ xs) = x ∷ insert_at i key xs

  -- Under one more element in front, a result has it in front too.
  abbrev behind : A → Option (List A) → Option (List A)
  behind x none = none
  behind x (some xs) = some (x ∷ xs)

  write_elem-cons :
      (x : A) (xs : List A) (j : ℕ) (v : A)
      → write_elem (x ∷ xs) (suc j) v ≡ behind x (write_elem xs j v)
  write_elem-cons x xs j v = elim (Bool-cases (ltb j (length xs))) [
    | inl e ↦ let e' : ltb (suc j) (suc (length xs)) ≡ true = ground arith in rw (e, e') refl
    | inr e ↦ let e' : ltb (suc j) (suc (length xs)) ≡ false = ground arith in rw (e, e') refl
  ]

  copy_elem-cons :
      (x : A) (xs : List A) (i j : ℕ)
      → copy_elem (x ∷ xs) (suc i) (suc j) ≡ behind x (copy_elem xs i j)
  copy_elem-cons x xs i j = go (get_elem? xs i)
    where
      go :
          (o : Option A)
          → elim o [ none ↦ none | some v ↦ write_elem (x ∷ xs) (suc j) v ]
            ≡ behind x (elim o [ none ↦ none | some v ↦ write_elem xs j v ])
      go none = refl
      go (some v) = write_elem-cons x xs j v

  -- The rest of the loop after one copy.
  abbrev then_shift : ℕ → ℕ → Option (List A) → Option (List A)
  then_shift k index none = none
  then_shift k index (some xs) = shift_up k index xs

  shift_up-suc :
      (k index : ℕ) (xs : List A) {r : Option (List A)}
      → copy_elem xs (index + k) (index + k + 1) ≡ r
      → shift_up (suc k) index xs ≡ then_shift k index r
  unfolding shift_up
  shift_up-suc k index xs {r} e =
      opened (copy_elem xs (index + k) (index + k + 1)) ∙ ap (then_shift k index) e
    where
      opened :
          (o : Option (List A))
          → elim o [ none ↦ none | some ys ↦ shift_up k index ys ] ≡ then_shift k index o
      opened none = refl
      opened (some ys) = refl

  -- Above the first element nothing is moved but the rest.
  shift_up-cons :
      (k index : ℕ) (x : A) (xs : List A)
      → shift_up k (suc index) (x ∷ xs) ≡ behind x (shift_up k index xs)
  unfolding shift_up
  shift_up-cons zero index x xs = refl
  shift_up-cons (suc k) index x xs =
      let e : suc index + k ≡ suc (index + k) = omega arith in
      let e' : suc index + k + 1 ≡ suc (index + k + 1) = omega arith in
      shift_up-suc k (suc index) (x ∷ xs)
        (ap₂ (λ i j. copy_elem (x ∷ xs) i j) e e' ∙ copy_elem-cons x xs (index + k) (index + k + 1))
      ∙ go (copy_elem xs (index + k) (index + k + 1)) (λ ys. shift_up-cons k index x ys)
      ∙ ap (behind x) (sym (shift_up-suc k index xs refl))
    where
      go :
          (o : Option (List A))
          → ((ys : List A) → shift_up k (suc index) (x ∷ ys) ≡ behind x (shift_up k index ys))
          → then_shift k (suc index) (behind x o) ≡ behind x (then_shift k index o)
      go none ih = refl
      go (some ys) ih = ih ys

  take-set_ge : (n i : ℕ) (xs : List A) (v : A) → n ≤ i → take n (set xs i v) ≡ take n xs
  take-set_ge zero i xs v l = refl
  take-set_ge (suc n) i [] v l = refl
  take-set_ge (suc n) zero (x ∷ xs) v l = absurd (omega arith)
  take-set_ge (suc n) (suc i) (x ∷ xs) v l = ap (λ t. x ∷ t) (take-set_ge n i xs v (omega arith))

  drop-set_self :
      (n : ℕ) (xs : List A) (v : A) → n < length xs → drop n (set xs n v) ≡ v ∷ drop (suc n) xs
  drop-set_self zero [] v l = absurd (omega arith)
  drop-set_self zero (x ∷ xs) v l = refl
  drop-set_self (suc n) [] v l = absurd (omega arith)
  drop-set_self (suc n) (x ∷ xs) v l = drop-set_self n xs v (omega arith)

  take-suc :
      (n : ℕ) (xs : List A) {v : A}
      → get_elem? xs n ≡ some v
      → take (suc n) xs ≡ take n xs ++ v ∷ []
  take-suc n [] e = cc
  take-suc zero (x ∷ xs) {v} e = ap (λ t. t ∷ []) (some-injective x v e)
  take-suc (suc n) (x ∷ xs) e = ap (λ t. x ∷ t) (take-suc n xs e)

  -- After `k` rounds of the loop down to index 0 the first `k` elements stand one place higher.
  shift_up_front :
      (k : ℕ) (x : A) (xs : List A)
      → k ≤ length xs
      → shift_up k 0 (x ∷ xs) ≡ some (x ∷ (take k (x ∷ xs) ++ drop k xs))
  unfolding shift_up
  shift_up_front zero x xs l = refl
  shift_up_front (suc k) x xs l =
      let (v, read) = get_elem?-lt (x ∷ xs) k (omega arith) in
      let e : 0 + k ≡ k = omega arith in
      let e' : 0 + k + 1 ≡ suc k = omega arith in
      let write : write_elem (x ∷ xs) (suc k) v ≡ some (x ∷ set xs k v) = ground arith in
      shift_up-suc k 0 (x ∷ xs) (
        ap₂ (λ i j. copy_elem (x ∷ xs) i j) e e'
        ∙ ap (λ o. elim o [ none ↦ none | some w ↦ write_elem (x ∷ xs) (suc k) w ]) read
        ∙ write)
      ∙ (shift_up_front k x (set xs k v) (omega (arith, length-set xs k v))
          ∙ ap (λ t. some (x ∷ t))
              (ap₂ ◌++◌ (front v) (drop-set_self k xs v (omega arith))
                ∙ sym (
                    ap (λ t. t ++ drop (suc k) xs) (take-suc k (x ∷ xs) read)
                    ∙ append_assoc (take k (x ∷ xs)) (v ∷ []) (drop (suc k) xs))))
    where
      front : (v : A) → take k (x ∷ set xs k v) ≡ take k (x ∷ xs)
      front v = take-set_ge k (suc k) (x ∷ xs) v (omega arith)

  drop_all : (xs : List A) → drop (length xs) xs ≡ []
  drop_all [] = refl
  drop_all (x ∷ xs) = drop_all xs

  -- The write of the key after the loop.
  abbrev then_write : ℕ → A → Option (List A) → Option (List A)
  then_write index key none = none
  then_write index key (some xs) = write_elem xs index key

  then_write-behind :
      (index : ℕ) (key x : A) (r : Option (List A))
      → then_write (suc index) key (behind x r) ≡ behind x (then_write index key r)
  then_write-behind index key x none = refl
  then_write-behind index key x (some xs) = write_elem-cons x xs index key

  -- The loop and the write that follows it.
  insert_shifted :
      (index : ℕ) (key : A) (xs : List A)
      → index < length xs
      → then_write index key (shift_up (length xs - 1 - index) index xs)
        ≡ some (take (length xs) (insert_at index key xs))
  unfolding insert_at
  insert_shifted index key [] l = absurd (omega arith)
  insert_shifted zero key (x ∷ xs) l =
      let e : suc (length xs) - 1 - 0 ≡ length xs = omega arith in
      rw (e, shift_up_front (length xs) x xs (omega arith))
        (write_front (take (length xs) (x ∷ xs) ++ drop (length xs) xs)
          ∙ ap (λ t. some (key ∷ t))
              (ap (◌++◌ (take (length xs) (x ∷ xs))) (drop_all xs)
                ∙ append-nil (take (length xs) (x ∷ xs))))
    where
      write_front : (ys : List A) → write_elem (x ∷ ys) 0 key ≡ some (key ∷ ys)
      write_front ys = ground arith
  insert_shifted (suc index) key (x ∷ xs) l =
      let e : suc (length xs) - 1 - suc index ≡ length xs - 1 - index = omega arith in
      rw (e, shift_up-cons (length xs - 1 - index) index x xs)
        (then_write-behind index key x (shift_up (length xs - 1 - index) index xs)
          ∙ ap (behind x) (insert_shifted index key xs (omega arith)))

  -- The array with `key` at an index inside it, what stood from there on one place up, and the
  -- last element gone; the same array for an index that is negative or past its end.
  abbrev pub inserted_inside : A → ℤ → List A → List A
  inserted_inside key (negsuc n) xs = xs
  inserted_inside key (pos index) xs =
      if leb (length xs) index then xs else take (length xs) (insert_at index key xs)

  -- `insert_array` on a whole array reads and writes inside the array only. At an index inside it
  -- puts the element there, moves what stood from there on one place up, and drops the last one;
  -- at a negative index or one past the end it changes nothing.
  pub insert_array_lem :
      (key : A) (index : ℤ) (xs : List A)
      → insert_array key index xs (length xs) ≡ some (inserted_inside key index xs)
  unfolding insert_array
  insert_array_lem key (negsuc n) xs = refl
  insert_array_lem key (pos index) xs = elim (Bool-cases (leb (length xs) index)) [
    | inl e ↦ rw e refl
    | inr e ↦ rw e (
        opened (shift_up (length xs - 1 - index) index xs)
        ∙ insert_shifted index key xs (ground arith))
  ]
    where
      opened :
          (r : Option (List A))
          → elim r [ none ↦ none | some ys ↦ write_elem ys index key ] ≡ then_write index key r
      opened none = refl
      opened (some ys) = refl
