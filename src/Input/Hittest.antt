-- ===== src/Input/Hittest.antt =====
-- `results_hittest` of main.c finds the row by its place in the box of the results: the rows lie one
-- under the other from the top of the box, and all have the same height.
use native.Mathlib.Nat.{div-eq_of_lt-le, div-mul-le_self, lt-div-mul-add, one-mul, add-mul}
use mangl.Prelude.{
  ℕ, zero, suc, ◌+◌, ◌*◌, ◌/◌, ◌≤◌, ◌<◌, ◌≡◌, refl, sym, ap, ap₂, subst, ◌∙◌, Bool, true, false,
  ◌&&◌, inl, inr, none, some, arith, ltb, leb, ltb→lt, leb→le, ◌==◌, if◌then◌else◌, Bool-cases, ℤ,
  pos, ◌+ℤ◌, ◌-ℤ◌, ◌*ℤ◌, ◌/ℤ◌, ltb_ℤ, leb_ℤ, pos_part, neg_part, +ℤ_parts, sub_ℕ,
}
use mangl.App.{App, Platform, search_width, gui_padding}
use mangl.Input.{hit_rows, results_hittest, in_result}

mul_pos : (i h : ℕ) → pos i *ℤ pos h ≡ pos (i * h)
unfolding ◌*ℤ◌
mul_pos i h =
    let a : i * h + 0 * 0 ≡ i * h = omega arith in
    let b : i * 0 + 0 * h ≡ 0 = omega arith in
    let c : sub_ℕ (i * h) 0 ≡ pos (i * h) = ground arith in ap₂ sub_ℕ a b ∙ c

-- Row `i` of height `h`, at `d` below the top of the box.
and_parts : (p q : Bool) → p && q ≡ true → (p ≡ true) × (q ≡ true)
and_parts true q e = (refl, e)
and_parts false q e = absurd (cc)

in_row : (h d i : ℕ) → 0 < h → (leb (i * h) d && ltb d (i * h + h)) ≡ (d / h == i)
in_row h d i p = elim (Bool-cases (leb (i * h) d && ltb d (i * h + h))) [
  | inl e ↦
      let same : d / h ≡ i = within e in
      let test : (d / h == i) ≡ true = ground arith in e ∙ sym test
  | inr e ↦ elim (Bool-cases (d / h == i)) [
    | inr e' ↦ e ∙ sym e'
    | inl e' ↦
        let same : d / h ≡ i = ground arith in
        absurd (
          apart (subst (λ n. n * h ≤ d) same (div-mul-le_self d h))
            (subst (λ n. d < n * h + h) same (lt-div-mul-add {a = d} {b = h} p)) e)
  ]
]
  where
    within : (leb (i * h) d && ltb d (i * h + h)) ≡ true → d / h ≡ i
    within e =
        let (l, l') = and_parts (leb (i * h) d) (ltb d (i * h + h)) e in
        let next : i * h + h ≡ (i + 1) * h =
          ap (λ t. i * h + t) (sym (one-mul h)) ∙ sym (add-mul i 1 h) in
        div-eq_of_lt-le h (leb→le (i * h) d l) (subst (λ n. d < n) next (ltb→lt d (i * h + h) l'))

    apart : i * h ≤ d → d < i * h + h → (leb (i * h) d && ltb d (i * h + h)) ≡ false → ⊥
    apart l l' e = ground arith

leb_shift : (a b c d : ℕ) → a + d ≡ c + b → leb a b ≡ leb c d
leb_shift a b c d e = ground arith

ltb_shift : (a b c d : ℕ) → a + d ≡ c + b → ltb a b ≡ ltb c d
ltb_shift a b c d e = ground arith

-- How far `y` is below `t`.
below :
    (t y : ℤ)
    → leb_ℤ t y ≡ true
    → pos_part t + neg_part y + pos_part (y -ℤ t) ≡ pos_part y + neg_part t
unfolding ◌-ℤ◌
below t y e = ground arith

above : (t y : ℤ) (n : ℕ) → leb_ℤ t y ≡ false → leb_ℤ (t +ℤ pos n) y ≡ false
above t y n e = let l = +ℤ_parts t (pos n) in ground arith

-- The point is in the row, by its place below the top of the box.
in_row_of_box :
    (t y : ℤ) (h i : ℕ)
    → 0 < h
    → (leb_ℤ (t +ℤ pos (i * h)) y && ltb_ℤ y (t +ℤ pos (i * h) +ℤ pos h))
      ≡ (leb_ℤ t y && (pos_part (y -ℤ t) / h == i))
in_row_of_box t y h i p = elim (Bool-cases (leb_ℤ t y)) [
  | inr e ↦ rw (e, above t y (i * h) e) refl
  | inl e ↦
      let d = pos_part (y -ℤ t) in
      let n = i * h in
      let first : leb_ℤ (t +ℤ pos n) y ≡ leb n d =
        leb_shift _ _ n d (omega (arith, +ℤ_parts t (pos n), below t y e)) in
      let second : ltb_ℤ y (t +ℤ pos n +ℤ pos h) ≡ ltb d (n + h) =
        ltb_shift _ _ d (n + h)
          (omega (arith, +ℤ_parts t (pos n), +ℤ_parts (t +ℤ pos n) (pos h), below t y e)) in
      ap₂ ◌&&◌ first second ∙ in_row h d i p ∙ ap (λ b. b && (d / h == i)) (sym e)
]

regroup : (l r t e : Bool) → l && (r && (t && e)) ≡ (l && (r && t)) && e
regroup true true t e = refl
regroup true false t e = refl
regroup false r t e = refl

nowhere : (p b : Bool) (row : ℕ) → b ≡ false → none ≡ (if p && b then some row else none)
nowhere true b row e = rw e refl
nowhere false b row e = refl

-- The row is the first one, or among the others.
first_or_later :
    (p : Bool) (row i rows : ℕ)
    → (if p && (row == i)
        then some i
        else (if p && (leb (i + 1) row && ltb row (i + 1 + rows)) then some row else none))
      ≡ (if p && (leb i row && ltb row (i + suc rows)) then some row else none)
first_or_later false row i rows = refl
first_or_later true row i rows = elim (Bool-cases (row == i)) [
  | inl e ↦
      let same : i ≡ row = ground arith in
      let here : (leb i row && ltb row (i + suc rows)) ≡ true = ground arith in
      rw (e, here) (ap some same)
  | inr e ↦
      let later : (leb i row && ltb row (i + suc rows))
          ≡ (leb (i + 1) row && ltb row (i + 1 + rows)) =
        ground arith in
      rw (e, later) refl
]

module _ (platform : Platform) (a : App) (x y : ℤ) where
  -- The height of a row, and the box of the results: its left and right side and its top.
  abbrev pub row_height : ℤ
  row_height = platform.line_height *ℤ pos 3 /ℤ pos 2

  abbrev pub box_left : ℤ
  box_left = a.window_width /ℤ pos 2 -ℤ platform.dimension search_width /ℤ pos 2

  abbrev pub box_top : ℤ
  box_top = pos 100 +ℤ row_height +ℤ platform.dimension gui_padding

  -- Left and right of the point is the box, and above it its top.
  abbrev pub in_box : Bool
  in_box =
      leb_ℤ box_left x && (ltb_ℤ x (box_left +ℤ platform.dimension search_width) && leb_ℤ box_top y)

  -- The number of rows of height `h` that fit between the top of the box and the point.
  abbrev pub rows_above : ℕ → ℕ
  rows_above h = pos_part (y -ℤ box_top) / h

  in_result-rows_above :
      (h i : ℕ)
      → 0 < h
      → row_height ≡ pos h
      → in_result platform a x y i ≡ (in_box && (rows_above h == i))
  in_result-rows_above h i p e =
      ap
        (λ (b : Bool).
          leb_ℤ box_left x && (ltb_ℤ x (box_left +ℤ platform.dimension search_width) && b))
        (ap (λ k. leb_ℤ (box_top +ℤ pos i *ℤ k) y && ltb_ℤ y (box_top +ℤ pos i *ℤ k +ℤ k)) e
          ∙ ap (λ k. leb_ℤ (box_top +ℤ k) y && ltb_ℤ y (box_top +ℤ k +ℤ pos h)) (mul_pos i h)
          ∙ in_row_of_box box_top y h i p)
      ∙ regroup (leb_ℤ box_left x) (ltb_ℤ x (box_left +ℤ platform.dimension search_width))
          (leb_ℤ box_top y) (rows_above h == i)

  hit_rows-first :
      (p : Bool) (row : ℕ)
      → ((j : ℕ) → in_result platform a x y j ≡ (p && (row == j)))
      → (rows i : ℕ)
      → hit_rows platform a x y rows i
        ≡ (if p && (leb i row && ltb row (i + rows)) then some row else none)
  unfolding hit_rows
  hit_rows-first p row test zero i = nowhere p (leb i row && ltb row (i + 0)) row (none_left i row)
    where
      none_left : (i row : ℕ) → (leb i row && ltb row (i + 0)) ≡ false
      none_left i row = ground arith
  hit_rows-first p row test (suc rows) i =
      ap (λ b. if b then some i else hit_rows platform a x y rows (i + 1)) (test i)
      ∙ ap (λ r. if p && (row == i) then some i else r) (hit_rows-first p row test rows (i + 1))
      ∙ first_or_later p row i rows

  -- With rows of a positive height, the hit test gives the row by the number of rows that fit between the
  -- top of the box and the point, whenever the point is below the top, between the two sides of the box,
  -- and in one of the rows that are shown; and -1 otherwise.
  pub results_hittest_lem :
      (h : ℕ)
      → 0 < h
      → row_height ≡ pos h
      → results_hittest platform a x y ≡ (
          if in_box && ltb (rows_above h) a.screen.results_shown_lines
          then some (rows_above h)
          else none)
  unfolding results_hittest
  results_hittest_lem h p e =
      hit_rows-first in_box (rows_above h) (λ j. in_result-rows_above h j p e)
        a.screen.results_shown_lines 0
      ∙ ap (λ b. if in_box && b then some (rows_above h) else none)
          (from_start (rows_above h) a.screen.results_shown_lines)
    where
      from_start : (row n : ℕ) → (leb 0 row && ltb row (0 + n)) ≡ ltb row n
      from_start row n = ground arith
