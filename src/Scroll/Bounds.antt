-- ===== src/Scroll/Bounds.antt =====
-- What the scroll position is after each of the functions that change it.
use mangl.Prelude.{
  ℕ, ◌≡◌, refl, ap, ◌∙◌, ◌⊎◌, inl, inr, some, arith, if◌then◌else◌, get_elem?, ℤ, pos, ◌+ℤ◌, ◌-ℤ◌,
  ◌*ℤ◌, ◌≤ℤ◌, ltb_ℤ, ◌≢◌, not, ◌||◌, get_elem?-set_ne, +ℤ_parts, -ℤ_parts, eq_of_parts, int_laws,
  Bool-cases, get_elem?-set_self, lt-of_get_elem?,
}
use mangl.Run.{done, ◌>>=◌, Returns}
use mangl.App.{the_page-is, Recti, Manpage, Platform, App, put_page, post_redisplay}
use mangl.Scroll.{
  clamp, eq_ℤ, document_height, scroll_limit, clamp_scroll_position, set_scroll_position,
  scroll_in_view,
}

-- A value between `min` and `max` is left alone, any other becomes the nearer bound.
pub clamp_lem :
    (val min max : ℤ)
    → min ≤ℤ max
    → (min ≤ℤ clamp val min max)
      × (clamp val min max ≤ℤ max)
      × (min ≤ℤ val → val ≤ℤ max → clamp val min max ≡ val)
unfolding clamp
clamp_lem val min max h = (ground arith, ground arith, λ a b. ground arith)

module _ (platform : Platform) (a : App) (m : Manpage) where
  limit-positive : pos 0 ≤ℤ scroll_limit platform a m
  limit-positive =
      elim (Bool-cases (ltb_ℤ (pos 0) (document_height platform m -ℤ a.window_height))) [
        | inl e ↦ rw e (ground arith)
        | inr e ↦ rw e (omega arith)
      ]

  -- A clamped scroll position is between 0 and the limit, which is the document's height less the
  -- window's where that is positive, and 0 otherwise.
  pub clamp_scroll_position-bounds :
      (new : ℤ)
      → (pos 0 ≤ℤ clamp_scroll_position platform a m new)
        × (clamp_scroll_position platform a m new ≤ℤ scroll_limit platform a m)
  unfolding clamp_scroll_position
  clamp_scroll_position-bounds new =
      let (low, high, same) = clamp_lem new (pos 0) (scroll_limit platform a m) limit-positive in
      (low, high)

  -- The limit does not leave the end of the document below the window.
  limit-reaches : document_height platform m ≤ℤ scroll_limit platform a m +ℤ a.window_height
  limit-reaches =
      elim (Bool-cases (ltb_ℤ (pos 0) (document_height platform m -ℤ a.window_height))) [
        | inl e ↦ rw e (omega int_laws)
        | inr e ↦ rw e (
            ground (
              arith,
              -ℤ_parts (document_height platform m) a.window_height,
              +ℤ_parts (pos 0) a.window_height,
            ))
      ]

  -- `set_scroll_position` puts the page at the clamped position, leaves the other pages alone, and
  -- asks for a redisplay exactly when that moves the page.
  pub set_scroll_position-Returns :
      (p : ℕ) (new : ℤ)
      → a.page ≡ some p
      → get_elem? a.heap p ≡ some m
      → Returns (set_scroll_position platform a new) (λ b.
        (get_elem? b.heap p
          ≡ some (record m { scroll_position = clamp_scroll_position platform a m new }))
        × ((q : ℕ) → p ≢ q → get_elem? b.heap q ≡ get_elem? a.heap q)
        × (b.redisplay_needed ≡ (
            not (eq_ℤ (clamp_scroll_position platform a m new) m.scroll_position)
            || a.redisplay_needed)))
  unfolding set_scroll_position post_redisplay clamp_scroll_position
  set_scroll_position-Returns p new at here =
      elim (Bool-cases (eq_ℤ (clamp_scroll_position platform a m new) m.scroll_position)) [
        | inl e ↦
            rw (at, here, e)
              (
                here
                    ∙ ap (λ s. some (record m { scroll_position = s }))
                        (eq_of_parts m.scroll_position (clamp_scroll_position platform a m new)
                          (ground arith)),
                (λ q ne. refl),
                refl,
              )
        | inr e ↦
            rw (at, here, e)
              (
                get_elem?-set_self a.heap p _ (lt-of_get_elem? a.heap p here),
                (λ q ne. get_elem?-set_ne a.heap _ ne),
                refl,
              )
      ]

-- A clamped value moved only to a bound.
clamp-moves :
    (val min max : ℤ)
    → ((clamp val min max ≤ℤ val) ⊎ (clamp val min max ≡ min))
      × ((val ≤ℤ clamp val min max) ⊎ (clamp val min max ≡ max))
unfolding clamp
clamp-moves val min max = elim (Bool-cases (ltb_ℤ max val)) [
  | inl e ↦ rw e (inl (ground arith), inr refl)
  | inr e ↦ elim (Bool-cases (ltb_ℤ val min)) [
    | inl h ↦ rw (e, h) (inr refl, inl (ground arith))
    | inr h ↦ rw (e, h) (inl (ground arith), inl (ground arith))
  ]
]

-- The position that `scroll_in_view` chooses for a rectangle with three lines around it.
abbrev pub view_position : Platform → App → Manpage → Recti → ℤ → ℤ
view_position platform a m r preferred =
    let offset = pos 3 *ℤ platform.line_advance in
    if ltb_ℤ (r.y -ℤ offset) preferred
    then clamp_scroll_position platform a m (r.y -ℤ offset)
    else if ltb_ℤ (preferred +ℤ a.window_height) (r.y2 +ℤ offset)
    then clamp_scroll_position platform a m (r.y2 -ℤ a.window_height +ℤ offset)
    else preferred

abbrev IsVisible : App → Recti → ℤ → Type 0
IsVisible a r position = (position ≤ℤ r.y) × (r.y2 ≤ℤ position +ℤ a.window_height)

-- Clamping a position at which the rectangle is visible keeps it visible.
clamped-IsVisible :
    (platform : Platform) (a : App) (m : Manpage) (r : Recti) (v : ℤ)
    → pos 0 ≤ℤ r.y
    → r.y2 ≤ℤ document_height platform m
    → IsVisible a r v
    → IsVisible a r (clamp_scroll_position platform a m v)
unfolding clamp_scroll_position
clamped-IsVisible platform a m r v top bottom (above, below) =
    let limit = scroll_limit platform a m in
    let (low, high) = clamp-moves v (pos 0) limit in
    (
      elim low [ inl h ↦ omega arith | inr h ↦ rw h top ],
      elim high [
        | inl h ↦
            omega
              (arith, +ℤ_parts v a.window_height, +ℤ_parts (clamp v (pos 0) limit) a.window_height)
        | inr h ↦ rw h (omega (arith, limit-reaches platform a m))
      ],
    )

view_position-IsVisible :
    (platform : Platform) (a : App) (m : Manpage) (r : Recti) (preferred : ℤ)
    → pos 0 ≤ℤ r.y
    → r.y2 ≤ℤ document_height platform m
    → pos 0 ≤ℤ pos 3 *ℤ platform.line_advance
    → r.y2 -ℤ r.y +ℤ pos 3 *ℤ platform.line_advance +ℤ pos 3 *ℤ platform.line_advance
      ≤ℤ a.window_height
    → IsVisible a r (view_position platform a m r preferred)
view_position-IsVisible platform a m r preferred top bottom room fits =
    let offset = pos 3 *ℤ platform.line_advance in
    elim (Bool-cases (ltb_ℤ (r.y -ℤ offset) preferred)) [
      | inl e ↦ rw e (
          clamped-IsVisible platform a m r (r.y -ℤ offset) top bottom
            (omega int_laws, omega int_laws))
      | inr e ↦ elim (Bool-cases (ltb_ℤ (preferred +ℤ a.window_height) (r.y2 +ℤ offset))) [
        | inl h ↦
            rw (e, h)
              (clamped-IsVisible platform a m r (r.y2 -ℤ a.window_height +ℤ offset) top bottom
                (omega int_laws, omega int_laws))
        | inr h ↦
            rw (e, h)
              (
                ground (arith, -ℤ_parts r.y offset),
                ground (arith, +ℤ_parts preferred a.window_height, +ℤ_parts r.y2 offset),
              )
      ]
    ]

-- If the rectangle lies in the document and fits into the window with three lines above and below,
-- `scroll_in_view` gives the page a scroll position at which all of it is inside the window.
pub scroll_in_view_lem :
    (platform : Platform) (a : App) (p : ℕ) (m : Manpage) (r : Recti) (preferred : ℤ)
    → a.page ≡ some p
    → get_elem? a.heap p ≡ some m
    → pos 0 ≤ℤ r.y
    → r.y2 ≤ℤ document_height platform m
    → pos 0 ≤ℤ pos 3 *ℤ platform.line_advance
    → r.y2 -ℤ r.y +ℤ pos 3 *ℤ platform.line_advance +ℤ pos 3 *ℤ platform.line_advance
      ≤ℤ a.window_height
    → (s : ℤ) × (scroll_in_view platform a r preferred
        ≡ done (put_page a (record m { scroll_position = s })))
      × (s ≤ℤ r.y)
      × (r.y2 ≤ℤ s +ℤ a.window_height)
unfolding scroll_in_view
scroll_in_view_lem platform a p m r preferred at here top bottom room fits =
    let (above, below) = view_position-IsVisible platform a m r preferred top bottom room fits in
    (
      view_position platform a m r preferred,
      ap
          (λ got. got >>= λ k.
            done
              (put_page a (record k { scroll_position = view_position platform a k r preferred })))
          (the_page-is a p m at here),
      above,
      below,
    )
