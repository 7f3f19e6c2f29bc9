-- ===== src/Input/Mouse.antt =====
-- The mouse handlers of main.c: `mouse_button_func`, `mouse_pos_func` and `mouse_scroll_func`.
use mangl.Prelude.{
  ℕ, ◌+◌, ◌-◌, Bool, true, false, not, ◌&&◌, ◌||◌, none, some, List, [], ◌∷◌, ltb, ◌==◌,
  if◌then◌else◌, ℤ, pos, ◌+ℤ◌, ◌-ℤ◌, ltb_ℤ, leb_ℤ,
}
use mangl.Text.{same_text}
use mangl.Run.{Run, done, ◌>>=◌}
use mangl.App.{
  Link, Manpage, Platform, App, d_manpage, d_search, the_page, put_page, post_redisplay,
  scrollbar_width, scroll_amount,
}
use mangl.Scroll.{
  clamp, inside_recti, eq_ℤ, moved, margin, set_scroll_position, scrollbar_thumb_hittest,
  get_left_margin, scrollbar_thumb_position_to_scroll_position,
}
use mangl.History.{open_new_page, page_back}
use mangl.Input.{Action, release, press, results_hittest, link_under_cursor, open_selected}

-- GLFW_MOUSE_BUTTON_LEFT, GLFW_MOUSE_BUTTON_RIGHT and any other.
pub data Button : Type 0 where
  left right other_button : Button

-- The sign of `yoffset`.
pub data Wheel : Type 0 where
  wheel_up wheel_down wheel_still : Wheel

-- `memcmp` on rectangles and `strcmp` on what they link to.
abbrev pub same_link : Link → Link → Bool
same_link l k =
    eq_ℤ l.document_rectangle.x k.document_rectangle.x
    && (eq_ℤ l.document_rectangle.y k.document_rectangle.y
        && (eq_ℤ l.document_rectangle.x2 k.document_rectangle.x2
            && (eq_ℤ l.document_rectangle.y2 k.document_rectangle.y2 && same_text l.link k.link)))

module _ (platform : Platform) where
  -- D_MANPAGE, the left button goes down.
  unfoldable pub left_press : App → Run App
  left_press a =
      if scrollbar_thumb_hittest platform a a.mouse_x a.mouse_y
      then done (record a {
        scrollbar_dragging = true;
        scrollbar_thumb_mouse_down_y = a.mouse_y;
        scrollbar_thumb_mouse_down_thumb_position = a.scrollbar_thumb_position;
      })
      else if leb_ℤ (a.window_width -ℤ platform.dimension scrollbar_width) a.mouse_x
      then (if ltb_ℤ a.mouse_y a.scrollbar_thumb_position
          then (the_page a >>= λ m.
              set_scroll_position platform a
                (m.scroll_position -ℤ (a.window_height -ℤ platform.line_advance)))
          else if leb_ℤ (a.scrollbar_thumb_position +ℤ a.scrollbar_thumb_size) a.mouse_y
          then (the_page a >>= λ m.
              set_scroll_position platform a
                (m.scroll_position +ℤ a.window_height -ℤ platform.line_advance))
          else done a)
      else (do
        link ← link_under_cursor platform a (a.mouse_x -ℤ get_left_margin platform a) a.mouse_y
        done (record a { clicked_link = link }))

  -- D_MANPAGE, the left button goes up: the link is followed if it is the one that was pressed.
  unfoldable pub left_release : App → Run App
  left_release a = elim a.clicked_link [
    | none ↦ done (record a { scrollbar_dragging = false })
    | some link ↦ (do
      under ← link_under_cursor platform a (a.mouse_x -ℤ get_left_margin platform a) a.mouse_y
      elim under [
        | none ↦ done (record a { scrollbar_dragging = false })
        | some l ↦
            if same_link l link
            then open_new_page platform (record a { scrollbar_dragging = false }) link.link
                (some link.pwd)
            else done (record a { scrollbar_dragging = false })
      ])
  ]

  -- D_SEARCH, the left button goes up: the result under it is opened.
  unfoldable pub click_result : App → Run App
  click_result a = elim (results_hittest platform a a.mouse_x a.mouse_y) [
    | none ↦ done a
    | some index ↦
        if ltb (index + a.screen.results_view_offset) a.screen.matches_count
        then open_selected platform (record a {
          screen = record a.screen {
            results_selected_index = index + a.screen.results_view_offset;
          };
        })
        else done a
  ]

  unfoldable pub mouse_button_func : App → Button → Action → Run App
  mouse_button_func a left press = elim a.display_mode [
    | d_manpage ↦ left_press a
    | d_search ↦ done a
  ]
  mouse_button_func a left release = elim a.display_mode [
    | d_manpage ↦ left_release a
    | d_search ↦ click_result a
  ]
  mouse_button_func a right release = elim a.display_mode [
    | d_manpage ↦ page_back platform a
    | d_search ↦ done a
  ]
  mouse_button_func a button action = done a

  -- The links, lit where the point is inside, and whether one changed.
  unfoldable pub highlight_links : Manpage → ℤ → List Link → ℤ → ℤ → List Link × Bool
  highlight_links m left_margin [] x y = ([], false)
  highlight_links m left_margin (l ∷ links) x y =
      let r =
        moved l.document_rectangle (margin platform +ℤ left_margin)
          (margin platform -ℤ m.scroll_position) in
      let (rest, changed) = highlight_links m left_margin links x y in
      (
        record l { highlight = inside_recti r x y } ∷ rest,
        (if inside_recti r x y then not l.highlight else l.highlight) || changed,
      )

  abbrev pub with_redisplay : Bool → App → App
  with_redisplay redisplay a = if redisplay then post_redisplay a else a

  -- D_MANPAGE, the scroll bar's thumb is dragged.
  unfoldable pub drag : App → Run App
  drag a = do
    (b, position) ← scrollbar_thumb_position_to_scroll_position platform a (
        clamp
          (a.scrollbar_thumb_mouse_down_thumb_position +ℤ a.mouse_y
            -ℤ a.scrollbar_thumb_mouse_down_y)
          (pos 0) (a.window_height -ℤ a.scrollbar_thumb_size))
    set_scroll_position platform b position

  unfoldable pub hover_page : App → Run App
  hover_page a = do
    m ← the_page a
    let on_thumb = scrollbar_thumb_hittest platform a a.mouse_x a.mouse_y
    let thumb_changed = if on_thumb then not a.scrollbar_thumb_hover else a.scrollbar_thumb_hover
    let (links, changed) =
        highlight_links m (get_left_margin platform a) m.links a.mouse_x a.mouse_y
    done (
        with_redisplay (thumb_changed || changed)
          (put_page (record a { scrollbar_thumb_hover = on_thumb }) (record m { links = links })))

  -- D_SEARCH: the result under the mouse is selected.
  unfoldable pub hover_result : App → App
  hover_result a = elim (results_hittest platform a a.mouse_x a.mouse_y) [
    | none ↦ a
    | some index ↦
        let actual_index = index + a.screen.results_view_offset in
        if ltb actual_index a.screen.matches_count
        then with_redisplay (not (a.screen.results_selected_index == actual_index))
            (record a { screen = record a.screen { results_selected_index = actual_index } })
        else a
  ]

  abbrev pub mouse_moved : App → Run App
  mouse_moved a = elim a.display_mode [
    | d_manpage ↦ if a.scrollbar_dragging then drag a else hover_page a
    | d_search ↦ done (hover_result a)
  ]

  unfoldable pub mouse_pos_func : App → ℤ → ℤ → Run App
  mouse_pos_func a x y = mouse_moved (record a { mouse_x = x; mouse_y = y })

  -- The results' view starts at another row; the one under the mouse is selected.
  abbrev pub scroll_results : App → ℕ → ℕ → App
  scroll_results a index offset = post_redisplay (record a {
    screen = record a.screen {
      results_view_offset = offset;
      results_selected_index =
          if ltb (index + offset) a.screen.matches_count
          then index + offset
          else a.screen.results_selected_index;
    };
  })

  -- D_SEARCH
  unfoldable pub wheel_in_search : App → Wheel → App
  wheel_in_search a wheel = elim (results_hittest platform a a.mouse_x a.mouse_y) [
    | none ↦ a
    | some index ↦ elim wheel [
      | wheel_up ↦
          if ltb 0 a.screen.results_view_offset
          then scroll_results a index (a.screen.results_view_offset - 1)
          else a
      | wheel_down ↦
          if ltb (a.screen.results_view_offset + a.screen.results_shown_lines)
            a.screen.matches_count
          then scroll_results a index (a.screen.results_view_offset + 1)
          else a
      | wheel_still ↦ a
    ]
  ]

  unfoldable pub mouse_scroll_func : App → Wheel → Run App
  mouse_scroll_func a wheel = elim a.display_mode [
    | d_search ↦ done (wheel_in_search a wheel)
    | d_manpage ↦ elim wheel [
      | wheel_up ↦ the_page a >>= λ m.
          set_scroll_position platform a (m.scroll_position -ℤ platform.dimension scroll_amount)
      | wheel_down ↦ the_page a >>= λ m.
          set_scroll_position platform a (m.scroll_position +ℤ platform.dimension scroll_amount)
      | wheel_still ↦ done a
    ]
  ]
