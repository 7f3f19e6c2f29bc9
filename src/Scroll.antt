-- ===== src/Scroll.antt =====
-- Scrolling in main.c: the document's height, the clamped scroll position, and the rectangles.
-- `clamp` works on doubles there, which hold every `int` exactly: here it works on integers.
pub mod Bounds
mod Tests
use mangl.Prelude.{
  ◌/◌, pos_part, ℕ, Bool, true, false, List, length, if◌then◌else◌, ℤ, pos, negsuc, ◌+ℤ◌, ◌-ℤ◌,
  ◌*ℤ◌, ◌/ℤ◌, ltb_ℤ, leb_ℤ, ◌&&◌, not,
}
use mangl.Run.{Run, done, ◌>>=◌}
use mangl.App.{
  Recti, Manpage, Platform, App, document_margin, scrollbar_width, scrollbar_thumb_min_height,
  d_manpage, d_search, the_page, put_page, post_redisplay,
}

unfoldable pub clamp : ℤ → ℤ → ℤ → ℤ
clamp val min max = if ltb_ℤ max val then max else if ltb_ℤ val min then min else val

unfoldable pub inside_recti : Recti → ℤ → ℤ → Bool
inside_recti r x y = leb_ℤ r.x x && (leb_ℤ r.y y && (ltb_ℤ x r.x2 && ltb_ℤ y r.y2))

-- `==` on `int`.
abbrev pub eq_ℤ : ℤ → ℤ → Bool
eq_ℤ a b = leb_ℤ a b && leb_ℤ b a

abbrev pub moved : Recti → ℤ → ℤ → Recti
moved r dx dy = record { x = r.x +ℤ dx; y = r.y +ℤ dy; x2 = r.x2 +ℤ dx; y2 = r.y2 +ℤ dy }

module _ (platform : Platform) where
  abbrev pub margin : ℤ
  margin = platform.dimension document_margin

  unfoldable pub document_height : Manpage → ℤ
  document_height m = pos (length m.lines) *ℤ platform.line_advance +ℤ pos 2 *ℤ margin

  -- The largest scroll position.
  abbrev pub scroll_limit : App → Manpage → ℤ
  scroll_limit a m =
      if ltb_ℤ (pos 0) (document_height m -ℤ a.window_height)
      then document_height m -ℤ a.window_height
      else pos 0

  unfoldable pub clamp_scroll_position : App → Manpage → ℤ → ℤ
  clamp_scroll_position a m new = clamp new (pos 0) (scroll_limit a m)

  unfoldable pub set_scroll_position : App → ℤ → Run App
  set_scroll_position a new = do
    m ← the_page a
    let target = clamp_scroll_position a m new
    done (
        if eq_ℤ target m.scroll_position
        then a
        else post_redisplay (put_page a (record m { scroll_position = target })))

  -- `scroll_page`, which is called with 1 and -1 only.
  unfoldable pub scroll_page : App → ℤ → Run App
  scroll_page a amount = do
    m ← the_page a
    set_scroll_position a
        (m.scroll_position +ℤ amount *ℤ (a.window_height -ℤ platform.line_advance))

  unfoldable pub to_document_coordinates : Recti → Recti
  to_document_coordinates r = moved r margin margin

  unfoldable pub scroll_in_view : App → Recti → ℤ → Run App
  scroll_in_view a r preferred = do
    m ← the_page a
    let offset = pos 3 *ℤ platform.line_advance
    done (
        put_page a (record m {
          scroll_position =
              if ltb_ℤ (r.y -ℤ offset) preferred
              then clamp_scroll_position a m (r.y -ℤ offset)
              else if ltb_ℤ (preferred +ℤ a.window_height) (r.y2 +ℤ offset)
              then clamp_scroll_position a m (r.y2 -ℤ a.window_height +ℤ offset)
              else preferred;
        }))

  unfoldable pub update_scrollbar : App → Run App
  update_scrollbar a = elim a.display_mode [
    | d_search ↦ done a
    | d_manpage ↦ (do
      m ← the_page a
      let size =
          clamp (platform.thumb_size a.window_height (document_height m))
            (platform.dimension scrollbar_thumb_min_height) a.window_height
      done (record a {
        scrollbar_thumb_size = size;
        scrollbar_thumb_position =
            platform.thumb_position m.scroll_position (document_height m) a.window_height size;
      }))
  ]

  -- It also sets the size of the thumb.
  unfoldable pub scrollbar_thumb_position_to_scroll_position : App → ℤ → Run (App × ℤ)
  scrollbar_thumb_position_to_scroll_position a thumb_position = do
    m ← the_page a
    let size =
        clamp (platform.thumb_size a.window_height (document_height m))
          (platform.dimension scrollbar_thumb_min_height) a.window_height
    done (
      record a { scrollbar_thumb_size = size },
      platform.unthumb thumb_position (document_height m) a.window_height size,
    )

  unfoldable pub fitting_window_width : App → ℤ
  fitting_window_width a =
      pos 2 *ℤ margin
      +ℤ (a.current_line_length +ℤ pos 2) *ℤ platform.character_width
      +ℤ platform.dimension scrollbar_width

  -- `/ 2` is on a positive number.
  unfoldable pub get_left_margin : App → ℤ
  get_left_margin a =
      if ltb_ℤ (fitting_window_width a) a.window_width
      then pos (pos_part (a.window_width -ℤ fitting_window_width a) / 2)
      else pos 0

  unfoldable pub scrollbar_thumb_hittest : App → ℤ → ℤ → Bool
  scrollbar_thumb_hittest a x y =
      ltb_ℤ (a.window_width -ℤ platform.dimension scrollbar_width) x
      && (leb_ℤ a.scrollbar_thumb_position y
          && ltb_ℤ y (a.scrollbar_thumb_position +ℤ a.scrollbar_thumb_size))

  unfoldable pub line_length_from_window_width : ℤ → ℤ
  line_length_from_window_width width =
      (width -ℤ pos 2 *ℤ margin -ℤ platform.dimension scrollbar_width) /ℤ platform.character_width
      -ℤ pos 2
