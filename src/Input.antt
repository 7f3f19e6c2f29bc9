-- ===== src/Input.antt =====
-- What the handlers of main.c's input share: the events, the hit tests, and the steps on the page
-- and on the search screen that several handlers take.
pub mod Keys
pub mod Chars
pub mod Mouse
pub mod Selection
pub mod Hittest
pub mod Matches
mod Tests
use mangl.Prelude.{
  ℕ, zero, suc, ◌+◌, ◌-◌, Bool, true, false, ◌&&◌, Option, none, some, List, [], ◌∷◌, ltb, ◌==◌,
  if◌then◌else◌, length, get_elem?, take, ℤ, pos, negsuc, ◌+ℤ◌, ◌-ℤ◌, ◌*ℤ◌, ◌/ℤ◌, ltb_ℤ, leb_ℤ,
  Bytes,
}
use mangl.Run.{Run, done, fault, exited, deref, truncated, ◌>>=◌}
use mangl.ManSearch.{SearchScreen, Match, update_search}
use mangl.App.{
  Recti, Link, Manpage, Platform, App, the_page, put_page, post_redisplay, document_margin,
  search_width, gui_padding,
}
use mangl.PageSearch.{update_page_search}
use mangl.Scroll.{inside_recti, moved, margin, scroll_in_view, to_document_coordinates}
use mangl.History.{open_new_page}

-- `action`: GLFW_RELEASE, GLFW_PRESS and GLFW_REPEAT.
pub data Action : Type 0 where
  release press repeat : Action

-- `mods`
pub record Mods : Type 0 where
  pub shift : Bool
  pub control : Bool
  pub alt : Bool

-- The current match, `searches[search_index]`; an index outside the array is a fault.
abbrev pub current_search : Manpage → Run Recti
current_search m = elim m.search_index [ pos i ↦ deref (get_elem? m.searches i) | negsuc n ↦ fault ]

-- `update_page_search(page)` on a page whose search string has changed.
abbrev pub search_page : Platform → App → Bytes → Run App
search_page platform a string = do
  m ← the_page a
  m' ← update_page_search platform (record m { search_string = string })
  done (put_page a m')

-- The current match is brought into view.
abbrev pub show_search : Platform → App → ℤ → Run App
show_search platform a preferred = do
  m ← the_page a
  r ← current_search m
  scroll_in_view platform a (to_document_coordinates platform r) preferred

-- The first match is brought into view, if there is one.
abbrev pub show_first_search : Platform → App → Run App
show_first_search platform a = do
  m ← the_page a
  if ltb 0 m.search_num then show_search platform a m.search_start_scroll_position else done a

-- `update_search()` with a new `search_term`.
abbrev pub search_for : App → Bytes → Run App
search_for a term = do
  screen ← deref (update_search (record a.screen { search_term = term }))
  done (record a { screen = screen })

-- The page of the selected result, if the database has it.
unfoldable pub open_selected : Platform → App → Run App
open_selected platform a = do
  match ← deref (get_elem? a.screen.matches a.screen.results_selected_index)
  key ← deref (get_elem? a.screen.manpage_names match.idx)
  elim (platform.database key) [
    | none ↦ done a
    | some man_file ↦ open_new_page platform a man_file (platform.database_pwd key)
  ]

module _ (platform : Platform) where
  -- The row of result `i` has the point.
  abbrev pub in_result : App → ℤ → ℤ → ℕ → Bool
  in_result a x y i =
      let input_height = platform.line_height *ℤ pos 3 /ℤ pos 2 in
      let left = a.window_width /ℤ pos 2 -ℤ platform.dimension search_width /ℤ pos 2 in
      let top_result_box = pos 100 +ℤ input_height +ℤ platform.dimension gui_padding in
      leb_ℤ left x
      && (ltb_ℤ x (left +ℤ platform.dimension search_width)
          && (leb_ℤ (top_result_box +ℤ pos i *ℤ input_height) y
              && ltb_ℤ y (top_result_box +ℤ pos i *ℤ input_height +ℤ input_height)))

  -- The loop with `rows` more rounds, from row `i`.
  unfoldable pub hit_rows : App → ℤ → ℤ → ℕ → ℕ → Option ℕ
  hit_rows a x y zero i = none
  hit_rows a x y (suc rows) i =
      let rest = hit_rows a x y rows (i + 1) in if in_result a x y i then some i else rest

  -- `none` is -1.
  unfoldable pub results_hittest : App → ℤ → ℤ → Option ℕ
  results_hittest a x y = hit_rows a x y a.screen.results_shown_lines 0

  -- Where a link of the page shown stands in the window.
  abbrev pub link_recti : Manpage → Link → Recti
  link_recti m l =
      moved l.document_rectangle (margin platform) (margin platform -ℤ m.scroll_position)

  unfoldable pub find_link : Manpage → List Link → ℤ → ℤ → Option Link
  find_link m [] x y = none
  find_link m (l ∷ links) x y =
      let rest = find_link m links x y in if inside_recti (link_recti m l) x y then some l else rest

  unfoldable pub link_under_cursor : App → ℤ → ℤ → Run (Option Link)
  link_under_cursor a x y = the_page a >>= λ m. done (find_link m m.links x y)
