-- ===== src/Session/Frame.antt =====
-- The steps on the page and on the search screen that several handlers take leave the stack alone.
use mangl.Prelude.{◌≡◌, refl, sym, false, inl, inr, ltb, ◌==◌, length, ℤ, Bytes, Bool-cases}
use mangl.Run.{Run, done, deref, ◌>>=◌, Yields, Yields-bind}
use mangl.ManSearch.{update_search}
use mangl.App.{App, Recti, Manpage, Platform, DisplayMode, d_manpage, d_search, post_redisplay}
use mangl.PageSearch.{search_lines, update_page_search}
use mangl.Scroll.{
  eq_ℤ, set_scroll_position, scroll_page, scroll_in_view, update_scrollbar, clamp_scroll_position,
}
use mangl.History.{update_window_title, show_page}
use mangl.Input.{current_search, search_page, show_search, show_first_search, search_for}
use mangl.Session.Kept.{
  Kept, Kept-refl, Kept-trans, Yields-then, Yields-if, Yields-weaken, on_page, put_page-Kept,
  post_redisplay-Kept,
}

module _ (platform : Platform) where
  update_page_search-freed :
      (m : Manpage) → Yields (update_page_search platform m) (λ m'. m'.freed ≡ m.freed)
  unfolding update_page_search
  update_page_search-freed m =
      Yields-if (length m.search_string == 0) _ _ (λ (m' : Manpage). m'.freed ≡ m.freed) refl
        (Yields-if m.freed _ _ (λ (m' : Manpage). m'.freed ≡ m.freed) tt
          (Yields-bind
            (search_lines platform m.search_start_scroll_position m.search_string m.lines 0
              (record {
                searches = m.searches;
                search_num = 0;
                search_index = 0;
                search_index_set = false;
              }))
            _ (λ (m' : Manpage). m'.freed ≡ m.freed) (λ f. refl)))

  pub set_scroll_position-Kept :
      (a : App) (y : ℤ) → Yields (set_scroll_position platform a y) (Kept a)
  unfolding set_scroll_position
  set_scroll_position-Kept a y = on_page a _ (Kept a) (λ m is.
      let target = clamp_scroll_position platform a m y in
      elim (Bool-cases (eq_ℤ target m.scroll_position)) [
        | inl e ↦ rw e (Kept-refl a)
        | inr e ↦ rw e (
            post_redisplay-Kept (put_page-Kept a m (record m { scroll_position = target }) is refl))
      ])

  pub scroll_page-Kept : (a : App) (amount : ℤ) → Yields (scroll_page platform a amount) (Kept a)
  unfolding scroll_page
  scroll_page-Kept a amount = on_page a _ (Kept a) (λ m is. set_scroll_position-Kept a _)

  pub update_scrollbar-Kept : (a : App) → Yields (update_scrollbar platform a) (Kept a)
  unfolding update_scrollbar
  update_scrollbar-Kept a = go a.display_mode refl
    where
      go : (d : DisplayMode) → a.display_mode ≡ d → Yields (update_scrollbar platform a) (Kept a)
      go d_search e = simp (update_scrollbar, e) (Kept-refl a)
      go d_manpage e =
          simp (update_scrollbar, e)
            (on_page a _ (Kept a) (λ m is. record {
              stack = refl;
              position = refl;
              page = refl;
              mode = sym e;
              alive = λ p l. l;
            }))

  pub update_window_title-Kept : (a : App) → Yields (update_window_title a) (Kept a)
  unfolding update_window_title
  update_window_title-Kept a = go a.display_mode refl
    where
      go : (d : DisplayMode) → a.display_mode ≡ d → Yields (update_window_title a) (Kept a)
      go d_search e =
          simp (update_window_title, e)
            (record { stack = refl; position = refl; page = refl; mode = sym e; alive = λ p l. l })
      go d_manpage e =
          simp (update_window_title, e)
            (on_page a _ (Kept a) (λ m is. record {
              stack = refl;
              position = refl;
              page = refl;
              mode = sym e;
              alive = λ p l. l;
            }))

  -- One step after another.
  pub Kept-then :
      (a : App) (r : Run App) (f : App → Run App)
      → Yields r (Kept a)
      → ((b : App) → Kept a b → Yields (f b) (Kept b))
      → Yields (r >>= f) (Kept a)
  Kept-then a r f h k =
      Yields-then r f (Kept a) (Kept a) h (λ b kept.
        Yields-weaken (f b) (Kept b) (Kept a) (λ c more. Kept-trans kept more) (k b kept))

  -- A step that ends with a redisplay.
  pub Kept-redisplay :
      (a : App) (r : Run App)
      → Yields r (Kept a)
      → Yields (r >>= λ b. done (post_redisplay b)) (Kept a)
  Kept-redisplay a r h = Kept-then a r _ h (λ b kept. post_redisplay-Kept (Kept-refl b))

  pub show_page-Kept : (a : App) → Yields (show_page platform a) (Kept a)
  unfolding show_page
  show_page-Kept a =
      Kept-then a (update_window_title a) _ (update_window_title-Kept a)
        (λ b kept. Kept-redisplay b _ (update_scrollbar-Kept b))

  pub scroll_in_view-Kept :
      (a : App) (r : Recti) (y : ℤ) → Yields (scroll_in_view platform a r y) (Kept a)
  unfolding scroll_in_view
  scroll_in_view-Kept a r y = on_page a _ (Kept a) (λ m is. put_page-Kept a m _ is refl)

  pub show_search-Kept : (a : App) (y : ℤ) → Yields (show_search platform a y) (Kept a)
  show_search-Kept a y =
      on_page a _ (Kept a)
        (λ m is. Yields-bind (current_search m) _ (Kept a) (λ r. scroll_in_view-Kept a _ y))

  pub show_first_search-Kept : (a : App) → Yields (show_first_search platform a) (Kept a)
  show_first_search-Kept a =
      on_page a _ (Kept a)
        (λ m is. Yields-if (ltb 0 m.search_num) _ _ (Kept a) (show_search-Kept a _) (Kept-refl a))

  pub search_for-Kept : (a : App) (term : Bytes) → Yields (search_for a term) (Kept a)
  search_for-Kept a term =
      Yields-bind (deref (update_search (record a.screen { search_term = term }))) _ (Kept a)
        (λ screen. record {
          stack = refl;
          position = refl;
          page = refl;
          mode = refl;
          alive = λ p l. l;
        })

  pub search_page-Kept :
      (a : App) (string : Bytes) → Yields (search_page platform a string) (Kept a)
  search_page-Kept a string = on_page a _ (Kept a) (λ m is.
      Yields-then (update_page_search platform (record m { search_string = string })) _
        (λ m'. m'.freed ≡ m.freed) (Kept a)
        (update_page_search-freed (record m { search_string = string }))
        (λ m' same. put_page-Kept a m m' is same))
