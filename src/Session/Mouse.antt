-- ===== src/Session/Mouse.antt =====
-- The mouse's buttons keep the session's invariant.
use mangl.Prelude.{
  ℕ, ◌+◌, false, Option, none, some, ltb, if◌then◌else◌, ◌+ℤ◌, ◌-ℤ◌, ltb_ℤ, leb_ℤ, refl,
}
use mangl.Run.{done, ◌>>=◌, Yields, Yields-bind}
use mangl.App.{App, Link, Platform, scrollbar_width}
use mangl.Scroll.{scrollbar_thumb_hittest, get_left_margin}
use mangl.History.{open_new_page}
use mangl.Input.{Action, press, release, repeat, results_hittest, link_under_cursor, open_selected}
use mangl.Input.Mouse.{
  Button, left, right, other_button, same_link, left_press, left_release, click_result,
  mouse_button_func,
}
use mangl.Session.Kept.{IsSession, Kept, Kept-refl, IsSession-Kept, Yields-if, on_page}
use mangl.Session.Frame.{set_scroll_position-Kept}
use mangl.Session.Moves.{open_new_page-IsSession, page_back-IsSession}
use mangl.Session.Chars.{keep, by_mode, open_selected-IsSession, with_screen-Kept}

module _ (platform : Platform) where
  left_press-Kept : (a : App) → Yields (left_press platform a) (Kept a)
  unfolding left_press link_under_cursor
  left_press-Kept a =
      Yields-if (scrollbar_thumb_hittest platform a a.mouse_x a.mouse_y) _ _ (Kept a)
        (record { stack = refl; position = refl; page = refl; mode = refl; alive = λ p l. l })
        (Yields-if (leb_ℤ (a.window_width -ℤ platform.dimension scrollbar_width) a.mouse_x) _ _
          (Kept a)
          (Yields-if (ltb_ℤ a.mouse_y a.scrollbar_thumb_position) _ _ (Kept a)
            (on_page a _ (Kept a) (λ m at. set_scroll_position-Kept platform a _))
            (Yields-if (leb_ℤ (a.scrollbar_thumb_position +ℤ a.scrollbar_thumb_size) a.mouse_y) _ _
              (Kept a) (on_page a _ (Kept a) (λ m at. set_scroll_position-Kept platform a _))
              (Kept-refl a)))
          (Yields-bind
            (link_under_cursor platform a (a.mouse_x -ℤ get_left_margin platform a) a.mouse_y) _
            (Kept a)
            (λ link. record {
              stack = refl;
              position = refl;
              page = refl;
              mode = refl;
              alive = λ p l. l;
            })))

  released : (a : App) → Kept a (record a { scrollbar_dragging = false })
  released a = record { stack = refl; position = refl; page = refl; mode = refl; alive = λ p l. l }

  left_release-IsSession : (a : App) → IsSession a → Yields (left_release platform a) IsSession
  unfolding left_release
  left_release-IsSession a is = clicked a.clicked_link
    where
      over :
          (link : Link) (under : Option Link)
          → Yields
              (elim under [
                | none ↦ done (record a { scrollbar_dragging = false })
                | some l ↦
                    if same_link l link
                    then open_new_page platform
                        (record a { scrollbar_dragging = false })
                        link.link
                        (some link.pwd)
                    else done (record a { scrollbar_dragging = false })
              ])
              IsSession
      over link none = IsSession-Kept is (released a)
      over link (some l) =
          Yields-if (same_link l link) _ _ IsSession
            (open_new_page-IsSession platform (record a { scrollbar_dragging = false }) link.link
              (some link.pwd) (IsSession-Kept is (released a)))
            (IsSession-Kept is (released a))

      clicked :
          (o : Option Link)
          → Yields
              (elim o [
                | none ↦ done (record a { scrollbar_dragging = false })
                | some link ↦
                    link_under_cursor platform a (a.mouse_x -ℤ get_left_margin platform a) a.mouse_y
                    >>= λ under. elim under [
                      | none ↦ done (record a { scrollbar_dragging = false })
                      | some l ↦
                          if same_link l link
                          then open_new_page platform
                              (record a { scrollbar_dragging = false })
                              link.link
                              (some link.pwd)
                          else done (record a { scrollbar_dragging = false })
                    ]
              ])
              IsSession
      clicked none = IsSession-Kept is (released a)
      clicked (some link) =
          Yields-bind
            (link_under_cursor platform a (a.mouse_x -ℤ get_left_margin platform a) a.mouse_y) _
            IsSession (over link)

  click_result-IsSession : (a : App) → IsSession a → Yields (click_result platform a) IsSession
  unfolding click_result
  click_result-IsSession a is = hit (results_hittest platform a a.mouse_x a.mouse_y)
    where
      hit :
          (o : Option ℕ)
          → Yields
              (elim o [
                | none ↦ done a
                | some index ↦
                    if ltb (index + a.screen.results_view_offset) a.screen.matches_count
                    then open_selected platform (record a {
                      screen = record a.screen {
                        results_selected_index = index + a.screen.results_view_offset;
                      };
                    })
                    else done a
              ])
              IsSession
      hit none = is
      hit (some index) =
          Yields-if (ltb (index + a.screen.results_view_offset) a.screen.matches_count) _ _
            IsSession
            (open_selected-IsSession platform _ (IsSession-Kept is (with_screen-Kept platform a _)))
            is

  pub mouse_button_func-IsSession :
      (a : App) (b : Button) (action : Action)
      → IsSession a
      → Yields (mouse_button_func platform a b action) IsSession
  unfolding mouse_button_func
  mouse_button_func-IsSession a left press is =
      by_mode platform a _ _ IsSession (keep platform a _ is (left_press-Kept a)) is
  mouse_button_func-IsSession a left release is =
      by_mode platform a _ _ IsSession (left_release-IsSession a is) (click_result-IsSession a is)
  mouse_button_func-IsSession a left repeat is = is
  mouse_button_func-IsSession a right release is =
      by_mode platform a _ _ IsSession (page_back-IsSession platform a is) is
  mouse_button_func-IsSession a right press is = is
  mouse_button_func-IsSession a right repeat is = is
  mouse_button_func-IsSession a other_button action is = is
