-- ===== src/Session/Moved.antt =====
-- The mouse's moves and its wheel keep the session's invariant.
use mangl.Prelude.{
  ℕ, ◌-◌, ◌+◌, Bool, true, false, not, ◌==◌, Option, none, some, ltb, if◌then◌else◌, ℤ, ◌+ℤ◌, ◌-ℤ◌,
  refl,
}
use mangl.Run.{done, ◌>>=◌, Yields}
use mangl.App.{App, Platform, the_page, scroll_amount}
use mangl.Scroll.{
  set_scroll_position, scrollbar_thumb_hittest, scrollbar_thumb_position_to_scroll_position,
}
use mangl.Input.{results_hittest}
use mangl.Input.Mouse.{
  Wheel, wheel_up, wheel_down, wheel_still, with_redisplay, drag, hover_page, hover_result,
  mouse_pos_func, scroll_results, wheel_in_search, mouse_scroll_func,
}
use mangl.Session.Kept.{
  IsSession, Kept, Kept-refl, Kept-trans, Yields-then, Yields-if, Yields-weaken, on_page,
  put_page-Kept, post_redisplay-Kept,
}
use mangl.Session.Frame.{set_scroll_position-Kept}
use mangl.Session.Chars.{keep, by_mode, with_screen-Kept, Kept-if}

module _ (platform : Platform) where
  drag-Kept : (a : App) → Yields (drag platform a) (Kept a)
  unfolding drag scrollbar_thumb_position_to_scroll_position
  drag-Kept a =
      Yields-then (scrollbar_thumb_position_to_scroll_position platform a _) _ (λ r. Kept a r.0)
        (Kept a)
        (on_page a _ (λ r. Kept a r.0)
          (λ m at. record {
            stack = refl;
            position = refl;
            page = refl;
            mode = refl;
            alive = λ p l. l;
          }))
        (λ r kept.
          Yields-weaken (set_scroll_position platform r.0 r.1) (Kept r.0) (Kept a)
            (λ b more. Kept-trans kept more) (set_scroll_position-Kept platform r.0 r.1))

  redisplay-Kept : {a b : App} (t : Bool) → Kept a b → Kept a (with_redisplay platform t b)
  redisplay-Kept true h = post_redisplay-Kept h
  redisplay-Kept false h = h

  hover_page-Kept : (a : App) → Yields (hover_page platform a) (Kept a)
  unfolding hover_page
  hover_page-Kept a = on_page a _ (Kept a) (λ m at. redisplay-Kept _ (
      Kept-trans (hovered (scrollbar_thumb_hittest platform a a.mouse_x a.mouse_y)) (
        put_page-Kept
          (record a {
            scrollbar_thumb_hover = scrollbar_thumb_hittest platform a a.mouse_x a.mouse_y;
          })
          m _ at refl)))
    where
      hovered : (t : Bool) → Kept a (record a { scrollbar_thumb_hover = t })
      hovered t = record {
        stack = refl;
        position = refl;
        page = refl;
        mode = refl;
        alive = λ p l. l;
      }

  hover_result-Kept : (a : App) → Kept a (hover_result platform a)
  unfolding hover_result
  hover_result-Kept a =
      elim (results_hittest platform a a.mouse_x a.mouse_y)
        as (λ o. Kept a (elim o [
          | none ↦ a
          | some index ↦
              if ltb (index + a.screen.results_view_offset) a.screen.matches_count
              then with_redisplay platform
                  (not (a.screen.results_selected_index == index + a.screen.results_view_offset))
                  (record a {
                    screen = record a.screen {
                      results_selected_index = index + a.screen.results_view_offset;
                    };
                  })
              else a
        ])) [
          | none ↦ Kept-refl a
          | some index ↦
              Kept-if platform (ltb (index + a.screen.results_view_offset) a.screen.matches_count)
                (redisplay-Kept _ (with_screen-Kept platform a _)) (Kept-refl a)
        ]

  pub mouse_pos_func-IsSession :
      (a : App) (x y : ℤ) → IsSession a → Yields (mouse_pos_func platform a x y) IsSession
  unfolding mouse_pos_func
  mouse_pos_func-IsSession a x y is = keep platform a _ is (
      Yields-weaken _ (Kept b) (Kept a) (λ c kept. Kept-trans moved kept)
        (by_mode platform b _ _ (Kept b)
          (Yields-if a.scrollbar_dragging _ _ (Kept b) (drag-Kept b) (hover_page-Kept b))
          (hover_result-Kept b)))
    where
      b : App
      b = record a { mouse_x = x; mouse_y = y }

      moved : Kept a b
      moved = record { stack = refl; position = refl; page = refl; mode = refl; alive = λ p l. l }

  scroll_results-Kept :
      (a : App) (index offset : ℕ) → Kept a (scroll_results platform a index offset)
  scroll_results-Kept a index offset = post_redisplay-Kept (with_screen-Kept platform a _)

  wheel_in_search-Kept : (a : App) (wheel : Wheel) → Kept a (wheel_in_search platform a wheel)
  unfolding wheel_in_search
  wheel_in_search-Kept a wheel = hit (results_hittest platform a a.mouse_x a.mouse_y) wheel
    where
      hit :
          (o : Option ℕ) (wheel : Wheel)
          → Kept a (elim o [
            | none ↦ a
            | some index ↦ elim wheel [
              | wheel_up ↦
                  if ltb 0 a.screen.results_view_offset
                  then scroll_results platform a index (a.screen.results_view_offset - 1)
                  else a
              | wheel_down ↦
                  if ltb
                    (a.screen.results_view_offset + a.screen.results_shown_lines)
                    a.screen.matches_count
                  then scroll_results platform a index (a.screen.results_view_offset + 1)
                  else a
              | wheel_still ↦ a
            ]
          ])
      hit none wheel = Kept-refl a
      hit (some index) wheel_up =
          Kept-if platform (ltb 0 a.screen.results_view_offset) (scroll_results-Kept a index _)
            (Kept-refl a)
      hit (some index) wheel_down =
          Kept-if platform
            (ltb (a.screen.results_view_offset + a.screen.results_shown_lines)
              a.screen.matches_count)
            (scroll_results-Kept a index _) (Kept-refl a)
      hit (some index) wheel_still = Kept-refl a

  wheel_in_page-Kept :
      (a : App) (wheel : Wheel)
      → Yields
          (elim wheel [
            | wheel_up ↦ the_page a >>= λ m.
                set_scroll_position platform a
                  (m.scroll_position -ℤ platform.dimension scroll_amount)
            | wheel_down ↦ the_page a >>= λ m.
                set_scroll_position platform a
                  (m.scroll_position +ℤ platform.dimension scroll_amount)
            | wheel_still ↦ done a
          ])
          (Kept a)
  wheel_in_page-Kept a wheel_up =
      on_page a _ (Kept a) (λ m at. set_scroll_position-Kept platform a _)
  wheel_in_page-Kept a wheel_down =
      on_page a _ (Kept a) (λ m at. set_scroll_position-Kept platform a _)
  wheel_in_page-Kept a wheel_still = Kept-refl a

  pub mouse_scroll_func-IsSession :
      (a : App) (wheel : Wheel)
      → IsSession a
      → Yields (mouse_scroll_func platform a wheel) IsSession
  unfolding mouse_scroll_func
  mouse_scroll_func-IsSession a wheel is =
      keep platform a _ is (
        by_mode platform a _ _ (Kept a) (wheel_in_page-Kept a wheel) (wheel_in_search-Kept a wheel))
