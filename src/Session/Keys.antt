-- ===== src/Session/Keys.antt =====
-- The keys keep the session's invariant.
use mangl.Prelude.{◌+◌, [], Bool, false, ltb, if◌then◌else◌, length, ℤ, Bytes, refl, ◌&&◌}
use mangl.Text.{codes, same_text}
use mangl.Run.{done, exited, deref, ◌>>=◌, Yields, Yields-bind}
use mangl.App.{App, Platform, d_search, the_page, put_page, post_redisplay}
use mangl.History.{update_window_title}
use mangl.Input.{Action, press, release, repeat, Mods, search_for, open_selected}
use mangl.Input.Keys.{
  Key, escape, enter, kp_enter, backspace, up, down, page_up, page_down, home, end_key, space,
  key_c, key_d, key_v, other_key, name_of, is_quit, cancel_search, paste_search,
  key_in_search_input, scroll_by, named_key_in_page, clear_search, key_in_page, select_previous,
  select_next, paste_term, key_in_search, key_pressed, key_func,
}
use mangl.Session.Kept.{
  IsSession, Kept, Kept-refl, Kept-trans, IsSession-Kept, Yields-if, Yields-weaken, on_page,
  put_page-Kept, post_redisplay-Kept,
}
use mangl.Session.Frame.{
  Kept-then, Kept-redisplay, set_scroll_position-Kept, scroll_page-Kept, show_first_search-Kept,
  search_for-Kept, search_page-Kept, update_window_title-Kept,
}
use mangl.Session.Moves.{page_back-IsSession, reload_current_page-IsSession}
use mangl.Session.Chars.{
  Kept-if, keep, by_mode, searched-Kept, open_selected-IsSession, with_screen-Kept,
}

module _ (platform : Platform) where
  cancel_search-Kept : (a : App) → Yields (cancel_search platform a) (Kept a)
  cancel_search-Kept a = on_page a _ (Kept a) (λ m at.
      Yields-weaken _ (Kept (put_page a (record m { search_input_active = false }))) (Kept a)
        (λ b kept. Kept-trans (put_page-Kept a m _ at refl) kept)
        (Kept-redisplay platform (put_page a (record m { search_input_active = false })) _ (
          set_scroll_position-Kept platform (put_page a (record m { search_input_active = false }))
            m.search_start_scroll_position)))

  accept-Kept :
      (a : App)
      → Yields
          (the_page a >>= λ m.
            done (post_redisplay (put_page a (record m { search_input_active = false }))))
          (Kept a)
  accept-Kept a = on_page a _ (Kept a) (λ m at. post_redisplay-Kept (put_page-Kept a m _ at refl))

  paste_search-Kept : (a : App) → Yields (paste_search platform a) (Kept a)
  paste_search-Kept a = Yields-bind (deref platform.clipboard) _ (Kept a) (λ clipboard.
      Yields-if (ltb (length clipboard) 30) _ _ (Kept a)
        (Kept-redisplay platform a _ (search_page-Kept platform a _)) (Kept-refl a))

  named_in_input-Kept :
      (a : App) (k : Bytes) (mods : Mods)
      → Yields
          (if is_quit k
            then (if mods.control then cancel_search platform a else done a)
            else if same_text k (codes "v") && mods.control
            then paste_search platform a
            else done a)
          (Kept a)
  named_in_input-Kept a k mods =
      Yields-if (is_quit k) _ _ (Kept a)
        (Yields-if mods.control _ _ (Kept a) (cancel_search-Kept a) (Kept-refl a))
        (Yields-if (same_text k (codes "v") && mods.control) _ _ (Kept a) (paste_search-Kept a)
          (Kept-refl a))

  key_in_search_input-Kept :
      (a : App) (k : Key) (mods : Mods) → Yields (key_in_search_input platform a k mods) (Kept a)
  unfolding key_in_search_input
  key_in_search_input-Kept a escape mods = cancel_search-Kept a
  key_in_search_input-Kept a enter mods = accept-Kept a
  key_in_search_input-Kept a kp_enter mods = accept-Kept a
  key_in_search_input-Kept a backspace mods = on_page a _ (Kept a) (λ m at.
      Yields-if (ltb 0 (length m.search_string)) _ _ (Kept a)
        (Kept-then platform a _ _ (search_page-Kept platform a _)
          (λ b kept. Kept-redisplay platform b _ (show_first_search-Kept platform b)))
        (Kept-refl a))
  key_in_search_input-Kept a up mods = named_in_input-Kept a (name_of up) mods
  key_in_search_input-Kept a down mods = named_in_input-Kept a (name_of down) mods
  key_in_search_input-Kept a page_up mods = named_in_input-Kept a (name_of page_up) mods
  key_in_search_input-Kept a page_down mods = named_in_input-Kept a (name_of page_down) mods
  key_in_search_input-Kept a home mods = named_in_input-Kept a (name_of home) mods
  key_in_search_input-Kept a end_key mods = named_in_input-Kept a (name_of end_key) mods
  key_in_search_input-Kept a space mods = named_in_input-Kept a (name_of space) mods
  key_in_search_input-Kept a (key_c n) mods = named_in_input-Kept a (name_of (key_c n)) mods
  key_in_search_input-Kept a (key_d n) mods = named_in_input-Kept a (name_of (key_d n)) mods
  key_in_search_input-Kept a (key_v n) mods = named_in_input-Kept a (name_of (key_v n)) mods
  key_in_search_input-Kept a (other_key n) mods = named_in_input-Kept a (name_of (other_key n)) mods

  -- To the search screen.
  searching : (a : App) → IsSession a → IsSession (record a { display_mode = d_search })
  searching a is = record { browsing = is.browsing; shows = λ e. absurd (cc e) }

  to_search-IsSession :
      (a : App)
      → IsSession a
      → Yields
          (search_for (record a { display_mode = d_search }) [] >>= λ b.
            update_window_title b >>= λ c. done (post_redisplay c))
          IsSession
  to_search-IsSession a is =
      keep platform (record a { display_mode = d_search }) _ (searching a is)
        (Kept-then platform (record a { display_mode = d_search }) _ _
          (search_for-Kept platform (record a { display_mode = d_search }) [])
          (λ b kept. Kept-redisplay platform b _ (update_window_title-Kept platform b)))

  named_key_in_page-IsSession :
      (a : App) (k : Bytes) (mods : Mods)
      → IsSession a
      → Yields (named_key_in_page platform a k mods) IsSession
  unfolding named_key_in_page
  named_key_in_page-IsSession a k mods is =
      Yields-if (is_quit k) _ _ IsSession (Yields-if mods.control _ _ IsSession tt is) (
        Yields-if (same_text k (codes "f") && mods.control) _ _ IsSession (to_search-IsSession a is)
          (Yields-if (same_text k (codes "v")) _ _ IsSession
            (Yields-if mods.alt _ _ IsSession (keep platform a _ is (scroll_page-Kept platform a _))
              (Yields-if mods.control _ _ IsSession
                (keep platform a _ is (scroll_page-Kept platform a _)) is))
            (Yields-if (same_text k (codes "=")) _ _ IsSession
              (reload_current_page-IsSession platform _ (IsSession-Kept is (toggled a _ _))) is)))
    where
      toggled :
          (a : App) (t : Bool) (l : ℤ)
          → Kept a (record a { line_length_toggle = t; current_line_length = l })
      toggled a t l = record {
        stack = refl;
        position = refl;
        page = refl;
        mode = refl;
        alive = λ p l. l;
      }

  clear_search-Kept : (a : App) → Yields (clear_search platform a) (Kept a)
  clear_search-Kept a =
      on_page a _ (Kept a) (λ m at. post_redisplay-Kept (put_page-Kept a m _ at refl))

  scroll_by-Kept : (a : App) (amount : ℤ) → Yields (scroll_by platform a amount) (Kept a)
  scroll_by-Kept a amount = on_page a _ (Kept a) (λ m at. set_scroll_position-Kept platform a _)

  key_in_page-IsSession :
      (a : App) (k : Key) (mods : Mods)
      → IsSession a
      → Yields (key_in_page platform a k mods) IsSession
  unfolding key_in_page
  key_in_page-IsSession a backspace mods is = page_back-IsSession platform a is
  key_in_page-IsSession a escape mods is = page_back-IsSession platform a is
  key_in_page-IsSession a enter mods is = keep platform a _ is (clear_search-Kept a)
  key_in_page-IsSession a kp_enter mods is = keep platform a _ is (clear_search-Kept a)
  key_in_page-IsSession a up mods is = keep platform a _ is (scroll_by-Kept a _)
  key_in_page-IsSession a down mods is = keep platform a _ is (scroll_by-Kept a _)
  key_in_page-IsSession a page_up mods is = keep platform a _ is (scroll_page-Kept platform a _)
  key_in_page-IsSession a page_down mods is = keep platform a _ is (scroll_page-Kept platform a _)
  key_in_page-IsSession a home mods is =
      keep platform a _ is (set_scroll_position-Kept platform a _)
  key_in_page-IsSession a end_key mods is =
      keep platform a _ is (set_scroll_position-Kept platform a _)
  key_in_page-IsSession a space mods is = keep platform a _ is (
      Yields-if mods.shift _ _ (Kept a) (scroll_page-Kept platform a _)
        (scroll_page-Kept platform a _))
  key_in_page-IsSession a (key_c n) mods is =
      named_key_in_page-IsSession a (name_of (key_c n)) mods is
  key_in_page-IsSession a (key_d n) mods is =
      named_key_in_page-IsSession a (name_of (key_d n)) mods is
  key_in_page-IsSession a (key_v n) mods is =
      named_key_in_page-IsSession a (name_of (key_v n)) mods is
  key_in_page-IsSession a (other_key n) mods is =
      named_key_in_page-IsSession a (name_of (other_key n)) mods is

  select_previous-Kept : (a : App) → Kept a (select_previous platform a)
  select_previous-Kept a =
      Kept-if platform (ltb 0 a.screen.results_selected_index)
        (post_redisplay-Kept (with_screen-Kept platform a _)) (Kept-refl a)

  select_next-Kept : (a : App) → Kept a (select_next platform a)
  select_next-Kept a =
      Kept-if platform (ltb (a.screen.results_selected_index + 1) a.screen.matches_count)
        (post_redisplay-Kept (with_screen-Kept platform a _)) (Kept-refl a)

  paste_term-Kept : (a : App) → Yields (paste_term platform a) (Kept a)
  paste_term-Kept a = Yields-bind (deref platform.clipboard) _ (Kept a) (λ clipboard.
      Yields-if (ltb (length clipboard) 30) _ _ (Kept a) (searched-Kept platform a _) (Kept-refl a))

  enter-IsSession :
      (a : App)
      → IsSession a
      → Yields
          (if ltb a.screen.results_selected_index a.screen.matches_count
            then open_selected platform a
            else done a)
          IsSession
  enter-IsSession a is =
      Yields-if (ltb a.screen.results_selected_index a.screen.matches_count) _ _ IsSession
        (open_selected-IsSession platform a is) is

  control-IsSession :
      (a : App) (b : Bool) → IsSession a → Yields (if b then exited 0 else done a) IsSession
  control-IsSession a b is = Yields-if b _ _ IsSession tt is

  key_in_search-IsSession :
      (a : App) (k : Key) (mods : Mods)
      → IsSession a
      → Yields (key_in_search platform a k mods) IsSession
  unfolding key_in_search
  key_in_search-IsSession a up mods is = IsSession-Kept is (select_previous-Kept a)
  key_in_search-IsSession a down mods is = IsSession-Kept is (select_next-Kept a)
  key_in_search-IsSession a (key_c n) mods is = control-IsSession a mods.control is
  key_in_search-IsSession a (key_d n) mods is = control-IsSession a mods.control is
  key_in_search-IsSession a (key_v n) mods is =
      keep platform a _ is (Yields-if mods.control _ _ (Kept a) (paste_term-Kept a) (Kept-refl a))
  key_in_search-IsSession a enter mods is = enter-IsSession a is
  key_in_search-IsSession a kp_enter mods is = enter-IsSession a is
  key_in_search-IsSession a backspace mods is = keep platform a _ is (
      Yields-if (ltb 0 (length a.screen.search_term)) _ _ (Kept a) (searched-Kept platform a _)
        (Kept-refl a))
  key_in_search-IsSession a escape mods is = keep platform a _ is (
      Yields-if (ltb 0 (length a.screen.search_term)) _ _ (Kept a) (searched-Kept platform a _)
        (Kept-refl a))
  key_in_search-IsSession a page_up mods is = is
  key_in_search-IsSession a page_down mods is = is
  key_in_search-IsSession a home mods is = is
  key_in_search-IsSession a end_key mods is = is
  key_in_search-IsSession a space mods is = is
  key_in_search-IsSession a (other_key n) mods is = is

  key_pressed-IsSession :
      (a : App) (k : Key) (mods : Mods)
      → IsSession a
      → Yields (key_pressed platform a k mods) IsSession
  key_pressed-IsSession a k mods is =
      by_mode platform a _ _ IsSession
        (on_page a _ IsSession (λ m at.
          Yields-if m.search_input_active _ _ IsSession
            (keep platform a _ is (key_in_search_input-Kept a k mods))
            (key_in_page-IsSession a k mods is)))
        (key_in_search-IsSession a k mods is)

  pub key_func-IsSession :
      (a : App) (k : Key) (action : Action) (mods : Mods)
      → IsSession a
      → Yields (key_func platform a k action mods) IsSession
  unfolding key_func
  key_func-IsSession a k release mods is = is
  key_func-IsSession a k press mods is = key_pressed-IsSession a k mods is
  key_func-IsSession a k repeat mods is = key_pressed-IsSession a k mods is
