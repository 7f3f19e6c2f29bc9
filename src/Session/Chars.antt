-- ===== src/Session/Chars.antt =====
-- The characters that are typed keep the session's invariant.
use mangl.Prelude.{
  ℕ, ◌-◌, Bool, true, false, Option, none, some, ltb, leb, ◌==◌, if◌then◌else◌, get_elem?, length,
  ℤ, Bytes, refl,
}
use mangl.Run.{Run, done, deref, strcpy, ◌>>=◌, Yields, Yields-bind}
use mangl.ManSearch.{SearchScreen}
use mangl.App.{
  App, Manpage, Platform, DisplayMode, d_manpage, d_search, the_page, put_page, post_redisplay,
}
use mangl.History.{reload_current_page, update_window_title}
use mangl.Input.{search_for, open_selected}
use mangl.Input.Chars.{
  char_in_search_input, start_search, next_index, previous_index, go_to_search, scroll_lines,
  command, char_in_page, char_in_search, char_func, appended,
}
use mangl.Session.Kept.{
  IsSession, Kept, Kept-refl, Kept-trans, IsSession-Kept, Yields-if, Yields-weaken, IsPage, on_page,
  put_page-Kept, post_redisplay-Kept,
}
use mangl.Session.Frame.{
  Kept-then, Kept-redisplay, set_scroll_position-Kept, show_search-Kept, show_first_search-Kept,
  search_for-Kept, search_page-Kept,
}
use mangl.Session.Moves.{open_new_page-IsSession, page_back-IsSession, page_forward-IsSession}

module _ (platform : Platform) where
  pub Kept-if : {a b c : App} (t : Bool) → Kept a b → Kept a c → Kept a (if t then b else c)
  Kept-if true h k = h
  Kept-if false h k = k

  -- A step of a session that leaves the stack alone.
  pub keep : (a : App) (r : Run App) → IsSession a → Yields r (Kept a) → Yields r IsSession
  keep a r is h = Yields-weaken r (Kept a) IsSession (λ b kept. IsSession-Kept is kept) h

  pub open_selected-IsSession :
      (a : App) → IsSession a → Yields (open_selected platform a) IsSession
  unfolding open_selected
  open_selected-IsSession a is =
      Yields-bind (deref (get_elem? a.screen.matches a.screen.results_selected_index)) _ IsSession
        (λ match.
          Yields-bind (deref (get_elem? a.screen.manpage_names match.idx)) _ IsSession
            (λ key. opened key (platform.database key)))
    where
      opened :
          (key : Bytes) (o : Option Bytes)
          → Yields
              (elim o [
                | none ↦ done a
                | some file ↦
                    mangl.History.open_new_page platform a file (platform.database_pwd key)
              ])
              IsSession
      opened key none = is
      opened key (some file) =
          open_new_page-IsSession platform a file (platform.database_pwd key) is

  char_in_search_input-Kept :
      (a : App) (c : ℕ) → Yields (char_in_search_input platform a c) (Kept a)
  unfolding char_in_search_input
  char_in_search_input-Kept a c =
      Yields-if (ltb c 0x80) _ _ (Kept a)
        (on_page a _ (Kept a) (λ m is.
          Yields-if (leb (length m.search_string) (256 - 2)) _ _ (Kept a)
            (Kept-then platform a _ _ (search_page-Kept platform a _)
              (λ b kept. Kept-redisplay platform b _ (show_first_search-Kept platform b)))
            (Kept-refl a)))
        (Kept-refl a)

  go_to_search-Kept :
      (a : App) (m : Manpage) (index : ℤ)
      → IsPage a m
      → Yields (go_to_search platform a m index) (Kept a)
  go_to_search-Kept a m index is =
      Yields-if m.search_visible _ _ (Kept a)
        (Yields-weaken _ (Kept (put_page a (record m { search_index = index }))) (Kept a)
          (λ b kept. Kept-trans (put_page-Kept a m _ is refl) kept)
          (Kept-redisplay platform (put_page a (record m { search_index = index })) _ (
            show_search-Kept platform (put_page a (record m { search_index = index }))
              m.scroll_position)))
        (Kept-refl a)

  scroll_lines-Kept : (a : App) (count : ℤ) → Yields (scroll_lines platform a count) (Kept a)
  scroll_lines-Kept a count = on_page a _ (Kept a) (λ m is. set_scroll_position-Kept platform a _)

  start_search-Kept :
      (a : App)
      → Yields
          (the_page a >>= λ m. done (post_redisplay (put_page a (start_search platform m))))
          (Kept a)
  start_search-Kept a =
      on_page a _ (Kept a) (λ m is. post_redisplay-Kept (put_page-Kept a m _ is refl))

  asked-Kept : (a : App) (w : Option ℤ) → Kept a (record a { asked_width = w })
  asked-Kept a w = record {
    stack = refl;
    position = refl;
    page = refl;
    mode = refl;
    alive = λ p l. l;
  }

  command-IsSession : (a : App) (c : ℕ) → IsSession a → Yields (command platform a c) IsSession
  unfolding command
  command-IsSession a c is = Yields-if (c == b'q') _ _ IsSession tt (
      Yields-if (c == b'Q') _ _ IsSession tt (
        Yields-if (c == b'b') _ _ IsSession (page_back-IsSession platform a is) (
          Yields-if (c == b'/') _ _ IsSession (keep a _ is (start_search-Kept a)) (
            Yields-if (c == b'n') _ _ IsSession
              (keep a _ is
                (on_page a _ (Kept a) (λ m at. go_to_search-Kept a m (next_index platform m) at)))
              (Yields-if (c == b'N') _ _ IsSession
                (keep a _ is (
                  on_page a _ (Kept a)
                    (λ m at. go_to_search-Kept a m (previous_index platform m) at)))
                (Yields-if (c == b'f') _ _ IsSession (page_forward-IsSession platform a is) (
                  Yields-if (c == b'i') _ _ IsSession (IsSession-Kept is (asked-Kept a _)) (
                    Yields-if (c == b'o') _ _ IsSession (IsSession-Kept is (asked-Kept a _)) (
                      Yields-if (c == b'k') _ _ IsSession (keep a _ is (scroll_lines-Kept a _)) (
                        Yields-if (c == b'j') _ _ IsSession (keep a _ is (scroll_lines-Kept a _)) (
                          Yields-if (c == b'K') _ _ IsSession (keep a _ is (scroll_lines-Kept a _))
                            (Yields-if (c == b'J') _ _ IsSession
                              (keep a _ is (scroll_lines-Kept a _))
                              (Yields-if (c == b'G') _ _ IsSession
                                (keep a _ is (set_scroll_position-Kept platform a _))
                                (is))))))))))))))

  char_in_page-IsSession :
      (a : App) (c : ℕ) → IsSession a → Yields (char_in_page platform a c) IsSession
  unfolding char_in_page
  char_in_page-IsSession a c is = Yields-if (leb 0x80 c) _ _ IsSession is (
      Yields-if (c == b'g') _ _ IsSession
        (Yields-if a.g_pending _ _ IsSession
          (keep a _ is (
            Kept-then platform a _ _ (set_scroll_position-Kept platform a _)
              (λ b kept. pending b false)))
          (IsSession-Kept is (pending a true)))
        (Yields-if a.g_pending _ _ IsSession (IsSession-Kept is (pending a false))
          (command-IsSession a c is)))
    where
      pending : (b : App) (g : Bool) → Kept b (record b { g_pending = g })
      pending b g = record {
        stack = refl;
        position = refl;
        page = refl;
        mode = refl;
        alive = λ p l. l;
      }

  pub searched-Kept :
      (a : App) (term : Bytes)
      → Yields (search_for a term >>= λ b. done (post_redisplay b)) (Kept a)
  searched-Kept a term = Kept-redisplay platform a _ (search_for-Kept platform a term)

  char_in_search-Kept : (a : App) (c : ℕ) → Yields (char_in_search platform a c) (Kept a)
  unfolding char_in_search
  char_in_search-Kept a c =
      Yields-if (ltb c 0x80) _ _ (Kept a)
        (Yields-bind (strcpy 512 (appended a.screen.search_term c)) _ (Kept a)
          (λ term. searched-Kept a term))
        (Kept-refl a)

  -- A handler that branches on what is displayed.
  pub by_mode :
      (a : App) (x y : Run App) (P : App → Type 0)
      → Yields x P
      → Yields y P
      → Yields (elim a.display_mode [ d_manpage ↦ x | d_search ↦ y ]) P
  by_mode a x y P h k =
      elim a.display_mode
        as (λ (d : DisplayMode). Yields (elim d [ d_manpage ↦ x | d_search ↦ y ]) P) [
          | d_manpage ↦ h
          | d_search ↦ k
        ]

  pub char_func-IsSession :
      (a : App) (c : ℕ) → IsSession a → Yields (char_func platform a c) IsSession
  unfolding char_func
  char_func-IsSession a c is =
      by_mode a _ _ IsSession
        (on_page a _ IsSession (λ m at.
          Yields-if m.search_input_active _ _ IsSession
            (keep a _ is (char_in_search_input-Kept a c)) (char_in_page-IsSession a c is)))
        (keep a _ is (char_in_search-Kept a c))

  -- Another state of the search screen.
  pub with_screen-Kept : (a : App) (s : SearchScreen) → Kept a (record a { screen = s })
  with_screen-Kept a s = record {
    stack = refl;
    position = refl;
    page = refl;
    mode = refl;
    alive = λ p l. l;
  }
