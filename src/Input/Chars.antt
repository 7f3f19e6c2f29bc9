-- ===== src/Input/Chars.antt =====
-- `char_func` of main.c: the characters that are typed.
use mangl.Prelude.{
  ℕ, ◌-◌, true, false, [], ◌∷◌, ◌++◌, ltb, leb, ◌==◌, if◌then◌else◌, length, some, ℤ, pos, ◌+ℤ◌,
  ◌-ℤ◌, ◌*ℤ◌, ltb_ℤ, leb_ℤ, Bytes,
}
use mangl.Run.{Run, done, exited, strcpy, ◌>>=◌}
use mangl.App.{
  Manpage, Platform, App, d_manpage, d_search, the_page, put_page, post_redisplay, scroll_amount,
}
use mangl.Scroll.{set_scroll_position, fitting_window_width}
use mangl.History.{page_back, page_forward}
use mangl.Input.{search_page, show_search, show_first_search, search_for}

-- `strcat(s, (char[]){ c, 0 })`
abbrev pub appended : Bytes → ℕ → Bytes
appended s c = if c == 0 then s else s ++ c ∷ []

module _ (platform : Platform) where
  -- D_MANPAGE, with the search string being typed: it has 256 bytes of room.
  unfoldable pub char_in_search_input : App → ℕ → Run App
  char_in_search_input a codepoint =
      if ltb codepoint 0x80
      then (do
        m ← the_page a
        if leb (length m.search_string) (256 - 2)
            then (do
              searched ← search_page platform a (appended m.search_string codepoint)
              shown ← show_first_search platform searched
              done (post_redisplay shown))
            else done a)
      else done a

  abbrev pub start_search : Manpage → Manpage
  start_search m = record m {
    search_string = [];
    search_num = 0;
    search_index = pos 0;
    search_start_scroll_position = m.scroll_position;
    search_visible = true;
    search_input_active = true;
  }

  -- The index after `n`.
  unfoldable pub next_index : Manpage → ℤ
  next_index m =
      if leb_ℤ (pos m.search_num) (m.search_index +ℤ pos 1)
      then m.search_index +ℤ pos 1 -ℤ pos m.search_num
      else m.search_index +ℤ pos 1

  -- The index after `N`.
  unfoldable pub previous_index : Manpage → ℤ
  previous_index m =
      if ltb_ℤ (m.search_index -ℤ pos 1) (pos 0)
      then m.search_index -ℤ pos 1 +ℤ pos m.search_num
      else m.search_index -ℤ pos 1

  -- The step from match to match.
  abbrev pub go_to_search : App → Manpage → ℤ → Run App
  go_to_search a m index =
      if m.search_visible
      then (show_search platform (put_page a (record m { search_index = index })) m.scroll_position
          >>= λ b. done (post_redisplay b))
      else done a

  abbrev pub scroll_lines : App → ℤ → Run App
  scroll_lines a count = do
    m ← the_page a
    set_scroll_position platform a (m.scroll_position +ℤ count *ℤ platform.dimension scroll_amount)

  -- D_MANPAGE: the commands behind the tests for `g`.
  unfoldable pub command : App → ℕ → Run App
  command a key =
      if key == b'q'
      then exited 0
      else if key == b'Q'
      then exited 0
      else if key == b'b'
      then page_back platform a
      else if key == b'/'
      then (the_page a >>= λ m. done (post_redisplay (put_page a (start_search m))))
      else if key == b'n'
      then (the_page a >>= λ m. go_to_search a m (next_index m))
      else if key == b'N'
      then (the_page a >>= λ m. go_to_search a m (previous_index m))
      else if key == b'f'
      then page_forward platform a
      else if key == b'i'
      then done (record a { asked_width = some (fitting_window_width platform a) })
      else if key == b'o'
      then done (record a { asked_width = some (fitting_window_width platform a) })
      else if key == b'k'
      then scroll_lines a (pos 0 -ℤ pos 1)
      else if key == b'j'
      then scroll_lines a (pos 1)
      else if key == b'K'
      then scroll_lines a (pos 0 -ℤ pos 5)
      else if key == b'J'
      then scroll_lines a (pos 5)
      else if key == b'G'
      then set_scroll_position platform a (pos 1000000000)
      else done a

  -- D_MANPAGE: `gg` goes to the top, and a command behind a single `g` is dropped.
  unfoldable pub char_in_page : App → ℕ → Run App
  char_in_page a codepoint =
      if leb 0x80 codepoint
      then done a
      else if codepoint == b'g'
      then (if a.g_pending
          then (set_scroll_position platform a (pos 0) >>= λ b.
              done (record b { g_pending = false }))
          else done (record a { g_pending = true }))
      else if a.g_pending
      then done (record a { g_pending = false })
      else command a codepoint

  -- D_SEARCH: the term has 512 bytes of room.
  unfoldable pub char_in_search : App → ℕ → Run App
  char_in_search a codepoint =
      if ltb codepoint 0x80
      then (do
        term ← strcpy 512 (appended a.screen.search_term codepoint)
        searched ← search_for a term
        done (post_redisplay searched))
      else done a

  unfoldable pub char_func : App → ℕ → Run App
  char_func a codepoint = elim a.display_mode [
    | d_manpage ↦ (do
      m ← the_page a
      if m.search_input_active then char_in_search_input a codepoint else char_in_page a codepoint)
    | d_search ↦ char_in_search a codepoint
  ]
