-- ===== src/Input/Keys.antt =====
-- `key_func` of main.c: the keys that write no text.
use mangl.Prelude.{
  ◌+◌, ◌-◌, Bool, false, not, ◌&&◌, ◌||◌, Option, some, [], ltb, if◌then◌else◌, length, take, ℤ,
  pos, negsuc, ◌+ℤ◌, ◌-ℤ◌, Bytes,
}
use mangl.Text.{codes, same_text}
use mangl.Run.{Run, done, exited, deref, truncated, ◌>>=◌}
use mangl.App.{
  Platform, App, d_manpage, d_search, the_page, put_page, post_redisplay, scroll_amount,
}
use mangl.Scroll.{set_scroll_position, scroll_page, line_length_from_window_width}
use mangl.History.{page_back, reload_current_page, update_window_title}
use mangl.Input.{
  Action, release, press, repeat, Mods, search_page, show_first_search, search_for, open_selected,
}

-- The keys that the handler knows; `name` of `other_key` is what `glfwGetKeyName` returns, which
-- the handler asks only where it does not know the key. A letter has its name as well.
pub data Key : Type 0 where
  escape enter kp_enter backspace up down page_up page_down home end_key space : Key
  key_c key_d key_v : Option Bytes → Key
  other_key : Option Bytes → Key

-- `glfwGetKeyName`, of the keys that no case of the page's `switch` takes.
abbrev pub name_of : Key → Bytes
name_of (key_c (some k)) = k
name_of (key_d (some k)) = k
name_of (key_v (some k)) = k
name_of (other_key (some k)) = k
name_of key = []

abbrev pub is_quit : Bytes → Bool
is_quit k = same_text k (codes "c") || same_text k (codes "d")

module _ (platform : Platform) where
  -- The search is given up: the page goes back to where it was.
  abbrev pub cancel_search : App → Run App
  cancel_search a = do
    m ← the_page a
    back ←
        set_scroll_position platform (put_page a (record m { search_input_active = false }))
          m.search_start_scroll_position
    done (post_redisplay back)

  abbrev pub paste_search : App → Run App
  paste_search a = do
    clipboard ← deref platform.clipboard
    if ltb (length clipboard) 30
        then (search_page platform a (truncated 256 clipboard) >>= λ b. done (post_redisplay b))
        else done a

  -- D_MANPAGE, with the search string being typed.
  unfoldable pub key_in_search_input : App → Key → Mods → Run App
  key_in_search_input a escape mods = cancel_search a
  key_in_search_input a enter mods = the_page a >>= λ m.
      done (post_redisplay (put_page a (record m { search_input_active = false })))
  key_in_search_input a kp_enter mods = the_page a >>= λ m.
      done (post_redisplay (put_page a (record m { search_input_active = false })))
  key_in_search_input a backspace mods = do
    m ← the_page a
    if ltb 0 (length m.search_string)
        then (do
          searched ← search_page platform a (take (length m.search_string - 1) m.search_string)
          shown ← show_first_search platform searched
          done (post_redisplay shown))
        else done a
  key_in_search_input a key mods =
      if is_quit (name_of key)
      then (if mods.control then cancel_search a else done a)
      else if same_text (name_of key) (codes "v") && mods.control
      then paste_search a
      else done a

  abbrev pub scroll_by : App → ℤ → Run App
  scroll_by a amount =
      the_page a >>= λ m. set_scroll_position platform a (m.scroll_position +ℤ amount)

  -- The keys of a page that have a name.
  unfoldable pub named_key_in_page : App → Bytes → Mods → Run App
  named_key_in_page a k mods =
      if is_quit k
      then (if mods.control then exited 0 else done a)
      else if same_text k (codes "f") && mods.control
      then (do
        searched ← search_for (record a { display_mode = d_search }) []
        titled ← update_window_title searched
        done (post_redisplay titled))
      else if same_text k (codes "v")
      then (if mods.alt
          then scroll_page platform a (negsuc 0)
          else if mods.control
          then scroll_page platform a (pos 1)
          else done a)
      else if same_text k (codes "=")
      then reload_current_page platform (record a {
        line_length_toggle = not a.line_length_toggle;
        current_line_length =
            if not a.line_length_toggle
            then line_length_from_window_width platform a.window_width
            else a.line_length;
      })
      else done a

  abbrev pub clear_search : App → Run App
  clear_search a = the_page a >>= λ m. done (
      post_redisplay (
        put_page a (record m {
          search_num = 0;
          search_index = pos 0;
          search_string = [];
          search_visible = false;
        })))

  -- D_MANPAGE
  unfoldable pub key_in_page : App → Key → Mods → Run App
  key_in_page a backspace mods = page_back platform a
  key_in_page a escape mods = page_back platform a
  key_in_page a enter mods = clear_search a
  key_in_page a kp_enter mods = clear_search a
  key_in_page a up mods = scroll_by a (pos 0 -ℤ platform.dimension scroll_amount)
  key_in_page a down mods = scroll_by a (platform.dimension scroll_amount)
  key_in_page a page_up mods = scroll_page platform a (negsuc 0)
  key_in_page a page_down mods = scroll_page platform a (pos 1)
  key_in_page a home mods = set_scroll_position platform a (pos 0)
  key_in_page a end_key mods = set_scroll_position platform a (pos 1000000000)
  key_in_page a space mods =
      if mods.shift then scroll_page platform a (negsuc 0) else scroll_page platform a (pos 1)
  key_in_page a key mods = named_key_in_page a (name_of key) mods

  -- The selection moves, and the view with it.
  abbrev pub select_previous : App → App
  select_previous a =
      let s = a.screen in
      if ltb 0 s.results_selected_index
      then post_redisplay (record a {
        screen = record s {
          results_selected_index = s.results_selected_index - 1;
          results_view_offset =
              if ltb (s.results_selected_index - 1) s.results_view_offset
              then s.results_selected_index - 1
              else s.results_view_offset;
        };
      })
      else a

  abbrev pub select_next : App → App
  select_next a =
      let s = a.screen in
      if ltb (s.results_selected_index + 1) s.matches_count
      then post_redisplay (record a {
        screen = record s {
          results_selected_index = s.results_selected_index + 1;
          results_view_offset =
              if ltb (s.results_view_offset + s.results_shown_lines)
                (s.results_selected_index + 1 + 1)
              then s.results_selected_index + 1 - s.results_shown_lines + 1
              else s.results_view_offset;
        };
      })
      else a

  abbrev pub paste_term : App → Run App
  paste_term a = do
    clipboard ← deref platform.clipboard
    if ltb (length clipboard) 30
        then (search_for a (truncated 512 clipboard) >>= λ b. done (post_redisplay b))
        else done a

  -- D_SEARCH
  unfoldable pub key_in_search : App → Key → Mods → Run App
  key_in_search a up mods = done (select_previous a)
  key_in_search a down mods = done (select_next a)
  key_in_search a (key_c name) mods = if mods.control then exited 0 else done a
  key_in_search a (key_d name) mods = if mods.control then exited 0 else done a
  key_in_search a (key_v name) mods = if mods.control then paste_term a else done a
  key_in_search a enter mods =
      if ltb a.screen.results_selected_index a.screen.matches_count
      then open_selected platform a
      else done a
  key_in_search a kp_enter mods =
      if ltb a.screen.results_selected_index a.screen.matches_count
      then open_selected platform a
      else done a
  key_in_search a backspace mods =
      if ltb 0 (length a.screen.search_term)
      then (search_for a (take (length a.screen.search_term - 1) a.screen.search_term) >>= λ b.
          done (post_redisplay b))
      else done a
  key_in_search a escape mods =
      if ltb 0 (length a.screen.search_term)
      then (search_for a [] >>= λ b. done (post_redisplay b))
      else done a
  key_in_search a key mods = done a

  abbrev pub key_pressed : App → Key → Mods → Run App
  key_pressed a key mods = elim a.display_mode [
    | d_manpage ↦ (do
      m ← the_page a
      if m.search_input_active then key_in_search_input a key mods else key_in_page a key mods)
    | d_search ↦ key_in_search a key mods
  ]

  unfoldable pub key_func : App → Key → Action → Mods → Run App
  key_func a key release mods = done a
  key_func a key press mods = key_pressed a key mods
  key_func a key repeat mods = key_pressed a key mods
