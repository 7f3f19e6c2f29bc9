-- ===== src/Session.antt =====
-- The program as a whole: how `main` starts it, and the events that GLFW brings to its handlers.
pub mod Kept
pub mod Frame
pub mod Moves
pub mod Chars
pub mod Keys
pub mod Mouse
pub mod Moved
pub mod Reach
mod Tests
use mangl.Prelude.{
  true, ℕ, zero, suc, ◌+◌, ◌≡◌, false, Option, none, some, List, [], ◌∷◌, ◌++◌, length, ℤ, Bytes,
}
use mangl.Text.{codes}
use mangl.Run.{Run, done, ◌>>=◌}
use mangl.App.{App, Platform, d_manpage, post_redisplay}
use mangl.Scroll.{update_scrollbar}
use mangl.History.{load_manpage, make_page_description, page_title}
use mangl.ManPath.{Paths}
use mangl.FileSearch.{FileSystem}
use mangl.CommandLine.{command_line}
use mangl.Input.{Action, Mods}
use mangl.Input.Keys.{Key, key_func}
use mangl.Input.Chars.{char_func}
use mangl.Input.Mouse.{Button, Wheel, mouse_button_func, mouse_pos_func, mouse_scroll_func}

-- The callbacks that `main` registers, with their arguments.
pub data Event : Type 0 where
  key : Key → Action → Mods → Event
  char : ℕ → Event
  mouse_button : Button → Action → Event
  mouse_pos : ℤ → ℤ → Event
  mouse_scroll : Wheel → Event
  framebuffer_size : ℤ → ℤ → Event
  window_refresh : Event

unfoldable pub window_refresh_func : App → App
window_refresh_func a = record a { redisplay_needed = true }

module _ (platform : Platform) where
  unfoldable pub framebuffer_size_func : App → ℤ → ℤ → Run App
  framebuffer_size_func a w h =
      update_scrollbar platform (record a { window_width = w; window_height = h })

  -- `main` loads the page of the command line, if there is one, and pushes it; `pwd` is what `getcwd`
  -- gives. The window's title is set from it, and the size of its window is asked for.
  unfoldable pub open_first : App → Option Bytes → Bytes → Run App
  open_first a none pwd = done (record a { title = codes "mangl" })
  open_first a (some filename) pwd =
      load_manpage platform (record a { display_mode = d_manpage }) filename (some pwd) >>= λ m.
      done (record a {
        display_mode = d_manpage;
        heap = a.heap ++ m ∷ [];
        page = some (length a.heap);
        page_stack = a.page_stack ++ make_page_description (length a.heap) filename (some pwd) ∷ [];
        stack_pos = a.stack_pos + 1;
        title = page_title m;
      })

  unfoldable pub begin : App → Option Bytes → Bytes → ℤ → ℤ → Run App
  unfolding open_first framebuffer_size_func
  begin a filename pwd w h = open_first a filename pwd >>= λ b.
      framebuffer_size_func b w h >>= λ c. done (post_redisplay c)

  -- `main` up to its loop, from the options and the arguments of the command line.
  unfoldable pub main :
      FileSystem → Option Paths → Option Bytes → List ℕ → List Bytes → App → Bytes → ℤ → ℤ → Run App
  unfolding begin
  main fs cache output options arguments a pwd w h =
      command_line fs cache output options arguments >>= λ filename. begin a filename pwd w h

  unfoldable pub handle : App → Event → Run App
  handle a (key k action mods) = key_func platform a k action mods
  handle a (char codepoint) = char_func platform a codepoint
  handle a (mouse_button button action) = mouse_button_func platform a button action
  handle a (mouse_pos x y) = mouse_pos_func platform a x y
  handle a (mouse_scroll wheel) = mouse_scroll_func platform a wheel
  handle a (framebuffer_size w h) = framebuffer_size_func a w h
  handle a window_refresh = done (window_refresh_func a)

  -- The loop of `main`: what events lead to, one after the other, without an exit or a fault. A
  -- redraw reads the state and takes the flag back.
  pub data Steps : App → App → Type 0 where
    start : (a : App) → Steps a a
    step : {a b c : App} → Steps a b → (event : Event) → handle b event ≡ done c → Steps a c
    redraw :
        {a b : App}
        → Steps a b
        → b.redisplay_needed ≡ true
        → Steps a (record b { redisplay_needed = false })
