-- ===== src/Session/Reach.antt =====
-- Every state that the program comes to, from its start and through any events.
use mangl.Prelude.{
  ℕ, ◌-◌, ◌≡◌, refl, sym, ap, subst, ◌∙◌, false, Option, none, some, List, [], arith, ltb,
  get_elem?, length, ℤ, Bytes,
}
use mangl.Run.{done, Yields, Yields-bind}
use mangl.ManPath.{Paths}
use mangl.FileSearch.{FileSystem}
use mangl.CommandLine.{command_line}
use mangl.App.{App, Manpage, PageDescription, Platform, d_manpage, d_search, the_page, the_page-is}
use mangl.History.{load_manpage, push_page}
use mangl.History.Moves.{push_page-IsOpened}
use mangl.History.Inv.{IsStack}
use mangl.History.Stack.{IsBrowsing, load_manpage-alive}
use mangl.Session.{
  main, redraw, Event, key, char, mouse_button, mouse_pos, mouse_scroll, framebuffer_size,
  window_refresh, window_refresh_func, framebuffer_size_func, open_first, begin, handle, Steps,
  start, step,
}
use mangl.Session.Kept.{IsSession, Kept, Kept-trans, IsSession-Kept, Yields-then, Yields-weaken}
use mangl.Session.Frame.{Kept-redisplay, update_scrollbar-Kept}
use mangl.Session.Chars.{keep, char_func-IsSession}
use mangl.Session.Keys.{key_func-IsSession}
use mangl.Session.Mouse.{mouse_button_func-IsSession}
use mangl.Session.Moved.{mouse_pos_func-IsSession, mouse_scroll_func-IsSession}

-- The globals before `main`: no page, an empty stack, and the search screen.
pub record IsFresh (a : App) : Type 0 where
  pub no_stack : a.page_stack ≡ []
  pub bottom : a.stack_pos ≡ 0
  pub mode : a.display_mode ≡ d_search

-- What a state shows: while a page is displayed it is there, its memory is not freed, and it is the
-- page of the entry of the stack below the position.
abbrev pub ShowsLivePage : App → Type 0
ShowsLivePage a =
    a.display_mode ≡ d_manpage
    → (m : Manpage) × (d : PageDescription) × (the_page a ≡ done m)
      × (m.freed ≡ false)
      × (get_elem? a.page_stack (a.stack_pos - 1) ≡ some d)
      × (d.ptr ≡ a.page)

module _ (platform : Platform) where
  framebuffer_size_func-Kept :
      (a : App) (w h : ℤ) → Yields (framebuffer_size_func platform a w h) (Kept a)
  unfolding framebuffer_size_func
  framebuffer_size_func-Kept a w h =
      Yields-weaken _ (Kept (record a { window_width = w; window_height = h })) (Kept a)
        (λ b kept.
          Kept-trans
            (record { stack = refl; position = refl; page = refl; mode = refl; alive = λ p l. l })
            kept)
        (update_scrollbar-Kept platform (record a { window_width = w; window_height = h }))

  handle-IsSession :
      (a : App) (event : Event) → IsSession a → Yields (handle platform a event) IsSession
  unfolding handle window_refresh_func
  handle-IsSession a (key k action mods) is = key_func-IsSession platform a k action mods is
  handle-IsSession a (char codepoint) is = char_func-IsSession platform a codepoint is
  handle-IsSession a (mouse_button button action) is =
      mouse_button_func-IsSession platform a button action is
  handle-IsSession a (mouse_pos x y) is = mouse_pos_func-IsSession platform a x y is
  handle-IsSession a (mouse_scroll wheel) is = mouse_scroll_func-IsSession platform a wheel is
  handle-IsSession a (framebuffer_size w h) is =
      keep platform a _ is (framebuffer_size_func-Kept a w h)
  handle-IsSession a window_refresh is =
      IsSession-Kept is
        (record { stack = refl; position = refl; page = refl; mode = refl; alive = λ p l. l })

  Steps-IsSession : {a b : App} → IsSession a → Steps platform a b → IsSession b
  Steps-IsSession is (start a) = is
  Steps-IsSession is (step {b = b} steps event ran) =
      subst (λ r. Yields r IsSession) ran (handle-IsSession b event (Steps-IsSession is steps))
  Steps-IsSession is (redraw steps needed) =
      IsSession-Kept (Steps-IsSession is steps)
        (record { stack = refl; position = refl; page = refl; mode = refl; alive = λ p l. l })

  -- A session shows a live page.
  IsSession-shows : (a : App) → IsSession a → ShowsLivePage a
  IsSession-shows a is e =
      let shown = is.shows e in
      let (d, at, named) = is.browsing.shown (a.stack_pos - 1) (omega (arith, shown)) in
      let (p, at_page) =
        is.browsing.stack_valid.used (a.stack_pos - 1) d at (omega (arith, shown)) in
      let (m, here, alive) = is.browsing.stack_valid.live (a.stack_pos - 1) p d at at_page in
      (m, d, the_page-is a p m (sym named ∙ at_page) here, alive, at, named)

  empty-IsStack : (heap : List Manpage) → IsStack heap [] 0
  empty-IsStack heap = record {
    bounded = omega arith;
    live = λ i p d at. absurd (cc at);
    used = λ i d at. absurd (cc at);
    distinct = λ i j p d e at. absurd (cc at);
  }

  fresh-IsStack : (a : App) → IsFresh a → IsStack a.heap a.page_stack a.stack_pos
  fresh-IsStack a fresh =
      subst (λ s. IsStack a.heap s a.stack_pos) (sym fresh.no_stack)
        (subst (IsStack a.heap []) (sym fresh.bottom) (empty-IsStack a.heap))

  fresh-IsSession : (a : App) → IsFresh a → IsSession a
  fresh-IsSession a fresh = record {
    browsing = record {
      stack_valid = fresh-IsStack a fresh;
      shown = λ i e. absurd (omega (arith, fresh.bottom, e));
    };
    shows = λ e. absurd (cc (sym e ∙ fresh.mode));
  }

  open_first-IsSession :
      (a : App) (filename : Option Bytes) (pwd : Bytes)
      → IsFresh a
      → Yields (open_first platform a filename pwd) IsSession
  unfolding open_first
  open_first-IsSession a none pwd fresh =
      IsSession-Kept (fresh-IsSession a fresh)
        (record { stack = refl; position = refl; page = refl; mode = refl; alive = λ p l. l })
  open_first-IsSession a (some filename) pwd fresh =
      Yields-then
        (load_manpage platform (record a { display_mode = d_manpage }) filename (some pwd)) _
        (λ m. m.freed ≡ false) IsSession
        (load_manpage-alive platform (record a { display_mode = d_manpage }) filename (some pwd))
        (λ m alive.
          let full : ltb a.stack_pos (length a.page_stack) ≡ false =
            ground (arith, fresh.bottom, ap length fresh.no_stack) in
          let (opened, at) =
            push_page-IsOpened a m filename (some pwd) (fresh-IsStack a fresh) alive in
          let is : IsBrowsing (push_page a m filename (some pwd)) = opened.0 in
          record { browsing = rw full at is; shows = λ e. omega arith })

  begin-IsSession :
      (a : App) (filename : Option Bytes) (pwd : Bytes) (w h : ℤ)
      → IsFresh a
      → Yields (begin platform a filename pwd w h) IsSession
  unfolding begin
  begin-IsSession a filename pwd w h fresh =
      Yields-then (open_first platform a filename pwd) _ IsSession IsSession
        (open_first-IsSession a filename pwd fresh)
        (λ b is.
          keep platform b _ is (Kept-redisplay platform b _ (framebuffer_size_func-Kept b w h)))

  main-IsSession :
      (fs : FileSystem) (cache : Option Paths) (output : Option Bytes) (options : List ℕ)
      (arguments : List Bytes) (a : App) (pwd : Bytes) (w h : ℤ)
      → IsFresh a
      → Yields (main platform fs cache output options arguments a pwd w h) IsSession
  unfolding main
  main-IsSession fs cache output options arguments a pwd w h fresh =
      Yields-bind (command_line fs cache output options arguments) _ IsSession
        (λ filename. begin-IsSession a filename pwd w h fresh)

  -- Whatever the command line, the file system and the events and redraws after the start: as long as
  -- the program has neither exited nor gone wrong, it shows a page that is there and not freed while it
  -- displays one, and this page is the one of the entry of the history below the position.
  pub main-ShowsLivePage :
      (fs : FileSystem) (cache : Option Paths) (output : Option Bytes) (options : List ℕ)
      (arguments : List Bytes) (a b c : App) (pwd : Bytes) (w h : ℤ)
      → IsFresh a
      → main platform fs cache output options arguments a pwd w h ≡ done b
      → Steps platform b c
      → ShowsLivePage c
  main-ShowsLivePage fs cache output options arguments a b c pwd w h fresh began steps =
      IsSession-shows c (
        Steps-IsSession
          (subst (λ r. Yields r IsSession) began
            (main-IsSession fs cache output options arguments a pwd w h fresh))
          steps)
