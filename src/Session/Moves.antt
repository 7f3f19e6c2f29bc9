-- ===== src/Session/Moves.antt =====
-- The moves through the stack of pages keep the session's invariant, and so does the start.
use mangl.Prelude.{
  none, some, Option, ℕ, suc, ◌-◌, ◌<◌, ◌≡◌, refl, sym, subst, false, inl, inr, Option, none, some,
  tests, [], ◌∷◌, ◌++◌, arith, ltb, ◌==◌, get_elem?, set, length, Bytes, Bool-cases, get_elem?-lt,
}
use mangl.Run.{Run, done, exited, fault, ◌>>=◌, Yields, Returns}
use mangl.App.{
  App, Manpage, PageDescription, Platform, DisplayMode, d_manpage, d_search, post_redisplay,
}
use mangl.History.{
  load_manpage, free_manpage, push_page, show_page, update_window_title, open_new_page,
  reload_current_page, page_back, page_forward,
}
use mangl.History.Inv.{IsStack}
use mangl.History.Stack.{IsShown, IsBrowsing, load_manpage-alive}
use mangl.History.Moves.{push_page-IsOpened, enter_page_dir-is}
use mangl.History.Back.{IsMoved, next_page, ForwardTo, page_back-IsMoved, page_forward-IsMoved}
use mangl.History.Reload.{replaced-IsShown}
use mangl.Session.Kept.{IsSession, Kept, IsSession-Kept, Yields-then, Yields-weaken}
use mangl.Session.Frame.{update_window_title-Kept, show_page-Kept, Kept-redisplay}

module _ (platform : Platform) where
  -- Showing the page of a session.
  show_page-IsSession : (a : App) → IsSession a → Yields (show_page platform a) IsSession
  show_page-IsSession a is =
      Yields-weaken (show_page platform a) (Kept a) IsSession (λ b kept. IsSession-Kept is kept)
        (show_page-Kept platform a)

  pub open_new_page-IsSession :
      (a : App) (filename : Bytes) (pwd : Option Bytes)
      → IsSession a
      → Yields (open_new_page platform a filename pwd) IsSession
  unfolding open_new_page
  open_new_page-IsSession a filename pwd is = elim (enter_page_dir-is platform a) [
    | inl e ↦ rw e tt
    | inr (c, e) ↦ rw e (loaded (record a { cwd = c }) is.browsing)
  ]
    where
      pushed :
          (b : App) (m : Manpage)
          → IsBrowsing b
          → m.freed ≡ false
          → IsSession (record (push_page b m filename pwd) { display_mode = d_manpage })
      pushed b m browsing alive =
          let (opened, at) = push_page-IsOpened b m filename pwd browsing.stack_valid alive in
          record { browsing = opened.0; shows = λ e. omega (arith, opened.2) }

      loaded :
          (b : App)
          → IsBrowsing b
          → Yields
              (load_manpage platform b filename pwd >>= λ m.
                show_page platform
                  (record (push_page b m filename pwd) { display_mode = d_manpage }))
              IsSession
      loaded b browsing =
          Yields-then (load_manpage platform b filename pwd) _ (λ m. m.freed ≡ false) IsSession
            (load_manpage-alive platform b filename pwd)
            (λ m alive. show_page-IsSession _ (pushed b m browsing alive))

  Yields-of_returns :
      {A : Type 0} (m : Run A) (P Q : A → Type 0) → ((x : A) → P x → Q x) → Returns m P → Yields m Q
  Yields-of_returns (done x) P Q f h = f x h
  Yields-of_returns (exited n) P Q f h = tt
  Yields-of_returns fault P Q f h = tt

  moved : (a b : App) (i p : ℕ) → IsMoved a (suc i) p b → IsSession b
  moved a b i p is = record { browsing = is.0; shows = λ e. omega (arith, is.1) }

  pub page_forward-IsSession : (a : App) → IsSession a → Yields (page_forward platform a) IsSession
  page_forward-IsSession a is = forward (next_page a) (page_forward-IsMoved platform a is.browsing)
    where
      forward :
          (next : Option ℕ) → ForwardTo platform a next → Yields (page_forward platform a) IsSession
      forward none e = rw e is
      forward (some p) h =
          Yields-of_returns (page_forward platform a) (IsMoved a (suc a.stack_pos) p) IsSession
            (λ b m. moved a b a.stack_pos p m) h

  -- Below the last page there is the search screen.
  left : (a : App) → IsSession a → IsSession (record a { display_mode = d_search; stack_pos = 0 })
  left a is = record {
    browsing = record {
      stack_valid = record {
        bounded = omega arith;
        live = is.browsing.stack_valid.live;
        used = λ i d at l. absurd (omega (arith, l));
        distinct = is.browsing.stack_valid.distinct;
      };
      shown = λ i e. absurd (omega (arith, e));
    };
    shows = λ e. absurd (cc e);
  }

  pub page_back-IsSession : (a : App) → IsSession a → Yields (page_back platform a) IsSession
  unfolding page_back
  page_back-IsSession a is = elim (Bool-cases (ltb 1 a.stack_pos)) [
    | inl h ↦
        let (d, at) =
          get_elem?-lt a.page_stack (a.stack_pos - 2)
            (omega (tests, h, is.browsing.stack_valid.bounded)) in
        let (p, named) = is.browsing.stack_valid.used (a.stack_pos - 2) d at (omega (tests, h)) in
        Yields-of_returns (page_back platform a) (IsMoved a (suc (a.stack_pos - 2)) p) IsSession
          (λ b m. moved a b (a.stack_pos - 2) p m)
          (page_back-IsMoved platform a (a.stack_pos - 2) p d is.browsing (omega (tests, h)) at
            named)
    | inr h ↦ bottom h a.display_mode refl
  ]
    where
      bottom :
          ltb 1 a.stack_pos ≡ false
          → (d : DisplayMode) → a.display_mode ≡ d
          → Yields (page_back platform a) IsSession
      bottom h d_search e = simp (page_back, h, e) is
      bottom h d_manpage e =
          simp (page_back, h, e)
            (Yields-weaken
              (update_window_title (record a { display_mode = d_search; stack_pos = 0 }) >>= λ b.
                done (post_redisplay b))
              (Kept (record a { display_mode = d_search; stack_pos = 0 })) IsSession
              (λ b kept. IsSession-Kept (left a is) kept)
              (Kept-redisplay platform (record a { display_mode = d_search; stack_pos = 0 }) _
                (update_window_title-Kept platform
                  (record a { display_mode = d_search; stack_pos = 0 }))))

  pub reload_current_page-IsSession :
      (a : App) → IsSession a → Yields (reload_current_page platform a) IsSession
  unfolding reload_current_page
  reload_current_page-IsSession a is = elim (Bool-cases (a.stack_pos == 0)) [
    | inl h ↦ rw h is
    | inr h ↦
        let (d, at) =
          get_elem?-lt a.page_stack (a.stack_pos - 1)
            (omega (arith, positive h, is.browsing.stack_valid.bounded)) in
        let (p, named) =
          is.browsing.stack_valid.used (a.stack_pos - 1) d at (omega (arith, positive h)) in
        simp (h, at)
          (Yields-then (load_manpage platform a d.filename (some d.pwd)) _ (λ m. m.freed ≡ false)
            IsSession (load_manpage-alive platform a d.filename (some d.pwd))
            (λ m alive. simp named (show_page-IsSession _ (reloaded h d at p named m alive))))
  ]
    where
      positive : (a.stack_pos == 0) ≡ false → 0 < a.stack_pos
      positive h = ground arith

      reloaded :
          (a.stack_pos == 0) ≡ false
          → (d : PageDescription) → get_elem? a.page_stack (a.stack_pos - 1) ≡ some d
          → (p : ℕ) → d.ptr ≡ some p
          → (m : Manpage) → m.freed ≡ false
          → IsSession (record a {
            heap = free_manpage a.heap p ++ m ∷ [];
            page_stack =
                set a.page_stack (a.stack_pos - 1) (record d { ptr = some (length a.heap) });
            page = some (length a.heap);
          })
      reloaded h d at p named m alive =
          let same : suc (a.stack_pos - 1) ≡ a.stack_pos = omega (arith, positive h) in
          record {
            browsing =
                subst
                  (λ n.
                    IsShown (free_manpage a.heap p ++ m ∷ [])
                      (set a.page_stack (a.stack_pos - 1) (record d { ptr = some (length a.heap) }))
                      n (some (length a.heap)))
                  same
                  (replaced-IsShown a.heap a.page_stack (a.stack_pos - 1) d m p
                    (subst (IsStack a.heap a.page_stack) (sym same) is.browsing.stack_valid) at
                    named alive);
            shows = λ e. positive h;
          }
