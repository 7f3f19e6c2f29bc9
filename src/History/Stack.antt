-- ===== src/History/Stack.antt =====
-- `open_new_page`, `reload_current_page`, `page_back` and `page_forward` keep the stack of pages.
use mangl.Prelude.{
  ℕ, suc, ◌≡◌, refl, ap, true, false, inl, inr, Option, some, List, get_elem?, Bytes, Option-cases,
  ℤ,
}
use mangl.Run.{done, ◌>>=◌, Returns, Yields, Yields-bind}
use mangl.App.{
  Manpage, PageDescription, d_manpage, d_search, Platform, App, the_page, the_page-is,
  post_redisplay, scrollbar_thumb_min_height,
}
use mangl.Text.{codes}
use mangl.Scroll.{update_scrollbar, clamp, document_height}
use mangl.History.{load_manpage, update_window_title, show_page, page_title}
use mangl.History.Inv.{IsStack}

-- The stack is valid, and the page shown is the one below the stack's position.
pub record IsShown (heap : List Manpage) (stack : List PageDescription) (pos : ℕ) (page : Option ℕ)
    : Type 0 where
  pub stack_valid : IsStack heap stack pos
  pub shown :
      (i : ℕ) → pos ≡ suc i → (d : PageDescription) × (get_elem? stack i ≡ some d) × (d.ptr ≡ page)

abbrev pub IsBrowsing : App → Type 0
IsBrowsing a = IsShown a.heap a.page_stack a.stack_pos a.page

pub load_manpage-alive :
    (platform : Platform) (a : App) (filename : Bytes) (pwd : Option Bytes)
    → Yields (load_manpage platform a filename pwd) (λ m. m.freed ≡ false)
unfolding load_manpage
load_manpage-alive platform a filename pwd =
    elim (Option-cases (platform.format a.current_line_length a.cwd filename)) [
      | inl h ↦ rw (h, load_manpage) tt
      | inr (events, h) ↦ rw (h, load_manpage) (search Yields-bind)
    ]

update_window_title-is :
    (a : App) (m : Manpage)
    → the_page a ≡ done m
    → (t : Bytes) × (update_window_title a ≡ done (record a { title = t }))
unfolding update_window_title
update_window_title-is a m here =
    elim a.display_mode
      as (λ d.
        (t : Bytes) × ((elim d [
          | d_manpage ↦ the_page a >>= λ k. done (record a { title = page_title k })
          | d_search ↦ done (record a { title = codes "mangl" })
        ])
          ≡ done (record a { title = t }))) [
            | d_manpage ↦
                (page_title m, ap (λ r. r >>= λ k. done (record a { title = page_title k })) here)
            | d_search ↦ (codes "mangl", refl)
          ]

update_scrollbar-is :
    (platform : Platform) (a : App) (m : Manpage)
    → the_page a ≡ done m
    → (s : ℤ) × (q : ℤ) × (update_scrollbar platform a
        ≡ done (record a { scrollbar_thumb_size = s; scrollbar_thumb_position = q }))
unfolding update_scrollbar
update_scrollbar-is platform a m here =
    let show = λ (k : Manpage).
      let size =
        clamp (platform.thumb_size a.window_height (document_height platform k))
          (platform.dimension scrollbar_thumb_min_height) a.window_height in
      record a {
        scrollbar_thumb_size = size;
        scrollbar_thumb_position =
            platform.thumb_position k.scroll_position (document_height platform k) a.window_height
              size;
      } in
    elim a.display_mode
      as (λ d.
        (s : ℤ) × (q : ℤ) × ((elim d [
          | d_search ↦ done a
          | d_manpage ↦ the_page a >>= λ k. done (show k)
        ])
          ≡ done (record a { scrollbar_thumb_size = s; scrollbar_thumb_position = q }))) [
            | d_manpage ↦ (_, _, ap (λ r. r >>= λ k. done (show k)) here)
            | d_search ↦ (a.scrollbar_thumb_size, a.scrollbar_thumb_position, refl)
          ]

-- Showing a page changes the title, the scroll bar and the flag, and nothing else.
pub show_page-Returns :
    (platform : Platform) (a : App) (p : ℕ) (m : Manpage) (P : App → Type 0)
    → a.page ≡ some p
    → get_elem? a.heap p ≡ some m
    → ((t : Bytes) (s q : ℤ)
        → P (record a {
          title = t;
          scrollbar_thumb_size = s;
          scrollbar_thumb_position = q;
          redisplay_needed = true;
        }))
    → Returns (show_page platform a) P
unfolding show_page post_redisplay
show_page-Returns platform a p m P at here k =
    let (t, titled) = update_window_title-is a m (the_page-is a p m at here) in
    let (s, q, scrolled) =
      update_scrollbar-is platform (record a { title = t }) m (the_page-is a p m at here) in
    simp (titled, scrolled) (k t s q)
