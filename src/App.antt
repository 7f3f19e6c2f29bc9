-- ===== src/App.antt =====
-- The state of main.c: `struct manpage`, `struct page_description` and the globals. Pages live on a
-- heap, since the stack of pages and the global `page` share them: a pointer is an index into it.
use mangl.Prelude.{
  ap, ◌∙◌, ℕ, ◌≡◌, Bool, true, Option, none, some, List, get_elem?, set, ℤ, pos, Bytes,
}
use mangl.Run.{Run, done, fault, deref}
use mangl.Document.{Line, Event}
use mangl.ManSearch.{SearchScreen}

-- `recti`
pub record Recti : Type 0 where
  pub x : ℤ
  pub y : ℤ
  pub x2 : ℤ
  pub y2 : ℤ

abbrev pub no_recti : Recti
no_recti = record { x = pos 0; y = pos 0; x2 = pos 0; y2 = pos 0 }

-- `link_t`
pub record Link : Type 0 where
  pub document_rectangle : Recti
  pub highlight : Bool
  pub link : Bytes
  pub pwd : Bytes

-- `struct manpage`. `freed` says that `free_manpage` has been called on it: its spans are gone.
-- `searches` is the whole array of `search_t`.
pub record Manpage : Type 0 where
  pub manpage_name : Bytes
  pub manpage_section : Bytes
  pub filename : Bytes
  pub pwd : Bytes
  pub lines : List Line
  pub freed : Bool
  pub scroll_position : ℤ
  pub links : List Link
  pub search_start_scroll_position : ℤ
  pub search_input_active : Bool
  pub search_string : Bytes
  pub search_visible : Bool
  pub searches : List Recti
  pub search_num : ℕ
  pub search_index : ℤ

-- `struct page_description`
pub record PageDescription : Type 0 where
  pub filename : Bytes
  pub pwd : Bytes
  pub ptr : Option ℕ

-- `enum DISPLAY_MODES`
pub data DisplayMode : Type 0 where
  d_manpage d_search : DisplayMode

-- The `dimensions` table's indices that the modelled code uses.
pub data Dimension : Type 0 where
  scrollbar_width scrollbar_thumb_min_height document_margin search_width scroll_amount : Dimension
  gui_padding : Dimension

-- What the code takes from outside: the sizes that come from the font and the settings, which are
-- computed in floating point, the page databases, and mandoc. `format line_length cwd filename` are
-- the formatter's callbacks for a file, `none` if it cannot be opened. `chdir cwd path` is the
-- working directory after a call, the old one if it fails. `thumb_size`, `thumb_position` and
-- `unthumb` are the floating-point expressions of the scroll bar.
pub record Platform : Type 0 where
  pub dimension : Dimension → ℤ
  pub line_advance : ℤ
  pub line_height : ℤ
  pub character_width : ℤ
  pub database : Bytes → Option Bytes
  pub database_pwd : Bytes → Option Bytes
  pub format : ℤ → Bytes → Bytes → Option (List Event)
  pub chdir : Bytes → Bytes → Bytes
  pub thumb_size : ℤ → ℤ → ℤ
  pub thumb_position : ℤ → ℤ → ℤ → ℤ → ℤ
  pub unthumb : ℤ → ℤ → ℤ → ℤ → ℤ
  pub clipboard : Option Bytes

-- The globals, and the static variables of the handlers. `cwd` is the working directory, `title`
-- the window's title, `asked_width` the last width that
-- was asked of the window system, and the mouse position is cut off to whole pixels, as all its readers do.
pub record App : Type 0 where
  pub display_mode : DisplayMode
  pub screen : SearchScreen
  pub heap : List Manpage
  pub page : Option ℕ
  pub page_stack : List PageDescription
  pub stack_pos : ℕ
  pub line_length : ℤ
  pub current_line_length : ℤ
  pub line_length_toggle : Bool
  pub scrollbar_thumb_position : ℤ
  pub scrollbar_thumb_size : ℤ
  pub scrollbar_thumb_hover : Bool
  pub scrollbar_dragging : Bool
  pub scrollbar_thumb_mouse_down_y : ℤ
  pub scrollbar_thumb_mouse_down_thumb_position : ℤ
  pub window_width : ℤ
  pub window_height : ℤ
  pub mouse_x : ℤ
  pub mouse_y : ℤ
  pub redisplay_needed : Bool
  pub clicked_link : Option Link
  pub g_pending : Bool
  pub cwd : Bytes
  pub title : Bytes
  pub asked_width : Option ℤ

unfoldable pub post_redisplay : App → App
post_redisplay a = record a { redisplay_needed = true }

-- `*page`
abbrev pub the_page : App → Run Manpage
the_page a = elim a.page [ none ↦ fault | some p ↦ deref (get_elem? a.heap p) ]

pub the_page-is :
    (a : App) (p : ℕ) (m : Manpage)
    → a.page ≡ some p
    → get_elem? a.heap p ≡ some m
    → the_page a ≡ done m
the_page-is a p m at here =
    ap (λ (x : Option ℕ). elim x [ none ↦ fault | some q ↦ deref (get_elem? a.heap q) ]) at
    ∙ ap deref here

-- A write to `*page`.
abbrev pub put_page : App → Manpage → App
put_page a m = elim a.page [ none ↦ a | some p ↦ record a { heap = set a.heap p m } ]
