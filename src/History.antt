-- ===== src/History.antt =====
-- The stack of visited pages of main.c: `load_manpage`, `open_new_page`, `reload_current_page`,
-- `page_back` and `page_forward`, with the window's title.
pub mod Inv
pub mod Push
pub mod Stack
pub mod Moves
pub mod Back
pub mod Reload
mod Tests
use mangl.Prelude.{
  ℕ, zero, suc, ◌+◌, ◌-◌, Bool, true, false, ◌&&◌, not, Option, none, some, List, [], ◌∷◌, ◌++◌,
  ltb, ◌==◌, if◌then◌else◌, length, get_elem?, set, take, drop, replicate, ℤ, pos, Bytes, value_or,
}
use mangl.Text.{codes}
use mangl.Run.{Run, done, fault, exited, deref, strcpy, truncated, ◌>>=◌}
use mangl.Document.{format_document}
use mangl.App.{
  no_recti, Manpage, PageDescription, DisplayMode, d_manpage, d_search, Platform, App, the_page,
  post_redisplay,
}
use mangl.PageName.{get_page_name_and_section}
use mangl.PageSearch.{max_searches}
use mangl.Links.{find_links}
use mangl.Scroll.{update_scrollbar}

-- `mparse_open` fails: exit status 1. All else of the page is zeroed by `calloc`. A database entry
-- without a directory is a null `pwd`, which is copied as the empty string.
unfoldable pub load_manpage : Platform → App → Bytes → Option Bytes → Run Manpage
load_manpage platform a filename pwd = elim (platform.format a.current_line_length a.cwd filename) [
  | none ↦ exited 1
  | some events ↦ (do
    file ← strcpy 1024 filename
    dir ← strcpy 1024 (value_or pwd [])
    name ← get_page_name_and_section filename 128 64
    document ← format_document events
    links ← find_links platform document.lines 0
    done (record {
      manpage_name = elim name [ none ↦ [] | some p ↦ p.0 ];
      manpage_section = elim name [ none ↦ [] | some p ↦ p.1 ];
      filename = file;
      pwd = dir;
      lines = document.lines;
      freed = false;
      scroll_position = pos 0;
      links = links;
      search_start_scroll_position = pos 0;
      search_input_active = false;
      search_string = [];
      search_visible = false;
      searches = replicate max_searches no_recti;
      search_num = 0;
      search_index = pos 0;
    }))
]

-- `snprintf` into 2048 bytes.
abbrev pub page_title : Manpage → Bytes
page_title m = truncated 2048 (
    if length m.manpage_name == 0
    then m.filename ++ codes " - mangl"
    else m.manpage_name ++ b'(' ∷ (m.manpage_section ++ codes ") - mangl"))

unfoldable pub update_window_title : App → Run App
update_window_title a = elim a.display_mode [
  | d_manpage ↦ the_page a >>= λ m. done (record a { title = page_title m })
  | d_search ↦ done (record a { title = codes "mangl" })
]

-- A null `pwd` is printed as the C library prints it.
abbrev pub make_page_description : ℕ → Bytes → Option Bytes → PageDescription
make_page_description ptr filename pwd = record {
  filename = truncated 256 filename;
  pwd = truncated 256 (value_or pwd (codes "(null)"));
  ptr = some ptr;
}

-- `free_manpage` on the page at an address: it frees the spans, not the page.
abbrev pub free_manpage : List Manpage → ℕ → List Manpage
free_manpage heap p = elim (get_elem? heap p) [
  | none ↦ heap
  | some m ↦ set heap p (record m { freed = true })
]

-- The pages of the descriptions are freed.
unfoldable pub free_all : List Manpage → List PageDescription → List Manpage
free_all heap [] = heap
free_all heap (d ∷ ds) = elim d.ptr [
  | none ↦ free_all heap ds
  | some p ↦ free_all (free_manpage heap p) ds
]

-- The descriptions lose their pages.
unfoldable pub forget_all : List PageDescription → List PageDescription
forget_all [] = []
forget_all (d ∷ ds) = record d { ptr = none } ∷ forget_all ds

-- The new page goes to a fresh address, the end of the heap.
abbrev pub push_page : App → Manpage → Bytes → Option Bytes → App
push_page a m filename pwd =
    let fresh = length a.heap in
    if ltb a.stack_pos (length a.page_stack)
    then record a {
      heap = free_all a.heap (drop a.stack_pos a.page_stack) ++ m ∷ [];
      page_stack =
          set (take a.stack_pos a.page_stack ++ forget_all (drop a.stack_pos a.page_stack))
            a.stack_pos (make_page_description fresh filename pwd);
      stack_pos = a.stack_pos + 1;
      page = some fresh;
    }
    else record a {
      heap = a.heap ++ m ∷ [];
      page_stack = a.page_stack ++ make_page_description fresh filename pwd ∷ [];
      stack_pos = a.stack_pos + 1;
      page = some fresh;
    }

-- `change_dir`, where the page has a directory.
unfoldable pub enter_page_dir : Platform → App → Run App
enter_page_dir platform a = elim a.page [
  | none ↦ done a
  | some p ↦ deref (get_elem? a.heap p) >>= λ m.
      done (if length m.pwd == 0 then a else record a { cwd = platform.chdir a.cwd m.pwd })
]

-- The end of the functions that show another page.
unfoldable pub show_page : Platform → App → Run App
show_page platform a = do
  titled ← update_window_title a
  scrolled ← update_scrollbar platform titled
  done (post_redisplay scrolled)

unfoldable pub open_new_page : Platform → App → Bytes → Option Bytes → Run App
open_new_page platform a filename pwd = do
  entered ← enter_page_dir platform a
  m ← load_manpage platform entered filename pwd
  show_page platform (record (push_page entered m filename pwd) { display_mode = d_manpage })

-- The description at `stack_pos - 1`.
unfoldable pub reload_current_page : Platform → App → Run App
reload_current_page platform a = if a.stack_pos == 0 then done a else (do
  d ← deref (get_elem? a.page_stack (a.stack_pos - 1))
  m ← load_manpage platform a d.filename (some d.pwd)
  let fresh = length a.heap
  show_page platform (record a {
    heap = elim d.ptr [ none ↦ a.heap | some p ↦ free_manpage a.heap p ] ++ m ∷ [];
    page_stack = set a.page_stack (a.stack_pos - 1) (record d { ptr = some fresh });
    page = some fresh;
  }))

unfoldable pub page_back : Platform → App → Run App
page_back platform a =
    if ltb 1 a.stack_pos
    then (do
      d ← deref (get_elem? a.page_stack (a.stack_pos - 1 - 1))
      show_page platform (record a { stack_pos = a.stack_pos - 1; page = d.ptr }))
    else elim a.display_mode [
      | d_manpage ↦ (do
        titled ← update_window_title (record a { display_mode = d_search; stack_pos = 0 })
        done (post_redisplay titled))
      | d_search ↦ done a
    ]

unfoldable pub page_forward : Platform → App → Run App
page_forward platform a = elim (get_elem? a.page_stack a.stack_pos) [
  | none ↦ done a
  | some d ↦ elim d.ptr [
    | none ↦ done a
    | some p ↦ show_page platform (record a { stack_pos = a.stack_pos + 1; page = some p })
  ]
]
