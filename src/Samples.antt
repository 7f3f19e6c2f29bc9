-- ===== src/Samples.antt =====
-- The data of the tests: a database, a font, and a browser with two pages.
use mangl.Prelude.{none, some, false, [], ◌∷◌, pos, Bytes, replicate}
use mangl.Text.{codes}
use mangl.Document.{letter, endline}
use mangl.ManSearch.{SearchScreen}
use mangl.App.{
  Platform, App, Manpage, PageDescription, d_manpage, scrollbar_width, scrollbar_thumb_min_height,
  document_margin, search_width, scroll_amount, gui_padding, no_recti,
}
use mangl.PageSearch.{max_searches}

-- Every file has one line, which names a page of the database; lines are ten pixels high.
abbrev pub platform : Platform
platform = record {
  dimension = λ d. elim d [
    | scrollbar_width ↦ pos 12
    | scrollbar_thumb_min_height ↦ pos 30
    | document_margin ↦ pos 25
    | search_width ↦ pos 500
    | scroll_amount ↦ pos 30
    | gui_padding ↦ pos 8
  ];
  line_advance = pos 10;
  line_height = pos 9;
  character_width = pos 6;
  database = λ word. some (codes "man1/ls.1");
  database_pwd = λ word. some (codes "/usr/share/man");
  format = λ line_length cwd filename.
      some (letter b'l' ∷ letter b's' ∷ letter b'(' ∷ letter b'1' ∷ letter b')' ∷ endline ∷ []);
  chdir = λ cwd path. path;
  thumb_size = λ height document. pos 40;
  thumb_position = λ scroll document height thumb. pos 0;
  unthumb = λ thumb document height size. pos 0;
  clipboard = none;
}

abbrev pub blank_page : Bytes → Manpage
blank_page filename = record {
  manpage_name = codes "ls";
  manpage_section = codes "1";
  filename = filename;
  pwd = [];
  lines = [];
  freed = false;
  scroll_position = pos 0;
  links = [];
  search_start_scroll_position = pos 0;
  search_input_active = false;
  search_string = [];
  search_visible = false;
  searches = replicate max_searches no_recti;
  search_num = 0;
  search_index = pos 0;
}

abbrev pub no_screen : SearchScreen
no_screen = record {
  search_term = [];
  manpage_names = [];
  manpage_names_lower = [];
  results_selected_index = 0;
  results_shown_lines = 0;
  results_view_offset = 0;
  matches = [];
  matches_count = 0;
}

abbrev pub first : PageDescription
first = record { filename = codes "a.1"; pwd = []; ptr = some 0 }

abbrev pub second : PageDescription
second = record { filename = codes "b.1"; pwd = []; ptr = some 1 }

-- The second of two pages is shown.
abbrev pub browser : App
browser = record {
  display_mode = d_manpage;
  screen = no_screen;
  heap = blank_page (codes "a.1") ∷ blank_page (codes "b.1") ∷ [];
  page = some 1;
  page_stack = first ∷ second ∷ [];
  stack_pos = 2;
  line_length = pos 80;
  current_line_length = pos 80;
  line_length_toggle = false;
  scrollbar_thumb_position = pos 0;
  scrollbar_thumb_size = pos 0;
  scrollbar_thumb_hover = false;
  scrollbar_dragging = false;
  scrollbar_thumb_mouse_down_y = pos 0;
  scrollbar_thumb_mouse_down_thumb_position = pos 0;
  window_width = pos 600;
  window_height = pos 400;
  mouse_x = pos 0;
  mouse_y = pos 0;
  redisplay_needed = false;
  clicked_link = none;
  g_pending = false;
  cwd = [];
  title = [];
  asked_width = none;
}
