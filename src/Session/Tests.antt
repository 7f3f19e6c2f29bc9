-- ===== src/Session/Tests.antt =====
-- A session that opens a page, formats it again and starts a search.
use mangl.Prelude.{true, ◌∷◌, ◌≡◌, refl, none, some, false, [], pos}
use mangl.Text.{codes, same_text}
use mangl.Run.{Run, done, exited, fault}
use mangl.App.{App, d_search, post_redisplay}
use mangl.Input.{press, Mods}
use mangl.Input.Keys.{other_key}
use mangl.Document.{
  format_document, format_events, format_event, format_letter, format_advance, add_to_lines,
  add_to_line, add_line, put_letters, grow_span, translate, drop_last_blank,
}
use mangl.PageSearch.{add_plain, update_page_search, search_lines}
use mangl.Links.{find_links, find_line_links, scan_words, word_byte, complete_word}
use mangl.PageName.{get_page_name_and_section, base_name, strip_compression, split_name, last_index}
use mangl.History.{load_manpage, reload_current_page, show_page, update_window_title}
use mangl.Input.Chars.{char_func, char_in_page, command}
use mangl.Input.Keys.{key_func, key_in_page, named_key_in_page}
use mangl.Scroll.{update_scrollbar}
use mangl.Samples.{platform, browser}
use mangl.FileSearch.{FileSystem}
use mangl.CommandLine.{command_line}
use mangl.Session.{main, redraw, Event, key, char, handle, start, step}
use mangl.Session.Reach.{IsFresh, ShowsLivePage, main-ShowsLivePage}

program : Unit {0}
unfolding load_manpage find_links find_line_links scan_words word_byte complete_word
    get_page_name_and_section format_document format_events format_event format_letter
    format_advance add_to_lines add_to_line add_line put_letters grow_span translate drop_last_blank
    base_name strip_compression split_name last_index add_plain main command_line handle key_func
    char_func reload_current_page update_page_search search_lines update_scrollbar post_redisplay
    key_in_page named_key_in_page same_text show_page update_window_title char_in_page command
program = tt

abbrev plain_mods : Mods
plain_mods = record { shift = false; control = false; alt = false }

abbrev no_files : FileSystem
no_files = record { stat = λ file. false; glob = λ pattern. none }

abbrev fresh : App
fresh = record browser {
  display_mode = d_search;
  heap = [];
  page = none;
  page_stack = [];
  stack_pos = 0;
}

app_of : Run App → App
app_of (done a) = a
app_of (exited n) = fresh
app_of fault = fresh

-- `mangl -l man1/ls.1`
abbrev started : Run App
started =
    main platform no_files none none (b'l' ∷ []) (codes "man1/ls.1" ∷ []) fresh
      (codes "/usr/share/man") (pos 600) (pos 400)

abbrev began : App
began = app_of started

started-began : started ≡ done began
unfolding program app_of
started-began = refl

began_needs_redraw : began.redisplay_needed ≡ true
unfolding program app_of
began_needs_redraw = refl

abbrev drawn : App
drawn = record began { redisplay_needed = false }

-- The events: `=` formats the page again, and `/` starts a search.
abbrev reload : Event
reload = key (other_key (some (codes "="))) press plain_mods

abbrev reloaded : App
reloaded = app_of (handle platform drawn reload)

abbrev slash : App
slash = app_of (handle platform reloaded (char b'/'))

reload_step : handle platform drawn reload ≡ done reloaded
unfolding program app_of
reload_step = refl

slash_step : handle platform reloaded (char b'/') ≡ done slash
unfolding program app_of
slash_step = refl

fresh-IsFresh : IsFresh fresh
fresh-IsFresh = record { no_stack = refl; bottom = refl; mode = refl }

main-ShowsLivePage_example : ShowsLivePage slash
main-ShowsLivePage_example =
    main-ShowsLivePage platform no_files none none (b'l' ∷ []) (codes "man1/ls.1" ∷ []) fresh began
      slash (codes "/usr/share/man") (pos 600) (pos 400) fresh-IsFresh started-began
      (step (step (redraw (start began) began_needs_redraw) reload reload_step) (char b'/')
        slash_step)
