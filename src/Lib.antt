-- ===== src/Lib.antt =====
-- mangl is a viewer of manual pages: it lists the pages of the system's databases, finds one by a
-- part of its name, formats it with the mandoc library, and shows it with its links, a search and a
-- history. This library models the program's own code: main.c, manpath.c and hashmap.c.
--
-- The parts, and the files that model them:
--
-- - Run: how a function ends. `done` is a result, `exited` a call of `exit`, and `fault` an access
--   outside an array, through a null pointer or to freed memory.
-- - App: the state. `App` has the globals of main.c and the static variables of its handlers,
--   `Manpage` is `struct manpage`, `PageDescription` is `struct page_description`. Pages live on a
--   heap, and a pointer to a page is an index into it, since the history and the global `page`
--   share them. `Platform` is what the code takes from outside.
-- - Text: the functions of <string.h> and <ctype.h> that the code uses, in the "C" locale.
-- - ManSearch: the search screen (`update_search`, `find_string`, `binary_search_first`,
--   `insert_array`), which keeps the best hundred names in the array `matches`.
-- - PageName: `get_page_name_and_section`.
-- - Document: `add_line`, `add_to_span` and the callbacks of mandoc's formatter, up to the document
--   that `load_manpage` makes of their calls.
-- - PageSearch: `update_page_search`, the search in the page shown.
-- - Links: `find_links`, which finds the words that name a page of the database.
-- - Scroll: the scroll position, the scroll bar and the hit test of its thumb.
-- - History: `load_manpage`, `open_new_page`, `reload_current_page`, `page_back`, `page_forward`.
-- - Input: `key_func`, `char_func`, `mouse_button_func`, `mouse_pos_func` and `mouse_scroll_func`,
--   which call all the parts above.
-- - CommandLine: how `main` reads its options and arguments. Session: how it starts with a page or the
--   search screen, and the events that its loop hands to the handlers, as a step relation.
-- - ManPath: the parts of the output of `manpath` in manpath.c, as an array of paths.
-- - Crc and HashMap: `crc32` and the hash map of hashmap.c.
-- - FileSearch: `get_man_paths`, `fs_lookup` and `search_filesystem`, which find a page for the command
--   line. Database: `make_manpage_database`, which fills the two hash maps and the arrays of names.
-- - Settings: `parse_line`, `parse_color` and `load_settings`, which read the file of settings.
-- - Samples: the data of the tests. Prelude: names, lists and integers that the parts share.
--
-- Numbers: lengths and indices that are never negative are natural numbers, coordinates and scroll
-- positions are integers. Overflow of `int` is not modelled. Bytes are numbers below 256.
--
-- Bounds and fuel: the sizes of the C arrays are written out, and a write past one is a fault. The
-- loops are recursions on the data, except those of `find_string`, `binary_search_first` and the
-- search in a line, which have fuel: as much as the text or the array is long, which is enough, since
-- each round takes at least one byte or halves the range.
--
-- `hashmap_put` has fuel for the doublings of its table: `calloc` has room for a given number of
-- elements, and so many doublings as pass it are enough.
--
-- What comes from outside is a field of `Platform`: the page databases as functions from a
-- name to a file and a directory (Database models how the program fills them), the calls that
-- mandoc makes of the formatter for a file, the sizes that the font and the settings give, the
-- floating-point expressions of the scroll bar's thumb, the clipboard, and `chdir`. Freeing a page
-- sets its flag, and its address is not used again.
--
-- Not modelled: the mandoc library and stretchy_buffer.h, which are other projects' code; drawing
-- and fonts, which are calls of OpenGL and FreeType; and the fork and the calls of GLFW in `main`. What
-- `getopt_long` finds, `stat`, `glob`, `qsort`, `strtod`, the environment, what files hold and the room
-- that `calloc` has are parameters.
pub mod App
pub mod CommandLine
pub mod Crc
pub mod Database
pub mod Document
pub mod FileSearch
pub mod HashMap
pub mod History
pub mod Input
pub mod Links
pub mod ManPath
pub mod ManSearch
pub mod PageName
pub mod PageSearch
pub mod Prelude
pub mod Run
pub mod Samples
pub mod Scroll
pub mod Session
pub mod Settings
pub mod Text
