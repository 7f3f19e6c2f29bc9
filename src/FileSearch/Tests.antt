-- ===== src/FileSearch/Tests.antt =====
-- Searches in a file system with one page.
use mangl.Prelude.{◌≡◌, refl, none, some, List, [], ◌∷◌, Bytes}
use mangl.Text.{codes, same_text}
use mangl.Run.{done}
use mangl.FileSearch.{FileSystem, fs_lookup, search_filesystem}

abbrev page_file : Bytes
page_file = codes "/usr/local/man/man8/cron.8"

abbrev one_file : FileSystem
one_file = record { stat = same_text page_file; glob = λ pattern. none }

abbrev paths : List Bytes
paths = codes "/usr/share/man" ∷ codes "/usr/X11R6/man" ∷ codes "/usr/local/man" ∷ []

found : search_filesystem one_file 1024 none none none (codes "cron") ≡ done (some page_file)
unfolding search_filesystem fs_lookup same_text mangl.ManPath.get_man_paths_from_manpath_executable
found = refl

not_in_section :
    search_filesystem one_file 1024 none none (some (codes "1")) (codes "cron") ≡ done none
unfolding search_filesystem fs_lookup same_text mangl.ManPath.get_man_paths_from_manpath_executable
not_in_section = refl
