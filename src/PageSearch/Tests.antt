-- ===== src/PageSearch/Tests.antt =====
-- The search in a page, at a page of one line.
use mangl.Prelude.{◌≡◌, refl, [], ◌∷◌}
use mangl.Text.{codes}
use mangl.Run.{done}
use mangl.Document.{Line}
use mangl.App.{Manpage}
use mangl.Samples.{platform, blank_page}
use mangl.PageSearch.{update_page_search}
use mangl.PageSearch.Search.{IsSearched, update_page_search-IsSearched}

abbrev one_line : Line
one_line = record { buffer = codes "baaaa"; buffer_size = 80; length_used = 5 } ∷ []

abbrev page : Manpage
page = record (blank_page (codes "a.1")) { lines = one_line ∷ []; search_string = codes "aa" }

update_page_search-IsSearched_example :
    (m : Manpage) × (update_page_search platform page ≡ done m) × IsSearched platform page m
update_page_search-IsSearched_example = update_page_search-IsSearched platform page refl refl
