-- ===== src/PageSearch/Search.antt =====
-- `update_page_search` records the occurrences of the search string in the whole page.
use mangl.Prelude.{
  ◌≡◌, refl, ap, ◌∙◌, false, inl, inr, List, [], arith, ◌==◌, if◌then◌else◌, length, take, min,
  Bool-cases, pos, length-take,
}
use mangl.Run.{done}
use mangl.App.{Recti, Manpage, Platform}
use mangl.PageSearch.{Found, max_searches, search_lines, update_page_search}
use mangl.PageSearch.Refine.{lines_hits, first_below, selected, search_lines-Holds}

-- The occurrences of the page's search string in the page.
abbrev pub page_hits : Platform → Manpage → List Recti
page_hits platform m =
    if length m.search_string == 0
    then []
    else lines_hits platform m.search_start_scroll_position m.search_string m.lines 0

-- The search of a page has its first hundred occurrences, counted, and selects the first of these
-- from where the search began, or the first of all if there is none.
pub record IsSearched (platform : Platform) (m m' : Manpage) : Type 0 where
  pub room : length m'.searches ≡ max_searches
  pub found : take m'.search_num m'.searches ≡ take max_searches (page_hits platform m)
  pub counted : m'.search_num ≡ min max_searches (length (page_hits platform m))
  pub chosen :
      m'.search_index
      ≡ pos (
          selected platform m.search_start_scroll_position m.search_string (
            first_below platform m.search_start_scroll_position m.search_string
              (take max_searches (page_hits platform m))))
  pub same_page : m' ≡ record m {
    searches = m'.searches;
    search_num = m'.search_num;
    search_index = m'.search_index;
  }

update_page_search-done :
    (platform : Platform) (m : Manpage) (f : Found)
    → (length m.search_string == 0) ≡ false
    → m.freed ≡ false
    → search_lines platform m.search_start_scroll_position m.search_string m.lines 0 (record {
      searches = m.searches;
      search_num = 0;
      search_index = 0;
      search_index_set = false;
    })
      ≡ done f
    → update_page_search platform m
      ≡ done (record m {
        searches = f.searches;
        search_num = f.search_num;
        search_index = pos f.search_index;
      })
unfolding update_page_search
update_page_search-done platform m f e live ran = rw (e, live, ran)

-- On a page that is not freed, `update_page_search` never leaves the array `searches`, its loops
-- end, and it records the first hundred occurrences and selects one; nothing else changes.
pub update_page_search-IsSearched :
    (platform : Platform) (m : Manpage)
    → m.freed ≡ false
    → length m.searches ≡ max_searches
    → (m' : Manpage) × (update_page_search platform m ≡ done m') × IsSearched platform m m'
unfolding update_page_search
update_page_search-IsSearched platform m live room =
    elim (Bool-cases (length m.search_string == 0)) [
      | inl e ↦ rw e (
        record m { search_num = 0; search_index = pos 0 },
        refl,
        record {
          room = room;
          found = rw e;
          counted = rw e (omega arith);
          chosen = rw e;
          same_page = refl;
        },
      )
      | inr e ↦
          let start = m.search_start_scroll_position in
          let before : Found = record {
            searches = m.searches;
            search_num = 0;
            search_index = 0;
            search_index_set = false;
          } in
          let (f, ran, h) =
            search_lines-Holds platform start m.search_string (ground arith) m.lines 0 before []
              (record {
                room = room;
                counted = refl;
                recorded = refl;
                marked = refl;
                indexed = refl;
              })
              (omega arith) in
          (
            record m {
              searches = f.searches;
              search_num = f.search_num;
              search_index = pos f.search_index;
            },
            update_page_search-done platform m f e live ran,
            record {
              room = h.room;
              found = rw e h.recorded;
              counted = rw e (h.counted ∙ length-take max_searches _);
              chosen = rw e (ap pos h.indexed);
              same_page = refl;
            },
          )
    ]
