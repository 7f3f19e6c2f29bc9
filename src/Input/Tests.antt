-- ===== src/Input/Tests.antt =====
-- The theorems about the input handlers, at concrete states.
use mangl.Prelude.{◌≡◌, refl, true, false, some, [], ◌∷◌, arith, pos, ◌-ℤ◌, ◌/ℤ◌, ◌+ℤ◌, ◌*ℤ◌}
use mangl.Run.{fault, Returns}
use mangl.App.{App, Manpage}
use mangl.Samples.{platform, browser, blank_page, no_screen}
use mangl.Text.{codes}
use mangl.Input.{Mods, results_hittest}
use mangl.Input.Keys.{up, down, key_in_search}
use mangl.Input.Chars.{next_index, previous_index, command}
use mangl.Input.Selection.{InView, key_in_search-InView}
use mangl.Input.Hittest.{results_hittest_lem}
use mangl.Input.Matches.{
  InMatches, next_index-InMatches, previous_index-next_index, command_without_matches,
}

abbrev no_mods : Mods
no_mods = record { shift = false; control = false; alt = false }

-- Twenty results in twelve rows, the last row selected.
abbrev searching : App
searching = record browser {
  screen = record no_screen {
    results_selected_index = 11;
    results_shown_lines = 12;
    matches_count = 20;
  };
}

key_in_search-InView_example :
    Returns
      (key_in_search platform searching up no_mods)
      (λ b. InView b.screen × (b.screen.results_selected_index ≡ 10))
    × Returns
        (key_in_search platform searching down no_mods)
        (λ b. InView b.screen × (b.screen.results_selected_index ≡ 12))
key_in_search-InView_example =
    key_in_search-InView platform searching no_mods (omega arith, omega arith, omega arith)

results_hittest_lem_example : results_hittest platform searching (pos 300) (pos 140) ≡ some 1
unfolding ◌-ℤ◌ ◌/ℤ◌ ◌+ℤ◌ ◌*ℤ◌
results_hittest_lem_example =
    results_hittest_lem platform searching (pos 300) (pos 140) 13 (omega arith) refl

-- The last of three matches is selected.
abbrev matched : Manpage
matched = record (blank_page (codes "a.1")) {
  search_visible = true;
  search_num = 3;
  search_index = pos 2;
}

next_index-InMatches_example :
    InMatches matched (next_index platform matched)
    × InMatches matched (previous_index platform matched)
next_index-InMatches_example = next_index-InMatches platform matched (omega arith, omega arith)

previous_index-next_index_example :
    (previous_index platform (record matched { search_index = next_index platform matched })
      ≡ pos 2)
    × (next_index platform (record matched { search_index = previous_index platform matched })
        ≡ pos 2)
previous_index-next_index_example =
    previous_index-next_index platform matched (omega arith, omega arith)

-- A search that found nothing was left visible.
abbrev unmatched : Manpage
unmatched = record (blank_page (codes "a.1")) { search_visible = true }

command_without_matches_example :
    command platform (record browser { heap = unmatched ∷ []; page = some 0 }) b'N' ≡ fault
command_without_matches_example =
    command_without_matches platform (record browser { heap = unmatched ∷ []; page = some 0 }) 0
      unmatched refl refl refl refl refl
