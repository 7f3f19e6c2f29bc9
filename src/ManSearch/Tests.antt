-- ===== src/ManSearch/Tests.antt =====
-- Runs of the search screen's functions, and the theorems about them at concrete inputs.
use mathlib.Core.List.{Perm}
use mangl.Prelude.{
  ℕ, zero, suc, ◌<◌, ◌≡◌, refl, false, none, some, List, [], ◌∷◌, ◌++◌, arith, take, drop, pos,
  ◌-ℤ◌, Bytes,
}
use mangl.Text.{codes, is_prefix, any_byte}
use mangl.ManSearch.{
  Match, SearchScreen, compar_match_rev, find_string, binary_search_first, insert_array, add_match,
  search_names, chosen_names, update_search, no_match,
}
use mangl.ManSearch.Find.{IsFirst, find_string-IsFirst, find_string_at_end}
use mangl.ManSearch.Bisect.{rank, binary_search_first_lem}
use mangl.ManSearch.Insert.{insert_at, insert_array_lem}
use mangl.ManSearch.Ranking.{IsRanked, IsRanked-IsParted, candidates}
use mangl.ManSearch.Results.{
  Updated, hits, update_search-Updated, update_search-IsRanked, update_search-perm,
}

program : Unit {0}
unfolding find_string binary_search_first insert_array compar_match_rev add_match search_names
    chosen_names update_search is_prefix any_byte ◌-ℤ◌
program = tt

abbrev ls : Bytes
ls = codes "ls"

abbrev screen : SearchScreen
screen = record {
  search_term = ls;
  manpage_names = codes "ls(1)" ∷ codes "false(1)" ∷ codes "cp(1)" ∷ codes "lsof(8)" ∷ [];
  manpage_names_lower = codes "ls(1)" ∷ codes "false(1)" ∷ codes "cp(1)" ∷ codes "lsof(8)" ∷ [];
  results_selected_index = 3;
  results_shown_lines = 12;
  results_view_offset = 2;
  matches = [];
  matches_count = 0;
}

find_first : find_string ls (codes "false ls ls") ≡ some 2
unfolding program
find_first = refl

-- The whole name of a page does not find it.
find_whole_name : find_string (codes "ls(1)") (codes "ls(1)") ≡ none
unfolding program
find_whole_name = refl

find_string-IsFirst_example :
    IsFirst ls (codes "false ls ls") (find_string ls (codes "false ls ls"))
find_string-IsFirst_example = find_string-IsFirst ls (codes "false ls ls")

no_ls_in_too : (j : ℕ) → j < 3 → is_prefix ls (drop j (codes "tools")) ≡ false
unfolding program
no_ls_in_too zero l = refl
no_ls_in_too (suc zero) l = refl
no_ls_in_too (suc (suc zero)) l = refl
no_ls_in_too (suc (suc (suc j))) l = absurd (omega arith)

find_string_at_end_example : find_string ls (codes "tools") ≡ none
find_string_at_end_example = find_string_at_end (codes "too") ls no_ls_in_too

abbrev hit : ℕ → ℕ → Match
hit i n = record { idx = i; goodness = pos 0 -ℤ pos n }

abbrev three : List Match
three = hit 4 1 ∷ hit 2 7 ∷ hit 5 9 ∷ []

three-IsRanked : IsRanked three
unfolding ◌-ℤ◌
three-IsRanked = omega arith

binary_search_first_lem_example :
    binary_search_first compar_match_rev (hit 6 7) (three ++ no_match ∷ []) 3
    ≡ some (rank compar_match_rev (hit 6 7) three)
binary_search_first_lem_example =
    binary_search_first_lem compar_match_rev (hit 6 7) three (no_match ∷ [])
      (IsRanked-IsParted (hit 6 7) three three-IsRanked)

rank-three : rank compar_match_rev (hit 6 7) three ≡ 1
unfolding program rank
rank-three = refl

insert_array_lem_example : insert_array {A = ℕ} 9 (pos 1) (1 ∷ 2 ∷ 3 ∷ []) 3 ≡ some (1 ∷ 9 ∷ 2 ∷ [])
unfolding insert_at
insert_array_lem_example = insert_array_lem {A = ℕ} 9 (pos 1) (1 ∷ 2 ∷ 3 ∷ [])

update_search-Updated_example :
    (s : SearchScreen) × (update_search screen ≡ some s) × Updated screen s
update_search-Updated_example = update_search-Updated screen

hits-screen : hits screen ≡ hit 0 3 ∷ hit 1 206 ∷ hit 3 5 ∷ []
unfolding program candidates
hits-screen = refl

run_screen :
    (s : SearchScreen) × (update_search screen ≡ some s)
    × (take s.matches_count s.matches ≡ hit 0 3 ∷ hit 3 5 ∷ hit 1 206 ∷ [])
unfolding program
run_screen = (_, refl, refl)

update_search-IsRanked_example : IsRanked (take (run_screen.0).matches_count (run_screen.0).matches)
unfolding run_screen
update_search-IsRanked_example = update_search-IsRanked screen run_screen.0 run_screen.1

update_search-perm_example :
    Perm (take (run_screen.0).matches_count (run_screen.0).matches) (hits screen)
unfolding run_screen
update_search-perm_example =
    update_search-perm screen run_screen.0 run_screen.1 (rw hits-screen (omega arith))
