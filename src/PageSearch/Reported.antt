-- ===== src/PageSearch/Reported.antt =====
-- What `update_page_search` of main.c reports, in terms of the text of the page: the occurrences of
-- the search string, which ignore the case of letters if the string has no capital.
use mangl.Prelude.{
  ℕ, ◌+◌, ◌≤◌, ◌<◌, ◌≡◌, false, ◌⊎◌, some, List, [], ◌∷◌, length, take, drop, map, get_elem?, Bytes,
}
use mangl.Text.{any_byte, is_upper, to_lower}
use mangl.Document.{Line}
use mangl.App.{Recti, Manpage, Platform}
use mangl.PageSearch.{match_recti, plain_line}
use mangl.PageSearch.Occurrences.{columns}
use mangl.PageSearch.Refine.{line_hits, lines_hits}

-- The text begins with the term, letter for letter, or but for the case of letters if the term has
-- no capital.
abbrev pub Occurs : Bytes → Bytes → Type 0
Occurs term text =
    (take (length term) text ≡ term)
    ⊎ ((any_byte is_upper term ≡ false)
        × (map to_lower (take (length term) text) ≡ map to_lower term))

-- The text of the line from column `k` on begins with the term.
abbrev pub OccursAt : Bytes → Line → ℕ → Type 0
OccursAt term line k = Occurs term (drop k (plain_line [] line))

abbrev pub Each : (Recti → Type 0) → List Recti → Type 0
Each P [] = Unit {0}
Each P (r ∷ rs) = P r × Each P rs

abbrev pub Some : (Recti → Type 0) → List Recti → Type 0
Some P [] = ⊥
Some P (r ∷ rs) = P r ⊎ Some P rs

module _ (platform : Platform) (m : Manpage) where
  -- The rectangle of column `k` in line `i`, as wide as the search string.
  abbrev pub recti : ℕ → ℕ → Recti
  recti i k = match_recti platform m.search_start_scroll_position m.search_string i k

  -- The rectangle is that of an occurrence in the lines, of which the first is line `i`.
  abbrev pub IsOccurrence : List Line → ℕ → Recti → Type 0
  IsOccurrence lines i r =
      (j : ℕ) × (line : Line) × (k : ℕ) × (get_elem? lines j ≡ some line)
      × OccursAt m.search_string line k
      × (r ≡ recti (i + j) k)

  -- The rectangle is that of an occurrence in line `i` which has column `k`.
  abbrev pub Covers : ℕ → ℕ → Recti → Type 0
  Covers i k r = (k' : ℕ) × (r ≡ recti i k') × (k' ≤ k) × (k < k' + length m.search_string)

  hits_of : List Line → ℕ → List Recti
  hits_of lines i = lines_hits platform m.search_start_scroll_position m.search_string lines i

  columns_of : Line → List ℕ
  columns_of line = columns m.search_string 0 (plain_line [] line) 0

  line_of : ℕ → List ℕ → List Recti
  line_of i ks = line_hits platform m.search_start_scroll_position m.search_string i ks
