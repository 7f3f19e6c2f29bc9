-- ===== src/PageSearch.antt =====
-- The search in a page: `update_page_search` of main.c.
pub mod Occurrences
pub mod Refine
pub mod Search
pub mod Reported
mod Tests
use mangl.Prelude.{
  ℕ, zero, suc, ◌+◌, ◌-◌, Bool, true, false, not, ◌&&◌, ◌||◌, Option, none, some, List, [], ◌∷◌,
  ◌++◌, ltb, leb, ◌==◌, if◌then◌else◌, length, drop, set, ℤ, pos, ◌+ℤ◌, ◌*ℤ◌, leb_ℤ, Bytes,
}
use mangl.Text.{is_prefix, is_prefix_ignore_case, is_upper, any_byte}
use mangl.Run.{Run, done, fault, ◌>>=◌}
use mangl.Document.{Span, Line, c_string}
use mangl.App.{Recti, Manpage, Platform}
use mangl.Scroll.{margin}

-- `ARRAY_SIZE(line)`
abbrev pub line_size : ℕ
line_size = 2048

-- `pos--`, if there is something.
abbrev pub drop_end : Bytes → Bytes
drop_end [] = []
drop_end (c ∷ []) = []
drop_end (c ∷ d ∷ s) = c ∷ drop_end (d ∷ s)

-- The inner `while`: one span's string is added to the `line` so far, a backspace (8) takes a byte
-- back, and a full line ends the loop.
unfoldable pub add_plain : Bytes → Bytes → Bytes
add_plain line [] = line
add_plain line (c ∷ s) = elim (ltb (length line) (line_size - 1)) [
  | true ↦ add_plain (if c == 8 then drop_end line else line ++ c ∷ []) s
  | false ↦ line
]

-- The text of a line, without overstriking.
unfoldable pub plain_line : Bytes → Line → Bytes
plain_line line [] = line
plain_line line (s ∷ l) =
    plain_line (if ltb 0 s.length_used then add_plain line (c_string s.buffer) else line) l

-- `ARRAY_SIZE(p->searches)`
abbrev pub max_searches : ℕ
max_searches = 100

-- `searches`, `search_num`, `search_index` and the local `search_index_set`.
pub record Found : Type 0 where
  pub searches : List Recti
  pub search_num : ℕ
  pub search_index : ℕ
  pub search_index_set : Bool

-- Whether the scan goes on, or the array is full and the function returns.
pub data Scan : Type 0 where
  next : Found → Scan
  full : Found → Scan

unfoldable pub matches_here : Bytes → Bytes → Bool
unfolding any_byte is_prefix is_prefix_ignore_case
matches_here term str =
    (not (any_byte is_upper term) && is_prefix_ignore_case term str) || is_prefix term str

module _ (platform : Platform) (start : ℤ) (term : Bytes) where
  -- The rectangle of a match in line `i` at column `col`.
  unfoldable pub match_recti : ℕ → ℕ → Recti
  match_recti i col = record {
    x = pos col *ℤ platform.character_width;
    y = pos i *ℤ platform.line_advance;
    x2 = pos col *ℤ platform.character_width +ℤ pos (length term) *ℤ platform.character_width;
    y2 = pos i *ℤ platform.line_advance +ℤ platform.line_height;
  }

  -- The match lies at or below the scroll position at which the search began.
  abbrev pub is_below_start : Recti → Bool
  is_below_start r = leb_ℤ start (r.y +ℤ margin platform)

  -- Record one match, at `searches[search_num]`.
  unfoldable pub add_search : Found → Recti → Run Found
  add_search f r =
      if ltb f.search_num (length f.searches)
      then done (record f {
        searches = set f.searches f.search_num r;
        search_num = f.search_num + 1;
        search_index =
            if is_below_start r && not f.search_index_set then f.search_num else f.search_index;
        search_index_set = is_below_start r || f.search_index_set;
      })
      else fault

  abbrev pub check_full : Found → Scan
  check_full f =
      if leb max_searches f.search_num
      then full (record f { search_index = if f.search_index_set then f.search_index else 0 })
      else next f

  -- `while (*str)`, with `str` at column `col`. Every round moves it on, by one or by the term.
  unfoldable pub search_line : ℕ → ℕ → Bytes → ℕ → Found → Run Scan
  search_line fuel i [] col f = done (check_full f)
  search_line zero i (c ∷ str) col f = fault
  search_line (suc fuel) i (c ∷ str) col f = elim (matches_here term (c ∷ str)) [
    | true ↦ add_search f (match_recti i col) >>= λ f'. elim (check_full f') [
      | full f'' ↦ done (full f'')
      | next f'' ↦ search_line fuel i (drop (length term) (c ∷ str)) (col + length term) f''
    ]
    | false ↦ search_line fuel i str (col + 1) f
  ]

  unfoldable pub search_lines : List Line → ℕ → Found → Run Found
  search_lines [] i f = done f
  search_lines (l ∷ ls) i f =
      search_line (length (plain_line [] l)) i (plain_line [] l) 0 f >>= λ s. elim s [
        | full f' ↦ done f'
        | next f' ↦ search_lines ls (i + 1) f'
      ]

-- Nothing is freed while it is searched: reading a freed span is a fault.
unfoldable pub update_page_search : Platform → Manpage → Run Manpage
update_page_search platform m =
    if length m.search_string == 0
    then done (record m { search_num = 0; search_index = pos 0 })
    else if m.freed
    then fault
    else search_lines platform m.search_start_scroll_position m.search_string m.lines 0 (record {
      searches = m.searches;
      search_num = 0;
      search_index = 0;
      search_index_set = false;
    })
      >>= λ f. done (record m {
        searches = f.searches;
        search_num = f.search_num;
        search_index = pos f.search_index;
      })
