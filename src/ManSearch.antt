-- ===== src/ManSearch.antt =====
-- The search screen's model of main.c: `find_string`, `compar_match_rev`, `binary_search_first`,
-- `insert_array` and `update_search`, over the globals that they read and write.
pub mod Find
pub mod Bisect
pub mod Insert
pub mod Ranking
pub mod Hits
pub mod Results
mod Tests
use mangl.Prelude.{
  ℕ, zero, suc, ◌+◌, ◌-◌, ◌*◌, ◌/◌, Bool, true, false, Option, none, some, List, [], ◌∷◌, ltb, leb,
  ◌==◌, if◌then◌else◌, get_elem?, set, length, replicate, ℤ, pos, negsuc, ◌-ℤ◌, ltb_ℤ, leb_ℤ, Bytes,
}
use mangl.Text.{is_prefix, is_upper, any_byte}

-- An element of `matches`.
pub record Match : Type 0 where
  pub idx : ℕ
  pub goodness : ℤ

-- `ARRAY_SIZE(matches)`
abbrev pub max_matches : ℕ
max_matches = 100

-- The globals of the search screen; `manpage_names` and `manpage_names_lower` are kept in step.
pub record SearchScreen : Type 0 where
  pub search_term : Bytes
  pub manpage_names : List Bytes
  pub manpage_names_lower : List Bytes
  pub results_selected_index : ℕ
  pub results_shown_lines : ℕ
  pub results_view_offset : ℕ
  pub matches : List Match
  pub matches_count : ℕ

abbrev tail : Bytes → Bytes
tail [] = []
tail (c ∷ s) = s

-- The loop on `i`: `n` rounds are left, and `text` is `&text[i]`. The inner loop compares all of
-- the term, so it is a prefix test. `none` is -1.
find_loop : Bytes → ℕ → Bytes → ℕ → Option ℕ
find_loop term zero text i = none
find_loop term (suc n) text i =
    let rest = find_loop term n (tail text) (i + 1) in if is_prefix term text then some i else rest

-- The bound `text_len - search_len` is negative, and the loop empty, for a term that is longer.
unfoldable pub find_string : Bytes → Bytes → Option ℕ
unfolding find_loop is_prefix
find_string term text = find_loop term (length text - length term) text 0

unfoldable pub compar_match_rev : Match → Match → ℤ
compar_match_rev a b = b.goodness -ℤ a.goodness

module _ {A : Type 0} (compar : A → A → ℤ) (key : A) where
  -- The `while` of `binary_search_first`. `none` is a read past the data, or the end of the fuel.
  bisect : ℕ → List A → ℕ → ℕ → Option ℕ
  bisect zero data' start end = none
  bisect (suc fuel) data' start end = elim (ltb (start + 1) end) [
    | false ↦ some end
    | true ↦ elim (get_elem? data' ((end + start) / 2)) [
      | none ↦ none
      | some el ↦ elim (ltb_ℤ (pos 0) (compar key el)) [
        | false ↦ bisect fuel data' start ((end + start) / 2)
        | true ↦ bisect fuel data' ((end + start) / 2) end
      ]
    ]
  ]

  unfoldable pub binary_search_first : List A → ℕ → Option ℕ
  unfolding bisect
  binary_search_first data' nmemb = if nmemb == 0 then some 0 else elim (get_elem? data' 0) [
    | none ↦ none
    | some first ↦ elim (get_elem? data' (nmemb - 1)) [
      | none ↦ none
      | some last ↦
          if leb_ℤ (compar key first) (pos 0)
          then some 0
          else if ltb_ℤ (pos 0) (compar key last)
          then some nmemb
          else bisect nmemb data' 0 (nmemb - 1)
    ]
  ]

module _ {A : Type 0} where
  -- `memcpy(&data[to], v, size)`. `none` is a write past the array.
  abbrev write_elem : List A → ℕ → A → Option (List A)
  write_elem data' to v = if ltb to (length data') then some (set data' to v) else none

  -- `memcpy(&data[to], &data[from], size)`. `none` is a read or a write past the array.
  abbrev copy_elem : List A → ℕ → ℕ → Option (List A)
  copy_elem data' from to = elim (get_elem? data' from) [
    | none ↦ none
    | some v ↦ write_elem data' to v
  ]

  -- The loop on `i`, downwards to `index`: with `k + 1` rounds left `i` is `index + k`.
  shift_up : ℕ → ℕ → List A → Option (List A)
  shift_up zero index data' = some data'
  shift_up (suc k) index data' = elim (copy_elem data' (index + k) (index + k + 1)) [
    | none ↦ none
    | some data'' ↦ shift_up k index data''
  ]

  unfoldable pub insert_array : A → ℤ → List A → ℕ → Option (List A)
  unfolding shift_up
  insert_array key (negsuc n) data' nmemb = some data'
  insert_array key (pos index) data' nmemb =
      if leb nmemb index then some data' else elim (shift_up (nmemb - 1 - index) index data') [
        | none ↦ none
        | some data'' ↦ write_elem data'' index key
      ]

-- `matches` with `matches_count`.
pub record Table : Type 0 where
  pub cells : List Match
  pub count : ℕ

abbrev pub no_match : Match
no_match = record { idx = 0; goodness = pos 0 }

abbrev pub empty_table : Table
empty_table = record { cells = replicate max_matches no_match; count = 0 }

-- One hit: find its place, and insert it if that lies in the array.
unfoldable pub add_match : Match → Table → Option Table
add_match key t = elim (binary_search_first compar_match_rev key t.cells t.count) [
  | none ↦ none
  | some index ↦
      if ltb index max_matches
      then elim (insert_array key (pos index) t.cells max_matches) [
        | none ↦ none
        | some cells ↦ some (record {
          cells = cells;
          count = if ltb t.count max_matches then t.count + 1 else t.count;
        })
      ]
      else some t
]

abbrev pub goodness_of : Bytes → Bytes → ℕ → ℤ
goodness_of term name position =
    pos 0 -ℤ pos (position * 100) -ℤ (pos (length name) -ℤ pos (length term))

-- The loop over the names, of which `names` are left from index `i` on.
unfoldable pub search_names : Bytes → List Bytes → ℕ → Table → Option Table
search_names term [] i t = some t
search_names term (name ∷ names) i t = elim (find_string term name) [
  | none ↦ search_names term names (i + 1) t
  | some position ↦
      elim (add_match (record { idx = i; goodness = goodness_of term name position }) t) [
        | none ↦ none
        | some t' ↦ search_names term names (i + 1) t'
      ]
]

unfoldable pub chosen_names : SearchScreen → List Bytes
unfolding any_byte
chosen_names s = if any_byte is_upper s.search_term then s.manpage_names else s.manpage_names_lower

abbrev pub with_table : SearchScreen → Table → SearchScreen
with_table s t = record s {
  matches = t.cells;
  matches_count = t.count;
  results_view_offset = 0;
  results_selected_index = 0;
}

-- `none` is a fault: an access outside `matches`.
unfoldable pub update_search : SearchScreen → Option SearchScreen
update_search s =
    if length s.search_term == 0
    then some (with_table s empty_table)
    else elim (search_names s.search_term (chosen_names s) 0 empty_table) [
      | none ↦ none
      | some t ↦ some (with_table s t)
    ]
