-- ===== src/ManSearch/Results.antt =====
-- `update_search` of main.c as a whole: the array `matches` holds the best hundred hits, in order.
use mathlib.Core.Option.{some-injective}
use mathlib.Core.List.{Perm}
use mangl.Prelude.{
  ℕ, ◌+◌, ◌≤◌, ◌≡◌, refl, ap, sym, subst, ◌∙◌, inl, inr, some, List, [], ◌∷◌, arith, ◌==◌,
  if◌then◌else◌, length, take, min, pos, Bool-cases, Bytes, length-take, take_all, length-replicate,
  Option-cases,
}
use mangl.ManSearch.{
  Match, SearchScreen, Table, max_matches, empty_table, no_match, search_names, chosen_names,
  with_table, update_search, find_string, goodness_of,
}
use mangl.ManSearch.Hits.{shown, IsTable, length-shown, inserted, add_match-Added}
use mangl.ManSearch.Ranking.{
  insert_ranked, candidates, insert_all, ranking, IsRanked, take-IsRanked, insert_all-IsRanked,
  ranking-perm, take-insert_ranked, length-insert_all,
}

-- The loop keeps the table valid, and what it shows is the best of all hits so far.
search_names_lem :
    (term : Bytes) (names : List Bytes) (i : ℕ) (t : Table) (ranked : List Match)
    → IsTable t
    → shown t ≡ take max_matches ranked
    → (t' : Table) × (search_names term names i t ≡ some t')
      × IsTable t'
      × (shown t' ≡ take max_matches (insert_all ranked (candidates term names i)))
unfolding search_names candidates insert_all inserted
search_names_lem term [] i t ranked valid e = (t, refl, valid, e)
search_names_lem term (name ∷ names) i t ranked valid e =
    elim (Option-cases (find_string term name)) [
      | inl miss ↦
          rw (miss, search_names, candidates) (search_names_lem term names (i + 1) t ranked valid e)
      | inr (position, hit) ↦
          let m : Match = record { idx = i; goodness = goodness_of term name position } in
          let (t', added, a) = add_match-Added m t valid in
          rw (hit, search_names, candidates, added)
            (search_names_lem term names (i + 1) t' (insert_ranked m ranked) a.valid'
              (a.shows ∙ later m))
    ]
  where
    later :
        (m : Match)
        → take max_matches (inserted m t valid) ≡ take max_matches (insert_ranked m ranked)
    later m =
        ap (λ xs. take max_matches (insert_ranked m xs)) e ∙ take-insert_ranked max_matches m ranked

-- The hits of the term in force: none for the empty term.
abbrev pub hits : SearchScreen → List Match
hits s = if length s.search_term == 0 then [] else candidates s.search_term (chosen_names s) 0

-- What the user sees after `update_search`: the first hundred of the ranking, from its start.
pub record Updated (s s' : SearchScreen) : Type 0 where
  pub results : take s'.matches_count s'.matches ≡ take max_matches (ranking (hits s))
  pub counted : s'.matches_count ≡ min max_matches (length (hits s))
  pub room : length s'.matches ≡ max_matches
  pub first_selected : s'.results_selected_index ≡ 0
  pub first_in_view : s'.results_view_offset ≡ 0
  pub same_term : s'.search_term ≡ s.search_term

empty_table-IsTable : IsTable empty_table
empty_table-IsTable = record {
  full = length-replicate max_matches no_match;
  small = omega arith;
  ranked = tt;
}

with_table-Updated :
    (s : SearchScreen) (t : Table)
    → IsTable t
    → shown t ≡ take max_matches (ranking (hits s))
    → Updated s (with_table s t)
with_table-Updated s t valid e = record {
  results = e;
  counted = omega (
    arith,
    length-shown (record { idx = 0; goodness = pos 0 }) t valid,
    ap length e,
    length-take max_matches (ranking (hits s)),
    length-insert_all (hits s) [],
  );
  room = valid.full;
  first_selected = refl;
  first_in_view = refl;
  same_term = refl;
}

-- `update_search` never leaves the array `matches`, its loops end, and it shows the first hundred
-- hits of the ranking, counts them, and goes back to the first.
pub update_search-Updated :
    (s : SearchScreen) → (s' : SearchScreen) × (update_search s ≡ some s') × Updated s s'
unfolding update_search insert_all
update_search-Updated s = elim (Bool-cases (length s.search_term == 0)) [
  | inl empty ↦ rw empty (
    with_table s empty_table,
    refl,
    with_table-Updated s empty_table empty_table-IsTable (rw empty),
  )
  | inr more ↦
      let (t, run, valid, e) =
        search_names_lem s.search_term (chosen_names s) 0 empty_table [] empty_table-IsTable refl in
      (with_table s t, rw (more, run), with_table-Updated s t valid (rw more e))
]

-- The results are in order of goodness, best first.
pub update_search-IsRanked :
    (s s' : SearchScreen) → update_search s ≡ some s' → IsRanked (take s'.matches_count s'.matches)
update_search-IsRanked s s' e =
    let (s'', e', u) = update_search-Updated s in
    let same : s'' ≡ s' = some-injective s'' s' (sym e' ∙ e) in
    subst (λ (r : SearchScreen). IsRanked (take r.matches_count r.matches)) same
      (subst IsRanked (sym u.results)
        (take-IsRanked max_matches _ (insert_all-IsRanked (hits s) [] tt)))

-- With no more than a hundred hits nothing is left out: the results are the hits, each as often.
pub update_search-perm :
    (s s' : SearchScreen)
    → update_search s ≡ some s'
    → length (hits s) ≤ max_matches
    → Perm (take s'.matches_count s'.matches) (hits s)
update_search-perm s s' e few =
    let (s'', e', u) = update_search-Updated s in
    let same : s'' ≡ s' = some-injective s'' s' (sym e' ∙ e) in
    let all : take max_matches (ranking (hits s)) ≡ ranking (hits s) =
      take_all max_matches (ranking (hits s)) (omega (arith, length-insert_all (hits s) [])) in
    subst (λ (r : SearchScreen). Perm (take r.matches_count r.matches) (hits s)) same
      (subst (λ xs. Perm xs (hits s)) (sym (u.results ∙ all)) (ranking-perm (hits s)))
