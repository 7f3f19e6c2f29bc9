-- ===== src/ManSearch/Hits.antt =====
-- One hit of `update_search` in main.c: the array `matches` keeps the best hundred, in order.
use mangl.Prelude.{
  ℕ, zero, suc, ◌+◌, ◌≤◌, ◌<◌, ◌≡◌, refl, ap, sym, subst, ◌∙◌, false, inl, inr, some, List, [], ◌∷◌,
  ◌++◌, arith, ltb, leb, if◌then◌else◌, length, take, drop, pos, Bool-cases, take-append-drop,
  length-take, take-append_le, take-take_le, take_all, length-append, length-drop,
}
use mangl.ManSearch.{
  Match, Table, max_matches, compar_match_rev, binary_search_first, insert_array, add_match,
}
use mangl.ManSearch.Bisect.{rank, binary_search_first_lem}
use mangl.ManSearch.Insert.{insert_at, insert_array_lem}
use mangl.ManSearch.Ranking.{
  insert_ranked, IsRanked, insert_ranked-IsRanked, take-IsRanked, length-insert_ranked,
  IsRanked-IsParted, insert_at-rank,
}

-- The part of the array that is in use.
abbrev pub shown : Table → List Match
shown t = take t.count t.cells

pub record IsTable (t : Table) : Type 0 where
  pub full : length t.cells ≡ max_matches
  pub small : t.count ≤ max_matches
  pub ranked : IsRanked (shown t)

rank-le : (m : Match) (xs : List Match) → rank compar_match_rev m xs ≤ length xs
unfolding rank
rank-le m [] = omega arith
rank-le m (x ∷ xs) = ground (arith, rank-le m xs)

insert_at-append :
    (i : ℕ) (m : Match) (xs ys : List Match)
    → i ≤ length xs
    → insert_at i m (xs ++ ys) ≡ insert_at i m xs ++ ys
unfolding insert_at
insert_at-append zero m xs ys l = refl
insert_at-append (suc i) m [] ys l = absurd (omega arith)
insert_at-append (suc i) m (x ∷ xs) ys l =
    ap (λ t. x ∷ t) (insert_at-append i m xs ys (omega arith))

take-insert_at_ge :
    (n i : ℕ) (m : Match) (xs : List Match)
    → n ≤ i
    → i ≤ length xs
    → take n (insert_at i m xs) ≡ take n xs
unfolding insert_at
take-insert_at_ge zero i m xs l h = refl
take-insert_at_ge (suc n) zero m xs l h = absurd (omega arith)
take-insert_at_ge (suc n) (suc i) m [] l h = absurd (omega arith)
take-insert_at_ge (suc n) (suc i) m (x ∷ xs) l h =
    ap (λ t. x ∷ t) (take-insert_at_ge n i m xs (omega arith) (omega arith))

module _ (m : Match) (t : Table) (valid : IsTable t) where
  pub length-shown : length (shown t) ≡ t.count
  length-shown = omega (arith, length-take t.count t.cells, valid.full, valid.small)

  place : ℕ
  place = rank compar_match_rev m (shown t)

  place-le : place ≤ t.count
  unfolding place
  place-le = omega (arith, rank-le m (shown t), length-shown)

  binary_search-place : binary_search_first compar_match_rev m t.cells t.count ≡ some place
  unfolding place
  binary_search-place =
      subst
        (λ cells.
          binary_search_first compar_match_rev m cells t.count
          ≡ some (rank compar_match_rev m (shown t)))
        (take-append-drop t.count t.cells)
        (subst
          (λ n.
            binary_search_first compar_match_rev m (shown t ++ drop t.count t.cells) n
            ≡ some (rank compar_match_rev m (shown t)))
          length-shown
          (binary_search_first_lem compar_match_rev m (shown t) (drop t.count t.cells)
            (IsRanked-IsParted m (shown t) valid.ranked)))

  unfoldable pub inserted : List Match
  inserted = insert_ranked m (shown t)

  -- The array after the insertion, in front of the cut at its end.
  insert_at-place : insert_at place m t.cells ≡ inserted ++ drop t.count t.cells
  unfolding place inserted
  insert_at-place =
      ap (insert_at place m) (sym (take-append-drop t.count t.cells))
      ∙ insert_at-append place m (shown t) (drop t.count t.cells) (rank-le m (shown t))
      ∙ ap (λ xs. xs ++ drop t.count t.cells) (insert_at-rank m (shown t))

  cells_after : List Match
  cells_after = take max_matches (inserted ++ drop t.count t.cells)

  insert_array-cells :
      place < max_matches → insert_array m (pos place) t.cells max_matches ≡ some cells_after
  unfolding cells_after
  insert_array-cells l =
      subst
        (λ n.
          insert_array m (pos place) t.cells n
          ≡ some (if leb n place then t.cells else take n (insert_at place m t.cells)))
        valid.full (insert_array_lem m (pos place) t.cells)
      ∙ ap some cut
    where
      cut :
          (if leb max_matches place then t.cells else take max_matches (insert_at place m t.cells))
          ≡ take max_matches (inserted ++ drop t.count t.cells)
      cut = let e : leb max_matches place ≡ false = ground arith in rw (e, insert_at-place)

  length-inserted : length inserted ≡ suc t.count
  unfolding inserted
  length-inserted = omega (arith, length-insert_ranked m (shown t), length-shown)

  -- Of the hundred best, a count that grows up to a hundred shows all.
  shown_after :
      (n : ℕ)
      → n ≡ (if ltb t.count max_matches then t.count + 1 else t.count)
      → take n (take max_matches (inserted ++ drop t.count t.cells)) ≡ take max_matches inserted
  shown_after n e =
      take-take_le n max_matches _ (ground (arith, valid.small))
      ∙ take-append_le n inserted _ (ground (arith, length-inserted))
      ∙ elim (Bool-cases (ltb t.count max_matches)) [
        | inl more ↦
            take_all n inserted (ground (arith, length-inserted))
            ∙ sym (take_all max_matches inserted (ground (arith, length-inserted)))
        | inr full ↦
            let hundred : n ≡ max_matches = ground (arith, valid.small) in
            ap (λ k. take k inserted) hundred
      ]

  -- The new table, as the spec has it.
  pub record Added (t' : Table) : Type 0 where
    pub valid' : IsTable t'
    pub shows : shown t' ≡ take max_matches inserted

  Added-take :
      (t' : Table)
      → length t'.cells ≡ max_matches
      → t'.count ≤ max_matches
      → shown t' ≡ take max_matches inserted
      → Added t'
  unfolding inserted
  Added-take t' full small shows = record {
    valid' = record {
      full = full;
      small = small;
      ranked =
          subst IsRanked (sym shows)
            (take-IsRanked max_matches _ (insert_ranked-IsRanked m (shown t) valid.ranked));
    };
    shows = shows;
  }

  grown : Table
  grown = record {
    cells = cells_after;
    count = if ltb t.count max_matches then t.count + 1 else t.count;
  }

  grown-Added : Added grown
  unfolding grown cells_after
  grown-Added =
      Added-take grown
        (omega (
          arith,
          length-take max_matches (inserted ++ drop t.count t.cells),
          length-append inserted (drop t.count t.cells),
          length-inserted,
          length-drop t.count t.cells,
          valid.full,
          valid.small,
        ))
        (ground (arith, valid.small)) (shown_after _ refl)

  -- A hit that is no better than a hundred others is left out.
  same-Added : place ≡ max_matches → Added t
  unfolding inserted place
  same-Added e = Added-take t valid.full valid.small (
      ap (λ k. take k t.cells) all
      ∙ sym (take-take_le max_matches t.count t.cells (omega (arith, all)))
      ∙ sym
          (take-insert_at_ge max_matches place m (shown t) (omega (arith, e)) (rank-le m (shown t)))
      ∙ ap (take max_matches) (insert_at-rank m (shown t)))
    where
      all : t.count ≡ max_matches
      all = omega (arith, place-le, valid.small)

  pub add_match-Added : (t' : Table) × (add_match m t ≡ some t') × Added t'
  unfolding add_match grown
  add_match-Added = elim (Bool-cases (ltb place max_matches)) [
    | inl l ↦ (
      grown,
      rw (binary_search-place, add_match, l, insert_array-cells (ground arith)) refl,
      grown-Added,
    )
    | inr l ↦ (
      t,
      rw (binary_search-place, add_match, l),
      same-Added (ground (arith, place-le, valid.small)),
    )
  ]
