-- ===== src/PageSearch/Refine.antt =====
-- `update_page_search` of main.c records the first hundred occurrences of the term in the page, and
-- selects the first one from where the search began.
use mangl.Prelude.{
  ℕ, zero, suc, ◌+◌, ◌-◌, ◌≤◌, ◌<◌, ◌≡◌, refl, sym, ap, ap₂, subst, ◌∙◌, Bool, true, false, inl,
  inr, Option, none, some, List, [], ◌∷◌, ◌++◌, arith, ltb, leb, if◌then◌else◌, length, take, drop,
  set, Bytes, Bool-cases, not, ◌&&◌, ◌||◌, ℤ, append_assoc, append-nil, length-append, length-set,
  take-set_last, take-append_le, take_all, length-drop,
}
use mangl.Run.{Run, done}
use mangl.Document.{Line}
use mangl.App.{Recti, Platform}
use mangl.PageSearch.{
  Found, Scan, next, full, max_searches, matches_here, match_recti, is_below_start, add_search,
  check_full, search_line, search_lines, plain_line,
}
use mangl.PageSearch.Occurrences.{columns, columns-drop, columns-cons_hit, columns-cons_miss}

module _ (platform : Platform) (start : ℤ) (term : Bytes) where
  -- The occurrences in a line, and in the lines from number `i` on.
  abbrev pub line_hits : ℕ → List ℕ → List Recti
  line_hits i [] = []
  line_hits i (k ∷ ks) = match_recti platform start term i k ∷ line_hits i ks

  abbrev pub lines_hits : List Line → ℕ → List Recti
  lines_hits [] i = []
  lines_hits (l ∷ ls) i = line_hits i (columns term 0 (plain_line [] l) 0) ++ lines_hits ls (i + 1)

  -- The place of the first occurrence at or below the start.
  abbrev pub first_below : List Recti → Option ℕ
  first_below [] = none
  first_below (r ∷ rs) =
      if is_below_start platform start term r
      then some 0
      else elim (first_below rs) [ none ↦ none | some k ↦ some (suc k) ]

  abbrev pub is_set : Option ℕ → Bool
  is_set none = false
  is_set (some k) = true

  abbrev pub selected : Option ℕ → ℕ
  selected none = 0
  selected (some k) = k

  -- The variables of the function when the occurrences `rs` have been recorded.
  pub record Holds (f : Found) (rs : List Recti) : Type 0 where
    pub room : length f.searches ≡ max_searches
    pub counted : f.search_num ≡ length rs
    pub recorded : take f.search_num f.searches ≡ rs
    pub marked : f.search_index_set ≡ is_set (first_below rs)
    pub indexed : f.search_index ≡ selected (first_below rs)

  first_below-append :
      (rs : List Recti) (r : Recti)
      → first_below (rs ++ r ∷ []) ≡ elim (first_below rs) [
        | some k ↦ some k
        | none ↦ if is_below_start platform start term r then some (length rs) else none
      ]
  first_below-append [] r = refl
  first_below-append (q ∷ rs) r = ground (arith, first_below-append rs r)

  add_search-Holds :
      (f : Found) (rs : List Recti) (r : Recti)
      → Holds f rs
      → length rs < max_searches
      → (f' : Found) × (add_search platform start term f r ≡ done f') × Holds f' (rs ++ r ∷ [])
  unfolding add_search
  add_search-Holds f rs r h l =
      let inside : ltb f.search_num (length f.searches) ≡ true =
        ground (arith, h.room, h.counted) in
      (
        record f {
          searches = set f.searches f.search_num r;
          search_num = f.search_num + 1;
          search_index =
              if is_below_start platform start term r && not f.search_index_set
              then f.search_num
              else f.search_index;
          search_index_set = is_below_start platform start term r || f.search_index_set;
        },
        rw inside,
        record {
          room = length-set f.searches f.search_num r ∙ h.room;
          counted = omega (arith, h.counted, length-append rs (r ∷ []));
          recorded =
              take-set_last f.searches f.search_num r (omega (arith, h.room, h.counted))
              ∙ ap (λ xs. xs ++ r ∷ []) h.recorded;
          marked = ground (arith, first_below-append rs r, h.marked);
          indexed = ground (arith, first_below-append rs r, h.marked, h.indexed, h.counted);
        },
      )

  -- How the scan of a line ends, when `rs` are the occurrences up to its end.
  abbrev Ends : Scan → List Recti → Type 0
  Ends (next f) rs = Holds f rs × (length rs < max_searches)
  Ends (full f) rs = Holds f (take max_searches rs) × (max_searches ≤ length rs)

  Holds-check_full :
      (f : Found) (rs : List Recti)
      → Holds f rs
      → length rs ≤ max_searches
      → Ends (check_full platform start term f) rs
  Holds-check_full f rs h l = elim (Bool-cases (leb max_searches f.search_num)) [
    | inr more ↦ rw more (h, ground (arith, h.counted))
    | inl stop ↦
        let hundred : length rs ≡ max_searches = ground (arith, h.counted) in
        rw (stop, take_all max_searches rs (omega arith))
          (
            record {
              room = h.room;
              counted = h.counted;
              recorded = h.recorded;
              marked = h.marked;
              indexed = ground (arith, h.marked, h.indexed);
            },
            omega arith,
          )
  ]

  Ends-more :
      (s : Scan) (rs qs : List Recti) → max_searches ≤ length rs → Ends s rs → Ends s (rs ++ qs)
  Ends-more (next f) rs qs l h = absurd (omega arith)
  Ends-more (full f) rs qs l h = (
    subst (Holds f) (sym (take-append_le max_searches rs qs l)) h.0,
    omega (arith, length-append rs qs),
  )

  search_line-hit :
      (fuel i : ℕ) (c : ℕ) (str : Bytes) (col : ℕ) (f f' : Found)
      → matches_here term (c ∷ str) ≡ true
      → add_search platform start term f (match_recti platform start term i col) ≡ done f'
      → search_line platform start term (suc fuel) i (c ∷ str) col f
        ≡ elim (check_full platform start term f') [
          | full f'' ↦ done (full f'')
          | next f'' ↦
              search_line platform start term fuel i
                (drop (length term) (c ∷ str))
                (col + length term)
                f''
        ]
  unfolding search_line
  search_line-hit fuel i c str col f f' e e' = rw (e, search_line, e')

  search_line-miss :
      (fuel i : ℕ) (c : ℕ) (str : Bytes) (col : ℕ) (f : Found)
      → matches_here term (c ∷ str) ≡ false
      → search_line platform start term (suc fuel) i (c ∷ str) col f
        ≡ search_line platform start term fuel i str (col + 1) f
  unfolding search_line
  search_line-miss fuel i c str col f e = rw (e, search_line)

  abbrev Scanned : Run Scan → List Recti → Type 0
  Scanned r rs = (s : Scan) × (r ≡ done s) × Ends s rs

  -- The scan goes on with `cont`, or the array is full.
  go_on :
      (s : Scan) (cont : Found → Run Scan) (rs qs : List Recti)
      → Ends s rs
      → ((f : Found) → Holds f rs → length rs < max_searches → Scanned (cont f) (rs ++ qs))
      → Scanned (elim s [ full f ↦ done (full f) | next f ↦ cont f ]) (rs ++ qs)
  go_on (next f) cont rs qs h k = k f h.0 h.1
  go_on (full f) cont rs qs h k = (full f, refl, Ends-more (full f) rs qs h.1 h)

  module _ (some_term : 0 < length term) where
    rest_of_line :
        (c : ℕ) (str : Bytes) (col : ℕ)
        → columns term (length term - 1) str (col + 1)
          ≡ columns term 0 (drop (length term) (c ∷ str)) (col + length term)
    rest_of_line c str col =
        columns-drop term (length term - 1) str (col + 1)
        ∙ ap₂ (columns term 0) (dropped (length term) refl) (omega (arith, some_term))
      where
        dropped :
            (n : ℕ) → length term ≡ n → drop (length term - 1) str ≡ drop (length term) (c ∷ str)
        dropped zero e = absurd (omega (arith, some_term))
        dropped (suc n) e = let d : suc n - 1 ≡ n = omega arith in rw (e, d)

    search_line-Ends :
        (fuel i : ℕ) (str : Bytes) (col : ℕ) (f : Found) (rs : List Recti)
        → length str ≤ fuel
        → Holds f rs
        → length rs < max_searches
        → Scanned
            (search_line platform start term fuel i str col f)
            (rs ++ line_hits i (columns term 0 str col))
    search_line-Ends fuel i [] col f rs enough h l =
        unfold search_line columns in
        (
          check_full platform start term f,
          refl,
          rw (append-nil rs) (Holds-check_full f rs h (omega arith)),
        )
    search_line-Ends zero i (c ∷ str) col f rs enough h l = absurd (omega arith)
    search_line-Ends (suc fuel) i (c ∷ str) col f rs enough h l =
        elim (Bool-cases (matches_here term (c ∷ str))) [
          | inr e ↦
              rw (search_line-miss fuel i c str col f e, columns-cons_miss term c str col e)
                (search_line-Ends fuel i str (col + 1) f rs (omega arith) h l)
          | inl e ↦
              let (f', ran, h') =
                add_search-Holds f rs (match_recti platform start term i col) h l in
              rw
                (
                  search_line-hit fuel i c str col f f' e ran,
                  columns-cons_hit term c str col e,
                  rest_of_line c str col,
                )
                (let r = match_recti platform start term i col in
                  let rest =
                    line_hits i
                      (columns term 0 (drop (length term) (c ∷ str)) (col + length term)) in
                  let grown = length-append rs (r ∷ []) in
                  subst
                    (λ qs.
                      Scanned
                        (elim (check_full platform start term f') [
                          | full f'' ↦ done (full f'')
                          | next f'' ↦
                              search_line platform start term fuel i (drop (length term) (c ∷ str))
                                (col + length term) f''
                        ])
                        qs)
                    (append_assoc rs (r ∷ []) rest)
                    (go_on (check_full platform start term f')
                      (search_line platform start term fuel i (drop (length term) (c ∷ str))
                        (col + length term))
                      (rs ++ r ∷ []) rest
                      (Holds-check_full f' (rs ++ r ∷ []) h' (omega (arith, grown)))
                      (λ f'' h'' l''.
                        search_line-Ends fuel i (drop (length term) (c ∷ str)) (col + length term)
                          f'' (rs ++ r ∷ [])
                          (omega (arith, length-drop (length term) (c ∷ str), some_term)) h'' l'')))
        ]

    pub search_lines-Holds :
        (ls : List Line) (i : ℕ) (f : Found) (rs : List Recti)
        → Holds f rs
        → length rs < max_searches
        → (f' : Found) × (search_lines platform start term ls i f ≡ done f')
          × Holds f' (take max_searches (rs ++ lines_hits ls i))
    unfolding search_lines
    search_lines-Holds [] i f rs h l = (
      f,
      refl,
      subst (Holds f)
          (sym (ap (take max_searches) (append-nil rs) ∙ take_all max_searches rs (omega arith))) h,
    )
    search_lines-Holds (k ∷ ls) i f rs h l =
        let text = plain_line [] k in
        let (s, ran, ends) = search_line-Ends (length text) i text 0 f rs (omega arith) h l in
        rw ran (
          subst
            (λ qs.
              (f' : Found) × (elim s [
                | full f' ↦ done f'
                | next f' ↦ search_lines platform start term ls (i + 1) f'
              ]
                ≡ done f')
              × Holds f' (take max_searches qs))
            (append_assoc rs (line_hits i (columns term 0 text 0)) (lines_hits ls (i + 1)))
            (more (λ f' qs. search_lines-Holds ls (i + 1) f' qs) s
              (rs ++ line_hits i (columns term 0 text 0)) ends))
      where
        more :
            ((f' : Found) (qs : List Recti)
              → Holds f' qs
              → length qs < max_searches
              → (f'' : Found) × (search_lines platform start term ls (i + 1) f' ≡ done f'')
                × Holds f'' (take max_searches (qs ++ lines_hits ls (i + 1))))
            → (s : Scan) (qs : List Recti) → Ends s qs
            → (f' : Found) × (elim s [
              | full f' ↦ done f'
              | next f' ↦ search_lines platform start term ls (i + 1) f'
            ]
                ≡ done f')
              × Holds f' (take max_searches (qs ++ lines_hits ls (i + 1)))
        more again (next f') qs h = again f' qs h.0 h.1
        more again (full f') qs h =
            (f', refl, subst (Holds f') (sym (take-append_le max_searches qs _ h.1)) h.0)
