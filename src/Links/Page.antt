-- ===== src/Links/Page.antt =====
-- The links of a whole page.
use mangl.Prelude.{
  ℕ, suc, ◌+◌, ◌<◌, ◌≡◌, refl, sym, subst, inl, inr, some, List, [], ◌∷◌, arith, ltb, if◌then◌else◌,
  length, get_elem?, Bytes, Bool-cases,
}
use mangl.Run.{done, Returns, Returns-bind, Returns-weaken}
use mangl.Document.{Span, Line, c_string}
use mangl.App.{Link, Platform}
use mangl.PageSearch.{add_plain}
use mangl.Links.{no_word, word_size, scan_words, find_line_links, find_links}
use mangl.Links.Sound.{
  FitsLinks, IsLink, AreLinks, Each, Each-append, Each-weaken, scan_words-Returns,
}

-- The text of a span, its backspaces done.
abbrev pub span_text : Span → Bytes
span_text s = add_plain [] (c_string s.buffer)

-- Every span of the lines has fewer bytes than the buffer of the parser.
abbrev pub ShortLine : Line → Type 0
ShortLine [] = Unit {0}
ShortLine (s ∷ l) = (length (span_text s) < word_size) × ShortLine l

abbrev pub ShortLines : List Line → Type 0
ShortLines [] = Unit {0}
ShortLines (l ∷ ls) = ShortLine l × ShortLines ls

-- The link belongs to a word of a span of the line.
abbrev pub IsLineLink : Platform → ℕ → Line → Link → Type 0
IsLineLink platform i line l =
    (j : ℕ) × (s : Span) × (get_elem? line j ≡ some s) × IsLink platform i (span_text s) l

-- The link belongs to a word of a span of one of the lines, of which the first is line `i`.
abbrev pub IsPageLink : Platform → List Line → ℕ → Link → Type 0
IsPageLink platform lines i l =
    (k : ℕ) × (line : Line) × (get_elem? lines k ≡ some line) × IsLineLink platform (i + k) line l

pub find_line_links-Returns :
    (platform : Platform) (i : ℕ) (line : Line)
    → FitsLinks platform
    → ShortLine line
    → Returns (find_line_links platform i line) (Each (IsLineLink platform i line))
unfolding find_line_links
find_line_links-Returns platform i [] fits short = tt
find_line_links-Returns platform i (s ∷ line) fits (short, shorts) =
    Returns-bind
      (if ltb 0 s.length_used then scan_words platform i 0 (span_text s) no_word else done []) _
      (Each (IsLineLink platform i (s ∷ line))) _
      (elim (Bool-cases (ltb 0 s.length_used)) [
        | inl e ↦ rw e (
            Returns-weaken (scan_words platform i 0 (span_text s) no_word)
              (AreLinks platform i (span_text s)) _
              (Each-weaken (IsLink platform i (span_text s)) (IsLineLink platform i (s ∷ line))
                (λ l h. (0, s, refl, h)))
              (scan_words-Returns platform i (span_text s) fits short))
        | inr e ↦ rw e tt
      ])
      (λ links good.
        Returns-bind (find_line_links platform i line) _ (Each (IsLineLink platform i line)) _
          (find_line_links-Returns platform i line fits shorts)
          (λ more good'. Each-append (IsLineLink platform i (s ∷ line)) links more good (
            Each-weaken (IsLineLink platform i line) (IsLineLink platform i (s ∷ line))
              (λ l (j, t, at, h). (suc j, t, at, h)) more good')))

-- On lines whose spans are shorter than `current_word`, with paths in the databases that fit into a
-- link, `find_links` never writes outside its buffers. Every link that it finds covers a word of a
-- span of the page, in that span's row, and leads to the file that the database has for the word.
pub find_links-Returns :
    (platform : Platform) (lines : List Line) (i : ℕ)
    → FitsLinks platform
    → ShortLines lines
    → Returns (find_links platform lines i) (Each (IsPageLink platform lines i))
unfolding find_links
find_links-Returns platform [] i fits short = tt
find_links-Returns platform (line ∷ lines) i fits (short, shorts) =
    let here : i + 0 ≡ i = omega arith in
    Returns-bind (find_line_links platform i line) _ (Each (IsLineLink platform i line)) _
      (find_line_links-Returns platform i line fits short)
      (λ links good.
        Returns-bind (find_links platform lines (i + 1)) _
          (Each (IsPageLink platform lines (i + 1))) _
          (find_links-Returns platform lines (i + 1) fits shorts)
          (λ more good'.
            Each-append (IsPageLink platform (line ∷ lines) i) links more
              (Each-weaken (IsLineLink platform i line) (IsPageLink platform (line ∷ lines) i)
                (λ l h. (0, line, refl, subst (λ n. IsLineLink platform n line l) (sym here) h))
                links good)
              (Each-weaken (IsPageLink platform lines (i + 1))
                (IsPageLink platform (line ∷ lines) i)
                (λ l (k, t, at, h).
                  let next : i + 1 + k ≡ i + suc k = omega arith in
                  (suc k, t, at, subst (λ n. IsLineLink platform n t l) next h))
                more good')))
