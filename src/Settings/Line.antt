-- ===== src/Settings/Line.antt =====
-- A line that is written for a setting is read back as its name and its value.
use mangl.Prelude.{
  ℕ, ◌<◌, ◌≡◌, ◌≢◌, refl, ap, ◌∙◌, true, false, none, some, [], ◌∷◌, ◌++◌, arith, ltb, ◌==◌, length,
  Bytes,
}
use mangl.Text.{Lacks}
use mangl.Run.{done, strcpy, ◌>>=◌}
use mangl.Settings.{
  setting, is_padding, skip_blanks, split_at, cut_at_space, is_end, trim_end, parse_value,
  parse_line,
}

-- Spaces and tabs.
abbrev pub ArePadding : Bytes → Type 0
ArePadding [] = Unit {0}
ArePadding (c ∷ s) = (is_padding c ≡ true) × ArePadding s

-- Spaces and line ends.
abbrev pub AreEnds : Bytes → Type 0
AreEnds [] = Unit {0}
AreEnds (c ∷ s) = (is_end c ≡ true) × AreEnds s

skip_blanks-append :
    (blanks : Bytes) (c : ℕ) (s : Bytes)
    → ArePadding blanks
    → is_padding c ≡ false
    → skip_blanks (blanks ++ c ∷ s) ≡ c ∷ s
unfolding skip_blanks
skip_blanks-append [] c s h e = rw e refl
skip_blanks-append (b ∷ blanks) c s (h, hs) e = rw h (skip_blanks-append blanks c s hs e)

split_at-append : (d : ℕ) (s t : Bytes) → Lacks d s → split_at d (s ++ d ∷ t) ≡ some (s, t)
unfolding split_at
split_at-append d [] t h = let e : (d == d) ≡ true = ground arith in rw e refl
split_at-append d (c ∷ s) t (ne, h) =
    let e : (c == d) ≡ false = ground arith in rw (e, split_at-append d s t h) refl

split_at-none : (d : ℕ) (s : Bytes) → Lacks d s → split_at d s ≡ none
unfolding split_at
split_at-none d [] h = refl
split_at-none d (c ∷ s) (ne, h) =
    let e : (c == d) ≡ false = ground arith in rw (e, split_at-none d s h) refl

trim_end-ends : (s : Bytes) → AreEnds s → trim_end s ≡ []
unfolding trim_end
trim_end-ends [] h = refl
trim_end-ends (c ∷ s) (h, hs) = rw (trim_end-ends s hs, h) refl

-- The value up to its last byte stays.
trim_end-append :
    (s : Bytes) (last : ℕ) (ends : Bytes)
    → is_end last ≡ false
    → AreEnds ends
    → trim_end (s ++ last ∷ ends) ≡ s ++ last ∷ []
unfolding trim_end
trim_end-append [] last ends e h = rw (trim_end-ends ends h, e) refl
trim_end-append (c ∷ []) last ends e h = rw (trim_end-append [] last ends e h) refl
trim_end-append (c ∷ d ∷ s) last ends e h = rw (trim_end-append (d ∷ s) last ends e h) refl

-- A string that is equal to one that fits is copied as that.
strcpy-fits : (size : ℕ) (s t : Bytes) → s ≡ t → length t < size → strcpy size s ≡ done t
strcpy-fits size s t e h =
    let short : ltb (length t) size ≡ true = ground arith in ap (strcpy size) e ∙ rw short refl

-- A name or a value that is not taken for something else: no blank, line end or comment at its start.
abbrev pub Starts : Bytes → Type 0
Starts [] = Unit {0}
Starts (c ∷ s) = (is_padding c ≡ false) × (c ≢ b'\n')

parse_value-setting :
    (name_size value_size : ℕ) (name s : Bytes) (last : ℕ) (gap ends : Bytes)
    → Lacks b' ' name
    → length name < name_size
    → ArePadding gap
    → Starts (s ++ last ∷ [])
    → is_end last ≡ false
    → AreEnds ends
    → length (s ++ last ∷ []) < value_size
    → parse_value name_size value_size name (skip_blanks (gap ++ (s ++ last ∷ ends)))
      ≡ done (setting name (s ++ last ∷ []))
parse_value-setting name_size value_size name s last gap ends no_space room pad starts e h room' =
    go s starts room' (trim_end-append s last ends e h)
  where
    cut : cut_at_space name ≡ name
    cut = ap (λ x. elim x [ none ↦ name | some p ↦ p.0 ]) (split_at-none b' ' name no_space)

    go :
        (s : Bytes)
        → Starts (s ++ last ∷ [])
        → length (s ++ last ∷ []) < value_size
        → trim_end (s ++ last ∷ ends) ≡ s ++ last ∷ []
        → parse_value name_size value_size name (skip_blanks (gap ++ (s ++ last ∷ ends)))
          ≡ done (setting name (s ++ last ∷ []))
    go [] (solid, ne) room' trimmed =
        let line : (last == b'\n') ≡ false = ground arith in
        let stored = strcpy-fits name_size (cut_at_space name) name cut room in
        let stored' = strcpy-fits value_size (trim_end (last ∷ ends)) (last ∷ []) trimmed room' in
        rw (skip_blanks-append gap last ends pad solid, line)
          (ap
              (λ r.
                r >>= λ a. strcpy value_size (trim_end (last ∷ ends)) >>= λ v. done (setting a v))
              stored
            ∙ ap (λ r. r >>= λ v. done (setting name v)) stored')
    go (c ∷ s) (solid, ne) room' trimmed =
        let line : (c == b'\n') ≡ false = ground arith in
        let stored = strcpy-fits name_size (cut_at_space name) name cut room in
        let stored' =
          strcpy-fits value_size (trim_end (c ∷ (s ++ last ∷ ends))) (c ∷ (s ++ last ∷ [])) trimmed
            room' in
        rw (skip_blanks-append gap c (s ++ last ∷ ends) pad solid, line)
          (ap
              (λ r. r >>= λ a.
                strcpy value_size (trim_end (c ∷ (s ++ last ∷ ends))) >>= λ v. done (setting a v))
              stored
            ∙ ap (λ r. r >>= λ v. done (setting name v)) stored')

-- A line with a name, a colon and a value, with blanks before each and spaces and line ends behind
-- the value, is read as that name and that value. The name has no colon and no space and is no
-- comment, the value starts with no blank and ends in neither space nor line end, and both fit.
pub parse_line_lem :
    (name_size value_size : ℕ) (blanks : Bytes) (n : ℕ) (name gap s : Bytes) (last : ℕ)
    (ends : Bytes)
    → ArePadding blanks
    → Starts (n ∷ name)
    → n ≢ b'#'
    → Lacks b':' (n ∷ name)
    → Lacks b' ' (n ∷ name)
    → length (n ∷ name) < name_size
    → ArePadding gap
    → Starts (s ++ last ∷ [])
    → is_end last ≡ false
    → AreEnds ends
    → length (s ++ last ∷ []) < value_size
    → parse_line name_size value_size (blanks ++ n ∷ (name ++ b':' ∷ (gap ++ (s ++ last ∷ ends))))
      ≡ done (setting (n ∷ name) (s ++ last ∷ []))
unfolding parse_line
parse_line_lem name_size value_size blanks n name gap s last ends pad (solid, ne) no_comment
      no_colon no_space room pad' starts e h room' =
    let line : (n == b'\n') ≡ false = ground arith in
    let mark : (n == b'#') ≡ false = ground arith in
    let rest = gap ++ (s ++ last ∷ ends) in
    rw
      (
        skip_blanks-append blanks n (name ++ b':' ∷ rest) pad solid,
        line,
        mark,
        split_at-append b':' (n ∷ name) rest no_colon,
      )
      (parse_value-setting name_size value_size (n ∷ name) s last gap ends no_space room pad' starts
        e h room')
