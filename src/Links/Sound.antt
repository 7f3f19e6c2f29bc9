-- ===== src/Links/Sound.antt =====
-- The links that `find_links` finds in a line: each stands where its word stands, and it leads to
-- the file that the database has for the word.
use mangl.Prelude.{
  ℕ, ◌+◌, ◌-◌, ◌<◌, ◌≡◌, refl, sym, ap, subst, ◌∙◌, Bool, true, false, ◌&&◌, ◌⊎◌, inl, inr, some,
  List, [], ◌∷◌, ◌++◌, arith, ltb, ◌==◌, length, Bytes, Bool-cases, Option-cases, pos, ◌+ℤ◌, ◌*ℤ◌,
  value_or, append-nil, length-append,
}
use mangl.Run.{Returns, Returns-bind}
use mangl.App.{Link, Platform}
use mangl.Links.{
  Word, no_word, word_size, is_separator, is_bracket, complete_word, word_byte, scan_words,
}

-- Every path of the databases fits into a link.
abbrev pub FitsLinks : Platform → Type 0
FitsLinks platform =
    ((word file : Bytes) → platform.database word ≡ some file → length file < 1024)
    × ((word : Bytes) → length (value_or (platform.database_pwd word) []) < 1024)

-- The byte stands in the string.
abbrev pub Has : ℕ → Bytes → Type 0
Has c [] = ⊥
Has c (d ∷ s) = (d ≡ c) ⊎ Has c s

Has-append : (c : ℕ) (s t : Bytes) → Has c s → Has c (s ++ t)
Has-append c [] t h = absurd h
Has-append c (d ∷ s) t (inl e) = inl e
Has-append c (d ∷ s) t (inr h) = inr (Has-append c s t h)

Has-last : (c : ℕ) (s : Bytes) → Has c (s ++ c ∷ [])
Has-last c [] = inl refl
Has-last c (d ∷ s) = inr (Has-last c s)

-- The link stands in the line where its word does, the word has an opening parenthesis and ends with a
-- closing one, and the database has its file for the word.
pub record IsLink (platform : Platform) (i : ℕ) (line : Bytes) (l : Link) : Type 0 where
  pub before : Bytes
  pub word : Bytes
  pub after : Bytes
  pub stands : (before ++ word) ++ after ≡ line
  pub opened : Has b'(' word
  pub closed : (body : Bytes) × (word ≡ body ++ b')' ∷ [])
  pub known : platform.database word ≡ some l.link
  pub directory : l.pwd ≡ value_or (platform.database_pwd word) []
  pub left : l.document_rectangle.x ≡ pos (length before) *ℤ platform.character_width
  pub right :
      l.document_rectangle.x2
      ≡ l.document_rectangle.x +ℤ pos (length word) *ℤ platform.character_width
  pub row : l.document_rectangle.y ≡ pos i *ℤ platform.line_advance

abbrev pub Each : (Link → Type 0) → List Link → Type 0
Each P [] = Unit {0}
Each P (l ∷ ls) = P l × Each P ls

pub Each-append :
    (P : Link → Type 0) (ls ks : List Link) → Each P ls → Each P ks → Each P (ls ++ ks)
Each-append P [] ks h k = k
Each-append P (l ∷ ls) ks (h, hs) k = (h, Each-append P ls ks hs k)

pub Each-weaken :
    (P Q : Link → Type 0) → ((l : Link) → P l → Q l) → (ls : List Link) → Each P ls → Each Q ls
Each-weaken P Q f [] h = tt
Each-weaken P Q f (l ∷ ls) (h, hs) = (f l h, Each-weaken P Q f ls hs)

abbrev pub AreLinks : Platform → ℕ → Bytes → List Link → Type 0
AreLinks platform i line = Each (IsLink platform i line)

-- With the flag set the word has an opening parenthesis.
abbrev pub IsOpened : Bool → Bytes → Type 0
IsOpened true word = Has b'(' word
IsOpened false word = Unit {0}

pub IsOpened-append : (b : Bool) (s t : Bytes) → IsOpened b s → IsOpened b (s ++ t)
IsOpened-append true s t h = Has-append b'(' s t h
IsOpened-append false s t h = tt

IsOpened-of : (b : Bool) (s : Bytes) → b ≡ true → IsOpened b s → Has b'(' s
IsOpened-of true s e h = h
IsOpened-of false s e h = absurd (cc)

and_right : (p q : Bool) → p && q ≡ true → q ≡ true
and_right true q e = e
and_right false q e = absurd (cc)

-- The word in hand is what the text before the next byte ends with.
abbrev pub IsScanned : Bytes → ℕ → Bytes → Word → Type 0
IsScanned line col rest w =
    (b : Bytes) × ((b ++ w.current_word) ++ rest ≡ line)
    × (col ≡ length b + length w.current_word)
    × (length w.current_word + length rest < word_size)
    × IsOpened w.opening_paren w.current_word

snoc : (b w : Bytes) (c : ℕ) (rest : Bytes) → (b ++ w) ++ c ∷ rest ≡ (b ++ (w ++ c ∷ [])) ++ rest
snoc [] [] c rest = refl
snoc [] (x ∷ w) c rest = ap (λ s. x ∷ s) (snoc [] w c rest)
snoc (x ∷ b) w c rest = ap (λ s. x ∷ s) (snoc b w c rest)

is_nil : (s : Bytes) → (length s == 0) ≡ true → s ≡ []
is_nil [] e = refl
is_nil (x ∷ s) e = absurd (ground arith)

eq_of_test : (a b : ℕ) → (a == b) ≡ true → b ≡ a
eq_of_test a b e = ground arith

and_left : (p q : Bool) → p && q ≡ true → p ≡ true
and_left true q e = refl
and_left false q e = e

-- The next byte joins the word in hand.
pub joined :
    (line : Bytes) (col c : ℕ) (rest : Bytes) (w : Word) (paren : Bool)
    → IsScanned line col (c ∷ rest) w
    → IsOpened paren (w.current_word ++ c ∷ [])
    → IsScanned line
        (col + 1)
        rest
        (record { current_word = w.current_word ++ c ∷ []; opening_paren = paren })
joined line col c rest w paren (b, at, here, room, _) opened =
    let n = length-append w.current_word (c ∷ []) in
    (b, sym (snoc b w.current_word c rest) ∙ at, omega (arith, n), omega (arith, n), opened)

-- The next byte ends the word in hand.
ended :
    (line : Bytes) (col c : ℕ) (rest : Bytes) (w : Word)
    → IsScanned line col (c ∷ rest) w
    → IsScanned line (col + 1) rest (record { current_word = []; opening_paren = false })
ended line col c rest w (b, at, here, room, opened) =
    let n = length-append w.current_word (c ∷ []) in
    let m = length-append b (w.current_word ++ c ∷ []) in
    (
      b ++ (w.current_word ++ c ∷ []),
      ap (λ s. s ++ rest) (append-nil (b ++ (w.current_word ++ c ∷ [])))
          ∙ sym (snoc b w.current_word c rest)
          ∙ at,
      omega (arith, n, m),
      omega arith,
      tt,
    )

module _ (platform : Platform) (fits : FitsLinks platform) (i : ℕ) (line : Bytes) where
  complete_word-AreLinks :
      (b word rest : Bytes) (col : ℕ)
      → (b ++ word) ++ rest ≡ line
      → col + 1 ≡ length b + length word
      → length word < word_size
      → Has b'(' word
      → (body : Bytes) × (word ≡ body ++ b')' ∷ [])
      → Returns (complete_word platform i col word) (AreLinks platform i line)
  unfolding complete_word
  complete_word-AreLinks b word rest col at here room opened closed =
      let short : ltb (length word) word_size ≡ true = ground arith in
      elim (Option-cases (platform.database word)) [
        | inl e ↦ rw (short, e) tt
        | inr (file, e) ↦
            let short_file : ltb (length file) 1024 ≡ true = ground (arith, fits.0 word file e) in
            let short_pwd : ltb (length (value_or (platform.database_pwd word) [])) 1024 ≡ true =
              ground (arith, fits.1 word) in
            let start : col + 1 - length word ≡ length b = omega arith in
            rw (short, e, short_file, short_pwd, start)
              (
                record {
                  before = b;
                  word = word;
                  after = rest;
                  stands = at;
                  opened = opened;
                  closed = closed;
                  known = e;
                  directory = refl;
                  left = refl;
                  right = refl;
                  row = refl;
                },
                tt,
              )
      ]

  pub word_byte-IsScanned :
      (col c : ℕ) (rest : Bytes) (w : Word)
      → IsScanned line col (c ∷ rest) w
      → Returns
          (word_byte platform i col c w)
          (λ r. IsScanned line (col + 1) rest r.0 × AreLinks platform i line r.1)
  unfolding word_byte
  word_byte-IsScanned col c rest w scanned =
      let (b, at, here, room, opened) = scanned in
      let n = length-append w.current_word (c ∷ []) in
      elim (Bool-cases (is_separator c)) [
        | inl e ↦ rw e (ended line col c rest w scanned, tt)
        | inr e ↦ elim (Bool-cases (length w.current_word == 0 && is_bracket c)) [
          | inl h ↦
              let nil : w.current_word ≡ [] =
                is_nil w.current_word (and_left (length w.current_word == 0) (is_bracket c) h) in
              rw (e, h)
                (
                  subst
                      (λ s.
                        IsScanned line (col + 1) rest
                          (record { current_word = s; opening_paren = false }))
                      (sym nil) (ended line col c rest w scanned),
                  tt,
                )
          | inr h ↦
              let short : ltb (length w.current_word) word_size ≡ true = ground arith in
              elim (Bool-cases (c == b'(')) [
                | inl o ↦
                    let paren : Has b'(' (w.current_word ++ c ∷ []) =
                      subst (λ x. Has b'(' (w.current_word ++ x ∷ [])) (eq_of_test c b'(' o)
                        (Has-last b'(' w.current_word) in
                    rw (e, h, short, o) (joined line col c rest w true scanned paren, tt)
                | inr o ↦ elim (Bool-cases (c == b')' && w.opening_paren)) [
                  | inl k ↦
                      rw (e, h, short, o, k)
                        (Returns-bind (complete_word platform i col (w.current_word ++ c ∷ [])) _
                          (AreLinks platform i line) _
                          (complete_word-AreLinks b (w.current_word ++ c ∷ []) rest col
                            (sym (snoc b w.current_word c rest) ∙ at) (omega (arith, n))
                            (omega (arith, n))
                            (Has-append b'(' w.current_word (c ∷ []) (
                              IsOpened-of w.opening_paren w.current_word
                                (and_right (c == b')') w.opening_paren k) opened))
                            (
                              w.current_word,
                              ap (λ x. w.current_word ++ x ∷ [])
                                  (sym
                                    (eq_of_test c b')' (and_left (c == b')') w.opening_paren k))),
                            ))
                          (λ links good. (ended line col c rest w scanned, good)))
                  | inr k ↦
                      rw (e, h, short, o, k)
                        (
                          joined line col c rest w w.opening_paren scanned
                              (IsOpened-append w.opening_paren w.current_word (c ∷ []) opened),
                          tt,
                        )
                ]
              ]
        ]
      ]

  pub scan_words-AreLinks :
      (col : ℕ) (s : Bytes) (w : Word)
      → IsScanned line col s w
      → Returns (scan_words platform i col s w) (AreLinks platform i line)
  unfolding scan_words
  scan_words-AreLinks col [] w scanned = tt
  scan_words-AreLinks col (c ∷ s) w scanned =
      Returns-bind (word_byte platform i col c w) _
        (λ r. IsScanned line (col + 1) s r.0 × AreLinks platform i line r.1) _
        (word_byte-IsScanned col c s w scanned)
        (λ r (next, good).
          Returns-bind (scan_words platform i (col + 1) s r.0) _ (AreLinks platform i line) _
            (scan_words-AreLinks (col + 1) s r.0 next)
            (λ links more. Each-append (IsLink platform i line) r.1 links good more))

pub scan_words-Returns :
    (platform : Platform) (i : ℕ) (line : Bytes)
    → FitsLinks platform
    → length line < word_size
    → Returns (scan_words platform i 0 line no_word) (AreLinks platform i line)
scan_words-Returns platform i line fits short =
    scan_words-AreLinks platform fits i line 0 line no_word ([], refl, refl, omega arith, tt)
