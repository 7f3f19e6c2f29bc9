-- ===== src/Links/Found.antt =====
-- `find_links` of main.c finds every reference to a page of the database: a name with a section in
-- parentheses, which stands at the start of a span or behind a blank or a comma.
use mangl.Prelude.{
  ℕ, suc, ◌+◌, ◌-◌, ◌<◌, ◌≡◌, refl, sym, ap, subst, ◌∙◌, Bool, true, false, ◌&&◌, ◌⊎◌, inl, inr,
  some, List, [], ◌∷◌, ◌++◌, arith, ltb, ◌==◌, length, Bytes, pos, ◌+ℤ◌, ◌*ℤ◌, value_or,
  length-append, append_assoc, append-nil, lt→ltb,
}
use mangl.Run.{done, ◌>>=◌, Returns, Returns-bind}
use mangl.App.{Link, Platform}
use mangl.Links.{
  Word, no_word, word_size, is_separator, is_bracket, complete_word, word_byte, scan_words,
}
use mangl.Links.Sound.{FitsLinks, AreLinks, IsScanned, word_byte-IsScanned, scan_words-AreLinks}

-- The byte neither ends a word nor is a parenthesis.
abbrev pub IsPlain : ℕ → Type 0
IsPlain c = (is_separator c ≡ false) × ((c == b'(') ≡ false) × ((c == b')') ≡ false)

abbrev pub ArePlain : Bytes → Type 0
ArePlain [] = Unit {0}
ArePlain (c ∷ s) = IsPlain c × ArePlain s

-- A plain name that does not start with `|`.
abbrev pub IsName : Bytes → Type 0
IsName [] = ⊥
IsName (c ∷ s) = (is_bracket c ≡ false) × IsPlain c × ArePlain s

-- What stands before a word: nothing, or a text with a blank or a comma at its end.
abbrev pub IsBefore : Bytes → Type 0
IsBefore [] = Unit {0}
IsBefore (c ∷ []) = is_separator c ≡ true
IsBefore (c ∷ d ∷ s) = IsBefore (d ∷ s)

-- `name(section)`
abbrev pub reference : Bytes → Bytes → Bytes
reference name section = name ++ (b'(' ∷ (section ++ b')' ∷ []))

abbrev pub Some : (Link → Type 0) → List Link → Type 0
Some P [] = ⊥
Some P (l ∷ ls) = P l ⊎ Some P ls

pub Some-left : (P : Link → Type 0) (ls ks : List Link) → Some P ls → Some P (ls ++ ks)
Some-left P [] ks h = absurd h
Some-left P (l ∷ ls) ks (inl h) = inl h
Some-left P (l ∷ ls) ks (inr h) = inr (Some-left P ls ks h)

pub Some-right : (P : Link → Type 0) (ls ks : List Link) → Some P ks → Some P (ls ++ ks)
Some-right P [] ks h = h
Some-right P (l ∷ ls) ks h = inr (Some-right P ls ks h)

-- The link covers `word` at column `col` of line `i`, and leads to the file and its directory.
abbrev pub LeadsTo : Platform → ℕ → ℕ → Bytes → Bytes → Link → Type 0
LeadsTo platform i col word file l =
    (l.link ≡ file)
    × (l.pwd ≡ value_or (platform.database_pwd word) [])
    × (l.document_rectangle.x ≡ pos col *ℤ platform.character_width)
    × (l.document_rectangle.x2
        ≡ pos col *ℤ platform.character_width +ℤ pos (length word) *ℤ platform.character_width)
    × (l.document_rectangle.y ≡ pos i *ℤ platform.line_advance)
    × (l.document_rectangle.y2 ≡ pos i *ℤ platform.line_advance +ℤ platform.line_height)

module _ (platform : Platform) (fits : FitsLinks platform) (i : ℕ) (line : Bytes)
    (P : Link → Type 0) where
  -- One byte that only changes the word in hand.
  pub then_finds :
      (col c : ℕ) (s : Bytes) (w w' : Word)
      → word_byte platform i col c w ≡ done (w', [])
      → Returns (scan_words platform i (col + 1) s w') (Some P)
      → Returns (scan_words platform i col (c ∷ s) w) (Some P)
  unfolding scan_words
  then_finds col c s w w' e h =
      subst
        (λ r.
          Returns
            (r >>= λ q. scan_words platform i (col + 1) s q.0 >>= λ links. done (q.1 ++ links))
            (Some P))
        (sym e)
        (Returns-bind (scan_words platform i (col + 1) s w') _ (Some P) (Some P) h
          (λ links found. found))

  pub plain_byte :
      (col c : ℕ) (w : Word)
      → IsPlain c
      → (length w.current_word == 0 && is_bracket c) ≡ false
      → length w.current_word < word_size
      → word_byte platform i col c w
        ≡ done (record w { current_word = w.current_word ++ c ∷ [] }, [])
  unfolding word_byte
  plain_byte col c w (sep, open_paren, close_paren) start l =
      let short : ltb (length w.current_word) word_size ≡ true = ground arith in
      rw (sep, start, short, open_paren, close_paren) refl

  -- A separator leads to the start of a word, whatever stands before it.
  pub before_finds :
      (before rest : Bytes) (c col : ℕ) (w : Word)
      → IsBefore (c ∷ before)
      → IsScanned line col (c ∷ before ++ rest) w
      → Returns (scan_words platform i (col + length (c ∷ before)) rest no_word) (Some P)
      → Returns (scan_words platform i col (c ∷ before ++ rest) w) (Some P)
  unfolding scan_words
  before_finds [] rest c col w sep scanned h =
      then_finds col c rest w no_word (separator col c w sep) h
    where
      separator :
          (col c : ℕ) (w : Word)
          → is_separator c ≡ true
          → word_byte platform i col c w ≡ done (no_word, [])
      separator col c w e = unfold word_byte in rw e refl
  before_finds (d ∷ before) rest c col w sep scanned h =
      let next : col + suc (suc (length before)) ≡ col + 1 + suc (length before) = omega arith in
      Returns-bind (word_byte platform i col c w) _
        (λ r. IsScanned line (col + 1) (d ∷ before ++ rest) r.0 × AreLinks platform i line r.1) _
        (word_byte-IsScanned platform fits i line col c (d ∷ before ++ rest) w scanned)
        (λ r (scanned', good).
          Returns-bind (scan_words platform i (col + 1) (d ∷ before ++ rest) r.0) _ (Some P) _
            (before_finds before rest d (col + 1) r.0 sep scanned'
              (subst (λ n. Returns (scan_words platform i n rest no_word) (Some P)) next h))
            (λ links found. Some-right P r.1 links found))

  pub plain_finds :
      (name s cur t : Bytes) (b : Bool) (col n : ℕ)
      → ArePlain name
      → 0 < length cur
      → length cur + length name < word_size
      → cur ++ name ≡ t
      → col + length name ≡ n
      → Returns
          (scan_words platform i n s (record { current_word = t; opening_paren = b }))
          (Some P)
      → Returns
          (scan_words platform i col (name ++ s) (record { current_word = cur; opening_paren = b }))
          (Some P)
  plain_finds [] s cur t b col n plain begun l e e' h =
      let stay : n ≡ col = omega (arith, e') in
      subst
        (λ k.
          Returns (scan_words platform i k s (record { current_word = cur; opening_paren = b }))
            (Some P))
        stay
        (subst
          (λ u.
            Returns (scan_words platform i n s (record { current_word = u; opening_paren = b }))
              (Some P))
          (sym e ∙ append-nil cur) h)
  plain_finds (c ∷ name) s cur t b col n (plain, more) begun l e e' h =
      let longer = length-append cur (c ∷ []) in
      then_finds col c (name ++ s) (record { current_word = cur; opening_paren = b })
        (record { current_word = cur ++ c ∷ []; opening_paren = b })
        (plain_byte col c (record { current_word = cur; opening_paren = b }) plain
          (started cur c begun) (omega arith))
        (plain_finds name s (cur ++ c ∷ []) t b (col + 1) n more (omega (arith, longer))
          (omega (arith, longer)) (append_assoc cur (c ∷ []) name ∙ e) (omega (arith, e')) h)
    where
      started : (cur : Bytes) (c : ℕ) → 0 < length cur → (length cur == 0 && is_bracket c) ≡ false
      started cur c p = let e : (length cur == 0) ≡ false = ground arith in rw e refl

  -- The opening parenthesis.
  pub open_finds :
      (s cur : Bytes) (col : ℕ)
      → 0 < length cur
      → length cur < word_size
      → Returns
          (scan_words platform i
            (col + 1)
            s
            (record { current_word = cur ++ b'(' ∷ []; opening_paren = true }))
          (Some P)
      → Returns
          (scan_words platform i col
            (b'(' ∷ s)
            (record { current_word = cur; opening_paren = false }))
          (Some P)
  open_finds s cur col p l h =
      then_finds col b'(' s (record { current_word = cur; opening_paren = false })
        (record { current_word = cur ++ b'(' ∷ []; opening_paren = true }) (opens cur p l) h
    where
      opens :
          (cur : Bytes)
          → 0 < length cur
          → length cur < word_size
          → word_byte platform i col b'(' (record { current_word = cur; opening_paren = false })
            ≡ done (record { current_word = cur ++ b'(' ∷ []; opening_paren = true }, [])
      opens cur p l =
          unfold word_byte in
          let begun : (length cur == 0) ≡ false = ground arith in
          let short : ltb (length cur) word_size ≡ true = ground arith in rw (begun, short) refl

module _ (platform : Platform) (fits : FitsLinks platform) (i : ℕ) (line word file : Bytes)
    (start : ℕ) (known : platform.database word ≡ some file) where
  complete_word-LeadsTo :
      (col : ℕ)
      → col + 1 ≡ start + length word
      → length word < word_size
      → Returns (complete_word platform i col word) (Some (LeadsTo platform i start word file))
  unfolding complete_word
  complete_word-LeadsTo col e l =
      let short : ltb (length word) word_size ≡ true = lt→ltb (length word) word_size l in
      let short_file : ltb (length file) 1024 ≡ true =
        lt→ltb (length file) 1024 (fits.0 word file known) in
      let short_pwd : ltb (length (value_or (platform.database_pwd word) [])) 1024 ≡ true =
        lt→ltb _ 1024 (fits.1 word) in
      let from : col + 1 - length word ≡ start = omega arith in
      rw (short, known, short_file, short_pwd, from) (inl (refl, refl, refl, refl, refl, refl))

  -- The closing parenthesis completes the word.
  pub close_finds :
      (cur after : Bytes) (col : ℕ)
      → cur ++ b')' ∷ [] ≡ word
      → col + 1 ≡ start + length word
      → 0 < length cur
      → length word < word_size
      → IsScanned line (col + 1) after no_word
      → Returns
          (scan_words platform i col
            (b')' ∷ after)
            (record { current_word = cur; opening_paren = true }))
          (Some (LeadsTo platform i start word file))
  unfolding scan_words
  close_finds cur after col e e' p l scanned =
      let longer = length-append cur (b')' ∷ []) in
      let len : length (cur ++ b')' ∷ []) ≡ length word = ap length e in
      Returns-bind
        (word_byte platform i col b')' (record { current_word = cur; opening_paren = true })) _
        (λ r. (r.0 ≡ no_word) × Some (LeadsTo platform i start word file) r.1) _
        (closes cur p (omega (arith, longer, len)) e)
        (λ r (nothing, found).
          Returns-bind (scan_words platform i (col + 1) after r.0) _ (AreLinks platform i line) _
            (scan_words-AreLinks platform fits i line (col + 1) after r.0
              (subst (IsScanned line (col + 1) after) (sym nothing) scanned))
            (λ links good. Some-left (LeadsTo platform i start word file) r.1 links found))
    where
      closes :
          (cur : Bytes)
          → 0 < length cur
          → length cur < word_size
          → cur ++ b')' ∷ [] ≡ word
          → Returns
              (word_byte platform i col b')' (record { current_word = cur; opening_paren = true }))
              (λ r. (r.0 ≡ no_word) × Some (LeadsTo platform i start word file) r.1)
      closes cur p l' same =
          unfold word_byte in
          let begun : (length cur == 0) ≡ false = ground arith in
          let short : ltb (length cur) word_size ≡ true = ground arith in
          rw (begun, short, same)
            (Returns-bind (complete_word platform i col word) _
              (Some (LeadsTo platform i start word file)) _ (complete_word-LeadsTo col e' l)
              (λ links found. (refl, found)))
