-- ===== src/Links.antt =====
-- The links of a page: `find_links` of main.c, which reads each span of each line.
pub mod Sound
pub mod Page
pub mod Found
pub mod Words
pub mod Complete
mod Tests
use mangl.Prelude.{
  ℕ, ◌+◌, ◌-◌, Bool, true, false, ◌&&◌, ◌||◌, none, some, List, [], ◌∷◌, ◌++◌, ltb, ◌==◌,
  if◌then◌else◌, length, pos, ◌+ℤ◌, ◌*ℤ◌, Bytes, value_or,
}
use mangl.Run.{Run, done, fault, strcpy, ◌>>=◌}
use mangl.Document.{Line, c_string}
use mangl.App.{Recti, Link, Platform}
use mangl.PageSearch.{add_plain}

-- `current_word` up to `word_pos`, and `opening_paren`.
pub record Word : Type 0 where
  pub current_word : Bytes
  pub opening_paren : Bool

abbrev pub no_word : Word
no_word = record { current_word = []; opening_paren = false }

-- `ARRAY_SIZE(current_word)`
abbrev pub word_size : ℕ
word_size = 256

-- A blank or a comma ends a word.
abbrev pub is_separator : ℕ → Bool
is_separator c = c == b' ' || c == b',' || c == b'\t' || c == b'\n' || c == b'\r'

-- What cannot start a word.
abbrev pub is_bracket : ℕ → Bool
is_bracket c = c == b'(' || c == b')' || c == b'|'

module _ (platform : Platform) where
  -- The rectangle of a word that ends at column `col` of line `i`.
  abbrev pub word_recti : ℕ → ℕ → Bytes → Recti
  word_recti i col word =
      let x = pos (col + 1 - length word) *ℤ platform.character_width in
      let y = pos i *ℤ platform.line_advance in
      record {
        x = x;
        y = y;
        x2 = x +ℤ pos (length word) *ℤ platform.character_width;
        y2 = y +ℤ platform.line_height;
      }

  -- A complete word: a link, if the database has it. The byte after the word gets the NUL.
  unfoldable pub complete_word : ℕ → ℕ → Bytes → Run (List Link)
  complete_word i col word =
      if ltb (length word) word_size
      then elim (platform.database word) [
        | none ↦ done []
        | some man_file ↦ strcpy 1024 man_file >>= λ link.
            strcpy 1024 (value_or (platform.database_pwd word) []) >>= λ pwd. done (
              record {
                document_rectangle = word_recti i col word;
                highlight = false;
                link = link;
                pwd = pwd;
              }
              ∷ [])
      ]
      else fault

  -- One byte of the parser, at column `col`: the state after it and the link that it completes.
  unfoldable pub word_byte : ℕ → ℕ → ℕ → Word → Run (Word × List Link)
  word_byte i col c w =
      if is_separator c
      then done (no_word, [])
      else if length w.current_word == 0 && is_bracket c
      then done (record w { opening_paren = false }, [])
      else if ltb (length w.current_word) word_size
      then (if c == b'('
          then done (record { current_word = w.current_word ++ c ∷ []; opening_paren = true }, [])
          else if c == b')' && w.opening_paren
          then complete_word i col (w.current_word ++ c ∷ []) >>= (λ links. done (no_word, links))
          else done (record w { current_word = w.current_word ++ c ∷ [] }, []))
      else fault

  unfoldable pub scan_words : ℕ → ℕ → Bytes → Word → Run (List Link)
  scan_words i col [] w = done []
  scan_words i col (c ∷ s) w =
      word_byte i col c w >>= λ r. scan_words i (col + 1) s r.0 >>= λ links. done (r.1 ++ links)

  -- The spans of line `i`; each starts at the first column again.
  unfoldable pub find_line_links : ℕ → Line → Run (List Link)
  find_line_links i [] = done []
  find_line_links i (s ∷ l) =
      (if ltb 0 s.length_used
        then scan_words i 0 (add_plain [] (c_string s.buffer)) no_word
        else done [])
      >>= λ links. find_line_links i l >>= λ more. done (links ++ more)

  unfoldable pub find_links : List Line → ℕ → Run (List Link)
  find_links [] i = done []
  find_links (l ∷ ls) i =
      find_line_links i l >>= λ links. find_links ls (i + 1) >>= λ more. done (links ++ more)
