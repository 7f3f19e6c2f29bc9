-- ===== src/Links/Words.antt =====
-- `scan_words` of main.c finds a reference in the text of a span.
use mangl.Prelude.{
  ℕ, suc, ◌+◌, ◌<◌, ◌≡◌, refl, sym, ap, subst, ◌∙◌, true, false, some, [], ◌∷◌, ◌++◌, arith, length,
  Bytes, length-append, append_assoc, append-nil,
}
use mangl.Run.{Returns}
use mangl.App.{Link, Platform}
use mangl.Links.{no_word, word_size, scan_words}
use mangl.Links.Sound.{FitsLinks, IsScanned}
use mangl.Links.Found.{
  ArePlain, IsName, IsBefore, reference, Some, LeadsTo, then_finds, plain_byte, before_finds,
  plain_finds, open_finds, close_finds,
}

-- A word, read from its start.
module _ (platform : Platform) (fits : FitsLinks platform) (i : ℕ) (line : Bytes)
    (name section after file : Bytes) (is_name : IsName name) (is_section : ArePlain section)
    (known : platform.database (reference name section) ≡ some file) where
  word_finds :
      (col : ℕ)
      → length (reference name section) < word_size
      → IsScanned line (col + length (reference name section)) after no_word
      → Returns
          (scan_words platform i col (reference name section ++ after) no_word)
          (Some (LeadsTo platform i col (reference name section) file))
  word_finds col l scanned = go name is_name refl
    where
      spelled :
          (n : Bytes) (c : ℕ)
          → c ∷ n ≡ name
          → reference name section ++ after ≡ c ∷ (n ++ (b'(' ∷ (section ++ (b')' ∷ after))))
      spelled n c e =
          append_assoc name (b'(' ∷ (section ++ b')' ∷ [])) after
          ∙ ap (λ s. name ++ (b'(' ∷ s)) (append_assoc section (b')' ∷ []) after)
          ∙ ap (λ s. s ++ (b'(' ∷ (section ++ (b')' ∷ after)))) (sym e)

      go :
          (n : Bytes)
          → IsName n
          → n ≡ name
          → Returns
              (scan_words platform i col (reference name section ++ after) no_word)
              (Some (LeadsTo platform i col (reference name section) file))
      go [] nothing e = absurd nothing
      go (c ∷ n) (bracket, plain, more) e =
          let word = reference name section in
          let Q = LeadsTo platform i col word file in
          let opened = name ++ b'(' ∷ [] in
          let full = opened ++ section in
          let sized : length word ≡ length name + (1 + (length section + 1)) =
            length-append name (b'(' ∷ (section ++ b')' ∷ []))
            ∙ ap (λ k. length name + suc k) (length-append section (b')' ∷ []))
            ∙ omega arith in
          let name_length : length name ≡ suc (length n) = ap length (sym e) in
          let opened_length = length-append name (b'(' ∷ []) in
          let full_length = length-append opened section in
          subst (λ s. Returns (scan_words platform i col s no_word) (Some Q)) (sym (spelled n c e))
            (then_finds platform fits i line Q col c _ no_word
              (record { current_word = c ∷ []; opening_paren = false })
              (plain_byte platform fits i line Q col c no_word plain bracket (omega arith))
              (plain_finds platform fits i line Q n _ (c ∷ []) name false (col + 1)
                (col + length name) more (omega arith) (omega (arith, sized, name_length)) e
                (omega (arith, name_length))
                (open_finds platform fits i line Q _ name (col + length name)
                  (omega (arith, name_length)) (omega (arith, sized))
                  (plain_finds platform fits i line Q section _ opened full true
                    (col + length name + 1) (col + length name + 1 + length section) is_section
                    (omega (arith, opened_length)) (omega (arith, sized, opened_length)) refl refl
                    (close_finds platform fits i line word file col known full after
                      (col + length name + 1 + length section)
                      (append_assoc opened section (b')' ∷ [])
                        ∙ append_assoc name (b'(' ∷ []) (section ++ b')' ∷ []))
                      (omega (arith, sized)) (omega (arith, full_length, opened_length)) l
                      (let end : col + length word ≡ col + length name + 1 + length section + 1 =
                          omega (arith, sized) in
                        subst (λ k. IsScanned line k after no_word) end scanned))))))

  -- A word of a text.
  pub text_finds :
      (before : Bytes)
      → IsBefore before
      → before ++ (reference name section ++ after) ≡ line
      → length line < word_size
      → Returns
          (scan_words platform i 0 line no_word)
          (Some (LeadsTo platform i (length before) (reference name section) file))
  text_finds before is_before e l =
      subst
        (λ s.
          Returns (scan_words platform i 0 s no_word)
            (Some (LeadsTo platform i (length before) (reference name section) file)))
        e (from before is_before e)
    where
      reach :
          (before : Bytes)
          → IsBefore before
          → before ++ (reference name section ++ after) ≡ line
          → (Q : Link → Type 0)
          → Returns
              (scan_words platform i (length before) (reference name section ++ after) no_word)
              (Some Q)
          → length line ≡ length before + (length (reference name section) + length after)
          → Returns
              (scan_words platform i 0 (before ++ (reference name section ++ after)) no_word)
              (Some Q)
      reach [] is_before e Q here whole = here
      reach (c ∷ before) is_before e Q here whole =
          let rest = reference name section ++ after in
          let n = length-append (c ∷ before) rest in
          let len : length (c ∷ before ++ rest) ≡ length line = ap length e in
          before_finds platform fits i line Q before rest c 0 no_word is_before
            ([], e, refl, omega (arith, len), tt)
            (let z : length (c ∷ before) ≡ 0 + length (c ∷ before) = omega arith in
              subst (λ k. Returns (scan_words platform i k rest no_word) (Some Q)) z here)

      from :
          (before : Bytes)
          → IsBefore before
          → before ++ (reference name section ++ after) ≡ line
          → Returns
              (scan_words platform i 0 (before ++ (reference name section ++ after)) no_word)
              (Some (LeadsTo platform i (length before) (reference name section) file))
      from before is_before e =
          let word = reference name section in
          let whole : length line ≡ length before + (length word + length after) =
            ap length (sym e)
            ∙ length-append before (word ++ after)
            ∙ ap (λ k. length before + k) (length-append word after) in
          let here : Returns (scan_words platform i (length before) (word ++ after) no_word)
              (Some (LeadsTo platform i (length before) word file)) =
            word_finds (length before) (omega (arith, whole)) (
              before ++ word,
              ap (λ s. s ++ after) (append-nil (before ++ word))
                  ∙ append_assoc before word after
                  ∙ e,
              omega (arith, length-append before word),
              omega (arith, whole),
              tt,
            ) in
          reach before is_before e (LeadsTo platform i (length before) word file) here whole
