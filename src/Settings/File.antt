-- ===== src/Settings/File.antt =====
-- A file that is written for some settings sets them, in their order.
use mangl.Prelude.{
  ℕ, ◌-◌, ◌<◌, ◌≡◌, ◌≢◌, refl, sym, ap, ◌∙◌, Bool, true, false, ◌||◌, Option, none, some, List, [],
  ◌∷◌, ◌++◌, arith, ◌==◌, ltb, lt→ltb, if◌then◌else◌, map, length, Bytes, append_assoc,
  length-append, value_or,
}
use mangl.Text.{Lacks, codes, same_text}
use mangl.Run.{Run, done, fault, ◌>>=◌}
use mangl.Settings.{setting, is_end, parse_line}
use mangl.Settings.Line.{Starts, parse_line_lem}
use mangl.Settings.Load.{
  Settings, atoi, color_index, color_at, set_setting, set_parsed, load_lines, lines_from,
  settings_file, load_settings,
}

-- A setting: the first byte and the rest of its name, and its value up to its last byte, and that.
pub record Entry : Type 0 where
  pub initial : ℕ
  pub name : Bytes
  pub body : Bytes
  pub last : ℕ

abbrev pub name_of : Entry → Bytes
name_of e = e.initial ∷ e.name

abbrev pub value_of : Entry → Bytes
value_of e = e.body ++ e.last ∷ []

-- The name has no colon, no blank and no line end and starts no comment, the value starts with no
-- blank and no line end, ends with no blank and has no line end, and both fit their buffers.
pub record IsEntry (e : Entry) : Type 0 where
  pub starts : Starts (name_of e)
  pub no_comment : e.initial ≢ b'#'
  pub no_colon : Lacks b':' (name_of e)
  pub no_blank : Lacks b' ' (name_of e)
  pub name_line : Lacks b'\n' (name_of e)
  pub name_fits : length (name_of e) < 256
  pub value_starts : Starts (value_of e)
  pub value_ends : is_end e.last ≡ false
  pub value_line : Lacks b'\n' (value_of e)
  pub value_fits : length (value_of e) < 256

-- `name: value`
abbrev pub line_of : Entry → Bytes
line_of e = name_of e ++ b':' ∷ b' ' ∷ value_of e

abbrev pub print : List Entry → Bytes
print [] = []
print (e ∷ es) = line_of e ++ b'\n' ∷ print es

abbrev pub AreEntries : List Entry → Type 0
AreEntries [] = Unit {0}
AreEntries (e ∷ es) = IsEntry e × AreEntries es

Lacks-append : (c : ℕ) (s t : Bytes) → Lacks c s → Lacks c t → Lacks c (s ++ t)
Lacks-append c [] t h k = k
Lacks-append c (d ∷ s) t (ne, h) k = (ne, Lacks-append c s t h k)

-- `fgets` gives a line that fits.
lines_from-append :
    (left : ℕ) (line s rest : Bytes)
    → Lacks b'\n' s
    → length s < left
    → lines_from left line (s ++ b'\n' ∷ rest)
      ≡ (line ++ (s ++ b'\n' ∷ [])) ∷ lines_from 1023 [] rest
unfolding lines_from
lines_from-append left [] [] rest h l = refl
lines_from-append left (d ∷ line) [] rest h l = refl
lines_from-append left [] (c ∷ s) rest (ne, h) l =
    let go_on : (c == b'\n' || left == 1) ≡ false = ground arith in
    rw go_on (lines_from-append (left - 1) (c ∷ []) s rest h (omega arith))
lines_from-append left (d ∷ line) (c ∷ s) rest (ne, h) l =
    let go_on : (c == b'\n' || left == 1) ≡ false = ground arith in
    rw go_on (
      lines_from-append (left - 1) (d ∷ line ++ c ∷ []) s rest h (omega arith)
      ∙ ap (λ t. (d ∷ t) ∷ lines_from 1023 [] rest) (append_assoc line (c ∷ []) (s ++ b'\n' ∷ [])))

parse_line-line_of :
    (e : Entry)
    → IsEntry e
    → parse_line 256 256 (line_of e ++ b'\n' ∷ []) ≡ done (setting (name_of e) (value_of e))
parse_line-line_of e h =
    ap (parse_line 256 256) (
      append_assoc (name_of e) (b':' ∷ b' ' ∷ value_of e) (b'\n' ∷ [])
      ∙ ap (λ t. name_of e ++ b':' ∷ b' ' ∷ t) (append_assoc e.body (e.last ∷ []) (b'\n' ∷ [])))
    ∙ parse_line_lem 256 256 [] e.initial e.name (b' ' ∷ []) e.body e.last (b'\n' ∷ []) tt h.starts
        h.no_comment h.no_colon h.no_blank h.name_fits (refl, tt) h.value_starts h.value_ends
        (refl, tt) h.value_fits

-- The row of `color_table` that each name of a colour stands for.
abbrev pub color_names : List (Bytes × ℕ)
color_names =
    (codes "color_background", 0)
    ∷ (codes "color_foreground", 1)
    ∷ (codes "color_bold", 2)
    ∷ (codes "color_italic", 3)
    ∷ (codes "color_dim", 4)
    ∷ (codes "color_link", 8)
    ∷ (codes "color_scrollbar_background", 5)
    ∷ (codes "color_scrollbar_thumb", 6)
    ∷ (codes "color_scrollbar_thumb_hover", 7)
    ∷ (codes "color_gui_1", 9)
    ∷ (codes "color_gui_2", 10)
    ∷ (codes "color_error", 11)
    ∷ (codes "color_searches", 12)
    ∷ (codes "color_search_selected", 13)
    ∷ []

-- The value of the first row with the name.
abbrev pub lookup : List (Bytes × ℕ) → Bytes → Option ℕ
lookup [] name = none
lookup ((key, v) ∷ rows) name =
    let rest = lookup rows name in if same_text name key then some v else rest

color_index-lookup : (name : Bytes) → color_index name ≡ lookup color_names name
unfolding color_index
color_index-lookup name = refl

module _ {D : Type 0} (strtod : Bytes → Option D) where
  -- What the value of a setting does to the settings.
  abbrev pub Effect : Type 0
  Effect = Bytes → Settings D → Settings D

  abbrev pub color_row : Bytes × ℕ → Bytes × Effect
  color_row (name, i) = (name, λ value s. record s { color_table = color_at s.color_table i value })

  -- The settings by their names, with the field that each sets. A number that `strtod` cannot read
  -- sets nothing.
  abbrev pub fields : List (Bytes × Effect)
  fields =
      (codes "font", λ value s. record s { font_file = value })
      ∷ (codes "font_size", λ value s. record s { font_size = atoi value })
      ∷ (codes "gui_scale", λ value s. record s { gui_scale = value_or (strtod value) s.gui_scale })
      ∷ (
        codes "line_spacing",
        λ value s. record s { line_spacing = value_or (strtod value) s.line_spacing },
      )
      ∷ (
        codes "line_length",
        λ value s. record s { line_length = atoi value; current_line_length = atoi value },
      )
      ∷ (codes "initial_window_rows", λ value s. record s { initial_window_rows = atoi value })
      ∷ map color_row color_names

  -- The effect of the first row with the name, and none for another name.
  abbrev pub assign : List (Bytes × Effect) → Bytes → Effect
  assign [] name value s = s
  assign ((key, effect) ∷ rows) name value s =
      let rest = assign rows name value s in if same_text name key then effect value s else rest

  -- The settings one after the other.
  unfoldable pub set_all : List Entry → Settings D → Settings D
  set_all [] s = s
  set_all (e ∷ es) s = set_all es (assign fields (name_of e) (value_of e) s)

  assign-colors :
      (rows : List (Bytes × ℕ)) (name value : Bytes) (s : Settings D)
      → (elim (lookup rows name) [
        | none ↦ s
        | some i ↦ record s { color_table = color_at s.color_table i value }
      ])
        ≡ assign (map color_row rows) name value s
  assign-colors [] name value s = refl
  assign-colors ((key, i) ∷ rows) name value s =
      go (same_text name key) (assign-colors rows name value s)
    where
      go :
          (b : Bool)
          → (elim (lookup rows name) [
            | none ↦ s
            | some j ↦ record s { color_table = color_at s.color_table j value }
          ])
            ≡ assign (map color_row rows) name value s
          → (elim (if b then some i else lookup rows name) [
            | none ↦ s
            | some j ↦ record s { color_table = color_at s.color_table j value }
          ])
            ≡ (if b
                then record s { color_table = color_at s.color_table i value }
                else assign (map color_row rows) name value s)
      go true ih = refl
      go false ih = ih

  -- One line of the cascade that sets something at once.
  else_done :
      (b : Bool) (x y : Settings D) {r : Run (Settings D)}
      → r ≡ done y
      → (if b then done x else r) ≡ done (if b then x else y)
  else_done true x y e = refl
  else_done false x y e = e

  number :
      (o : Option D) (s : Settings D) (old : D) (put : D → Settings D)
      → put old ≡ s
      → (elim o [ none ↦ s | some val ↦ put val ]) ≡ put (value_or o old)
  number none s old put e = sym e
  number (some val) s old put e = refl

  set_setting-assign :
      (s : Settings D) (name value : Bytes)
      → length value < 256
      → set_setting strtod s name value ≡ done (assign fields name value s)
  unfolding set_setting
  set_setting-assign s name value l =
      let fits : ltb (length value) 512 ≡ true = lt→ltb (length value) 512 (omega arith) in
      ap (λ r. if same_text name (codes "font") then r else rest)
        (ap
          (λ b. (if b then done value else fault) >>= λ file. done (record s { font_file = file }))
          fits)
      ∙ else_done (same_text name (codes "font")) _ _ (
          else_done (same_text name (codes "font_size")) _ _ (
            numeric (same_text name (codes "gui_scale")) (λ x. record s { gui_scale = x })
              s.gui_scale refl
              (numeric (same_text name (codes "line_spacing")) (λ x. record s { line_spacing = x })
                s.line_spacing refl
                (else_done (same_text name (codes "line_length")) _ _ (
                  else_done (same_text name (codes "initial_window_rows")) _ _ (
                    ap done (
                      ap
                        (λ o. elim o [
                          | none ↦ s
                          | some i ↦ record s { color_table = color_at s.color_table i value }
                        ])
                        (color_index-lookup name)
                      ∙ assign-colors color_names name value s)))))))
    where
      rest : Run (Settings D)
      rest =
          if same_text name (codes "font_size")
          then done (record s { font_size = atoi value })
          else if same_text name (codes "gui_scale")
          then done (elim (strtod value) [ none ↦ s | some val ↦ record s { gui_scale = val } ])
          else if same_text name (codes "line_spacing")
          then done (elim (strtod value) [ none ↦ s | some val ↦ record s { line_spacing = val } ])
          else if same_text name (codes "line_length")
          then done (record s { line_length = atoi value; current_line_length = atoi value })
          else if same_text name (codes "initial_window_rows")
          then done (record s { initial_window_rows = atoi value })
          else done (elim (color_index name) [
            | none ↦ s
            | some i ↦ record s { color_table = color_at s.color_table i value }
          ])

      numeric :
          (b : Bool) (put : D → Settings D) (old : D)
          → put old ≡ s
          → {y : Settings D} {r : Run (Settings D)} → r ≡ done y
          → (if b then done (elim (strtod value) [ none ↦ s | some val ↦ put val ]) else r)
            ≡ done (if b then put (value_or (strtod value) old) else y)
      numeric true put old same e = ap done (number (strtod value) s old put same)
      numeric false put old same e = e

  load_lines-print :
      (es : List Entry) (s : Settings D)
      → AreEntries es
      → load_lines strtod (lines_from 1023 [] (print es)) s ≡ done (set_all es s)
  unfolding set_all load_lines lines_from
  load_lines-print [] s h = refl
  load_lines-print (e ∷ es) s (h, hs) =
      let short : length (line_of e) < 1023 =
        omega (
          arith,
          h.name_fits,
          h.value_fits,
          length-append (name_of e) (b':' ∷ b' ' ∷ value_of e),
        ) in
      let no_line : Lacks b'\n' (line_of e) =
        Lacks-append b'\n' (name_of e) (b':' ∷ b' ' ∷ value_of e) h.name_line
          (λ x. omega arith, (λ x. omega arith, h.value_line)) in
      ap (λ l. load_lines strtod l s)
        (lines_from-append 1023 [] (line_of e) (print es) no_line short)
      ∙ ap
          (λ r.
            r >>= λ p. set_parsed strtod s p >>= load_lines strtod (lines_from 1023 [] (print es)))
          (parse_line-line_of e h)
      ∙ ap (λ r. r >>= load_lines strtod (lines_from 1023 [] (print es)))
          (set_setting-assign s (name_of e) (value_of e) h.value_fits)
      ∙ load_lines-print es (assign fields (name_of e) (value_of e) s) hs

  -- If the first settings file that can be opened holds lines `name: value` of well-formed settings,
  -- each of them short enough for its buffer, then `load_settings` ends without a fault, and each line
  -- in the order of the file sets the field of its name to its value: the font's file, its size, the two
  -- scales, the line length with the current one, the rows of the window, or its row of the table of
  -- colours. A line with another name, and a scale that is no number, sets nothing.
  pub load_settings-print :
      (fopen : Bytes → Option Bytes) (xdg_home home : Option Bytes) (es : List Entry)
      (s : Settings D)
      → AreEntries es
      → settings_file fopen xdg_home home ≡ some (print es)
      → load_settings strtod fopen xdg_home home s ≡ done (set_all es s)
  unfolding load_settings
  load_settings-print fopen xdg_home home es s h there =
      rw (load_settings, there) (load_lines-print es s h)
