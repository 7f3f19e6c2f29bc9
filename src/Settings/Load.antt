-- ===== src/Settings/Load.antt =====
-- `parse_color` and `load_settings` of main.c: the settings that a file sets.
use mangl.Prelude.{
  ℕ, ◌+◌, ◌-◌, ◌*◌, ◌/◌, ◌%◌, ◌^◌, Bool, ◌||◌, ◌&&◌, Option, none, some, List, [], ◌∷◌, ◌++◌, leb,
  ◌==◌, if◌then◌else◌, get_elem?, set, ℤ, pos, ◌-ℤ◌, Bytes, value_or,
}
use mangl.Text.{codes, same_text}
use mangl.Run.{Run, done, strcpy, truncated, ◌>>=◌}
use mangl.Settings.{ParsedLine, setting, empty, comment, no_colon, parse_line}

-- A row of `color_table`, in 255ths.
pub record Rgb : Type 0 where
  pub red : ℕ
  pub green : ℕ
  pub blue : ℕ

-- The colours of the program itself.
abbrev pub default_colors : List Rgb
default_colors =
    record { red = 21; green = 21; blue = 21 }
    ∷ record { red = 253; green = 253; blue = 232 }
    ∷ record { red = 164; green = 212; blue = 241 }
    ∷ record { red = 255; green = 206; blue = 121 }
    ∷ record { red = 123; green = 123; blue = 123 }
    ∷ record { red = 38; green = 38; blue = 38 }
    ∷ record { red = 69; green = 69; blue = 69 }
    ∷ record { red = 84; green = 84; blue = 84 }
    ∷ record { red = 72; green = 21; blue = 255 }
    ∷ record { red = 235; green = 180; blue = 112 }
    ∷ record { red = 143; green = 191; blue = 220 }
    ∷ record { red = 255; green = 21; blue = 21 }
    ∷ record { red = 21; green = 21; blue = 255 }
    ∷ record { red = 21; green = 255; blue = 21 }
    ∷ []

-- `settings`, with the other globals that the file sets. `D` stands for `double`.
pub record Settings (D : Type 0) : Type 0 where
  pub font_file : Bytes
  pub font_size : ℤ
  pub gui_scale : D
  pub line_spacing : D
  pub line_length : ℤ
  pub current_line_length : ℤ
  pub initial_window_rows : ℤ
  pub color_table : List Rgb

-- `isspace`
abbrev pub is_space : ℕ → Bool
is_space c = c == b' ' || leb 9 c && leb c 13

abbrev pub skip_spaces : Bytes → Bytes
skip_spaces [] = []
skip_spaces (c ∷ s) = if is_space c then skip_spaces s else c ∷ s

-- The decimal digits at the start, behind those that make `n`.
abbrev pub decimal : ℕ → Bytes → ℕ
decimal n [] = n
decimal n (c ∷ s) = if leb b'0' c && leb c b'9' then decimal (n * 10 + (c - b'0')) s else n

abbrev pub signed : Bytes → ℤ
signed [] = pos 0
signed (c ∷ s) =
    if c == b'-'
    then pos 0 -ℤ pos (decimal 0 s)
    else if c == b'+'
    then pos (decimal 0 s)
    else pos (decimal 0 (c ∷ s))

-- `atoi`, for numbers that fit an `int`.
unfoldable pub atoi : Bytes → ℤ
atoi s = signed (skip_spaces s)

unfoldable pub hex_digit : ℕ → Option ℕ
hex_digit c =
    if leb b'0' c && leb c b'9'
    then some (c - b'0')
    else if leb b'a' c && leb c b'f'
    then some (c - b'a' + 10)
    else if leb b'A' c && leb c b'F'
    then some (c - b'A' + 10)
    else none

-- The hexadecimal digits at the start, behind those that make `n`.
unfoldable pub hexadecimal : ℕ → Bytes → ℕ
hexadecimal n [] = n
hexadecimal n (c ∷ s) = elim (hex_digit c) [ none ↦ n | some d ↦ hexadecimal (n * 16 + d) s ]

-- Digits are needed; a prefix `0x` is left out.
abbrev pub unsigned_hex : Bytes → Option ℕ
unsigned_hex [] = none
unsigned_hex (c ∷ []) = elim (hex_digit c) [ none ↦ none | some d ↦ some (hexadecimal 0 (c ∷ [])) ]
unsigned_hex (c ∷ x ∷ s) = elim (hex_digit c) [
  | none ↦ none
  | some d ↦
      some (
        if c == b'0' && (x == b'x' || x == b'X')
        then hexadecimal 0 s
        else hexadecimal 0 (c ∷ x ∷ s))
]

abbrev pub signed_hex : Bytes → Option ℕ
signed_hex [] = none
signed_hex (c ∷ s) =
    if c == b'-'
    then elim (unsigned_hex s) [ none ↦ none | some n ↦ some (2 ^ 32 - n % 2 ^ 32) ]
    else if c == b'+'
    then unsigned_hex s
    else unsigned_hex (c ∷ s)

-- `sscanf(s, "%x", &value)` into 32 bits; `none` if it does not return 1.
unfoldable pub scan_hex : Bytes → Option ℕ
scan_hex s = elim (signed_hex (skip_spaces s)) [ none ↦ none | some n ↦ some (n % 2 ^ 32) ]

unfoldable pub parse_color : Bytes → Rgb → Rgb
parse_color [] rgb = rgb
parse_color (c ∷ s) rgb =
    if c == b'#'
    then elim (scan_hex s) [
      | none ↦ rgb
      | some color_value ↦ record {
        red = color_value / 2 ^ 16;
        green = color_value / 2 ^ 8 % 2 ^ 8;
        blue = color_value % 2 ^ 8;
      }
    ]
    else rgb

-- The rows of `color_table` by the names of their settings.
unfoldable pub color_index : Bytes → Option ℕ
color_index name =
    if same_text name (codes "color_background")
    then some 0
    else if same_text name (codes "color_foreground")
    then some 1
    else if same_text name (codes "color_bold")
    then some 2
    else if same_text name (codes "color_italic")
    then some 3
    else if same_text name (codes "color_dim")
    then some 4
    else if same_text name (codes "color_link")
    then some 8
    else if same_text name (codes "color_scrollbar_background")
    then some 5
    else if same_text name (codes "color_scrollbar_thumb")
    then some 6
    else if same_text name (codes "color_scrollbar_thumb_hover")
    then some 7
    else if same_text name (codes "color_gui_1")
    then some 9
    else if same_text name (codes "color_gui_2")
    then some 10
    else if same_text name (codes "color_error")
    then some 11
    else if same_text name (codes "color_searches")
    then some 12
    else if same_text name (codes "color_search_selected")
    then some 13
    else none

abbrev pub color_at : List Rgb → ℕ → Bytes → List Rgb
color_at table i value = elim (get_elem? table i) [
  | none ↦ table
  | some rgb ↦ set table i (parse_color value rgb)
]

-- What `fgets` with 1024 bytes reads, call by call: `line` is read, and `left` more bytes fit.
unfoldable pub lines_from : ℕ → Bytes → Bytes → List Bytes
lines_from left [] [] = []
lines_from left (c ∷ line) [] = (c ∷ line) ∷ []
lines_from left line (c ∷ s) =
    if c == b'\n' || left == 1
    then (line ++ c ∷ []) ∷ lines_from 1023 [] s
    else lines_from (left - 1) (line ++ c ∷ []) s

-- The first of the three files that can be opened is read; without one nothing is set. `fopen` gives
-- what a file holds.
unfoldable pub settings_file : (Bytes → Option Bytes) → Option Bytes → Option Bytes → Option Bytes
settings_file fopen xdg_home home = or_else (in_xdg xdg_home) (
    or_else
      (fopen (truncated 512 (value_or home (codes "(null)") ++ codes "/.config/mangl/manglrc")))
      (fopen (truncated 512 (value_or home (codes "(null)") ++ codes "/.manglrc"))))
  where
    or_else : Option Bytes → Option Bytes → Option Bytes
    or_else (some content) other = some content
    or_else none other = other

    in_xdg : Option Bytes → Option Bytes
    in_xdg none = none
    in_xdg (some xdg) = fopen (truncated 512 (xdg ++ codes "/mangl/manglrc"))

-- `strtod` is a parameter: `none` where it reads no number.
module _ {D : Type 0} (strtod : Bytes → Option D) where
  -- One line of the `if` cascade. An unreadable number is reported, and changes nothing.
  unfoldable pub set_setting : Settings D → Bytes → Bytes → Run (Settings D)
  unfolding atoi color_index parse_color
  set_setting s name value =
      if same_text name (codes "font")
      then (strcpy 512 value >>= λ file. done (record s { font_file = file }))
      else if same_text name (codes "font_size")
      then done (record s { font_size = atoi value })
      else if same_text name (codes "gui_scale")
      then done (elim (strtod value) [ none ↦ s | some val ↦ record s { gui_scale = val } ])
      else if same_text name (codes "line_spacing")
      then done (elim (strtod value) [ none ↦ s | some val ↦ record s { line_spacing = val } ])
      else if same_text name (codes "line_length")
      then done (record s { line_length = atoi value; current_line_length = atoi value })
      else if same_text name (codes "initial_window_rows")
      then done (record s { initial_window_rows = atoi value })
      else done (elim (color_index name) [
        | none ↦ s
        | some i ↦ record s { color_table = color_at s.color_table i value }
      ])

  abbrev pub set_parsed : Settings D → ParsedLine → Run (Settings D)
  set_parsed s (setting name value) = set_setting s name value
  set_parsed s empty = done s
  set_parsed s comment = done s
  set_parsed s no_colon = done s

  -- `name` and `value` have 256 bytes.
  unfoldable pub load_lines : List Bytes → Settings D → Run (Settings D)
  unfolding set_setting
  load_lines [] s = done s
  load_lines (line ∷ lines) s = parse_line 256 256 line >>= λ p. set_parsed s p >>= load_lines lines

  unfoldable pub load_settings :
      (Bytes → Option Bytes) → Option Bytes → Option Bytes → Settings D → Run (Settings D)
  unfolding load_lines lines_from settings_file
  load_settings fopen xdg_home home s = elim (settings_file fopen xdg_home home) [
    | none ↦ done s
    | some content ↦ load_lines (lines_from 1023 [] content) s
  ]
