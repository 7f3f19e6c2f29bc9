-- ===== src/Settings.antt =====
-- The lines of the settings file: `parse_line` of main.c.
pub mod Line
pub mod Load
pub mod File
pub mod Color
mod Tests
use mangl.Prelude.{
  ℕ, Bool, true, false, ◌||◌, Option, none, some, List, [], ◌∷◌, ◌==◌, if◌then◌else◌, length, Bytes,
}
use mangl.Run.{Run, done, strcpy, ◌>>=◌}

-- What the function returns: 0 with a name and a value, -1 for an empty line or an empty value, -2
-- for a comment, and -3 for a line without a colon.
pub data ParsedLine : Type 0 where
  setting : Bytes → Bytes → ParsedLine
  empty comment no_colon : ParsedLine

abbrev pub is_padding : ℕ → Bool
is_padding c = c == b' ' || c == b'\t'

unfoldable pub skip_blanks : Bytes → Bytes
skip_blanks [] = []
skip_blanks (c ∷ s) = if is_padding c then skip_blanks s else c ∷ s

-- What stands before and behind the first byte `d`; `none` if `strchr` finds none.
unfoldable pub split_at : ℕ → Bytes → Option (Bytes × Bytes)
split_at d [] = none
split_at d (c ∷ s) =
    let rest = split_at d s in
    if c == d then some ([], s) else elim rest [ none ↦ none | some p ↦ some (c ∷ p.0, p.1) ]

-- The name ends at its first space.
abbrev pub cut_at_space : Bytes → Bytes
cut_at_space name = elim (split_at b' ' name) [ none ↦ name | some p ↦ p.0 ]

abbrev pub is_end : ℕ → Bool
is_end c = c == b'\n' || c == b' '

-- The loop on `end`: line ends and spaces at the end of the value go.
unfoldable pub trim_end : Bytes → Bytes
trim_end [] = []
trim_end (c ∷ s) =
    let rest = trim_end s in
    elim rest [ [] ↦ if is_end c then [] else c ∷ [] | d ∷ t ↦ c ∷ (d ∷ t) ]

-- `name_out` and `value_out` have `name_size` and `value_size` bytes.
abbrev pub parse_value : ℕ → ℕ → Bytes → Bytes → Run ParsedLine
parse_value name_size value_size name [] = done empty
parse_value name_size value_size name (c ∷ value) =
    if c == b'\n'
    then done empty
    else (strcpy name_size (cut_at_space name) >>= λ name_out.
        strcpy value_size (trim_end (c ∷ value)) >>= λ value_out. done (setting name_out value_out))

abbrev pub parse_text : ℕ → ℕ → Bytes → Run ParsedLine
parse_text name_size value_size [] = done empty
parse_text name_size value_size (c ∷ line) =
    if c == b'\n'
    then done empty
    else if c == b'#'
    then done comment
    else elim (split_at b':' (c ∷ line)) [
      | none ↦ done no_colon
      | some p ↦ parse_value name_size value_size p.0 (skip_blanks p.1)
    ]

unfoldable pub parse_line : ℕ → ℕ → Bytes → Run ParsedLine
parse_line name_size value_size line = parse_text name_size value_size (skip_blanks line)
