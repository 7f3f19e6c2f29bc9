-- ===== src/PageName.antt =====
-- `ends_with_ignore_case` and `get_page_name_and_section` of main.c: the name and the section of a
-- manual page, from the name of its file.
pub mod Split
mod Tests
use mangl.Prelude.{
  ℕ, zero, suc, ◌+◌, ◌-◌, ◌≡◌, Bool, true, false, Option, none, some, List, [], ◌∷◌, arith, leb,
  ◌==◌, ◌&&◌, not, if◌then◌else◌, length, take, drop, min, Bytes,
}
use mangl.Text.{to_lower, codes, byte_at}
use mangl.Run.{Run, done, strcpy, ◌>>=◌}

-- `strcasecmp(a, b) == 0`
unfoldable pub eq_ignore_case : Bytes → Bytes → Bool
eq_ignore_case [] [] = true
eq_ignore_case [] (d ∷ t) = false
eq_ignore_case (c ∷ s) [] = false
eq_ignore_case (c ∷ s) (d ∷ t) = to_lower c == to_lower d && eq_ignore_case s t

-- Whether the function returns 0, which is all that its callers ask.
unfoldable pub ends_with_ignore_case : Bytes → Bytes → Bool
unfolding eq_ignore_case
ends_with_ignore_case str ending =
    if leb (length ending) (length str)
    then eq_ignore_case (drop (length str - length ending) str) ending
    else false

-- The loops on `i` that walk back from the end: the last place of the byte among the first `n`.
unfoldable pub last_index : ℕ → Bytes → ℕ → Option ℕ
last_index c s zero = none
last_index c s (suc i) = let rest = last_index c s i in if byte_at s i == c then some i else rest

-- The part of the path behind its last slash.
unfoldable pub base_name : Bytes → Bytes
unfolding last_index
base_name pathname = elim (last_index b'/' pathname (length pathname)) [
  | none ↦ pathname
  | some i ↦ drop (i + 1) pathname
]

unfoldable pub strip_compression : Bytes → Bytes
unfolding ends_with_ignore_case
strip_compression filename =
    if ends_with_ignore_case filename (codes ".gz")
    then take (length filename - 3) filename
    else if ends_with_ignore_case filename (codes ".bz2")
    then take (length filename - 4) filename
    else filename

-- `name` and `section`, with `name_len` and `section_len` bytes of room; `none` is -1.
unfoldable pub split_name : Bytes → ℕ → ℕ → Option (Bytes × Bytes)
unfolding last_index
split_name filename name_len section_len = elim (last_index b'.' filename (length filename)) [
  | none ↦ none
  | some i ↦
      some (take (min i (name_len - 1)) filename, take (section_len - 1) (drop (i + 1) filename))
]

unfoldable pub get_page_name_and_section : Bytes → ℕ → ℕ → Run (Option (Bytes × Bytes))
get_page_name_and_section [] name_len section_len = done none
get_page_name_and_section (c ∷ path) name_len section_len = do
  filename ← strcpy 256 (base_name (c ∷ path))
  done (split_name (strip_compression filename) name_len section_len)
