-- ===== src/Text.antt =====
-- Bytes of C strings: what main.c takes from <string.h> and <ctype.h>, in the "C" locale.
pub mod Same
use Prim.Native.Char.{code}
use Prim.Native.String.{String}
use mangl.Prelude.{
  zero, suc, ◌≢◌, ℕ, ◌+◌, Bool, true, false, ◌&&◌, [], ◌∷◌, ltb, leb, ◌==◌, if◌then◌else◌, ℤ, pos,
  negsuc, Bytes,
}

-- `isupper`
abbrev pub is_upper : ℕ → Bool
is_upper c = leb b'A' c && leb c b'Z'

-- `tolower`
abbrev pub to_lower : ℕ → ℕ
to_lower c = if is_upper c then c + 32 else c

-- Some byte passes the test.
unfoldable pub any_byte : (ℕ → Bool) → Bytes → Bool
any_byte p [] = false
any_byte p (c ∷ s) = if p c then true else any_byte p s

-- `strncmp(text, term, strlen(term)) == 0`
unfoldable pub is_prefix : Bytes → Bytes → Bool
is_prefix [] text = true
is_prefix (c ∷ term) [] = false
is_prefix (c ∷ term) (d ∷ text) = c == d && is_prefix term text

-- `strncasecmp(text, term, strlen(term)) == 0`
unfoldable pub is_prefix_ignore_case : Bytes → Bytes → Bool
is_prefix_ignore_case [] text = true
is_prefix_ignore_case (c ∷ term) [] = false
is_prefix_ignore_case (c ∷ term) (d ∷ text) =
    to_lower c == to_lower d && is_prefix_ignore_case term text

-- `strcmp(a, b) == 0`
unfoldable pub same_text : Bytes → Bytes → Bool
same_text [] [] = true
same_text [] (d ∷ t) = false
same_text (c ∷ s) [] = false
same_text (c ∷ s) (d ∷ t) = c == d && same_text s t

-- The code points of a literal: its bytes, since these are ASCII.
abbrev pub codes : String → Bytes
codes String.[] = []
codes (String.◌∷◌ c s) = code c ∷ codes s

-- `s[i]`, with the NUL at the end of the string.
abbrev pub byte_at : Bytes → ℕ → ℕ
byte_at [] i = 0
byte_at (c ∷ s) zero = c
byte_at (c ∷ s) (suc i) = byte_at s i

-- The byte does not stand in the string.
abbrev pub Lacks : ℕ → Bytes → Type 0
Lacks c [] = Unit {0}
Lacks c (d ∷ s) = (d ≢ c) × Lacks c s

-- `strcmp`, of which only the sign is specified.
unfoldable pub strcmp : Bytes → Bytes → ℤ
strcmp [] [] = pos 0
strcmp [] (d ∷ t) = negsuc 0
strcmp (c ∷ s) [] = pos 1
strcmp (c ∷ s) (d ∷ t) = if c == d then strcmp s t else if ltb c d then negsuc 0 else pos 1
