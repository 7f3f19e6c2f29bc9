-- ===== src/ManPath.antt =====
-- manpath.c: the search paths for manual pages, from the output of `manpath`.
pub mod Split
mod Tests
use mangl.Prelude.{
  ℕ, suc, ◌+◌, Bool, true, false, ◌||◌, Option, none, some, List, [], ◌∷◌, ◌++◌, ltb, ◌==◌,
  if◌then◌else◌, length, set, replicate, Bytes,
}
use mangl.Run.{Run, done, fault, ◌>>=◌}

-- `number_of_manpath_paths` and the array `manpath_paths`, whose cells are null at first.
abbrev pub Paths : Type 0
Paths = List (Option Bytes)

unfoldable pub count_colons : Bytes → ℕ
count_colons [] = 0
count_colons (c ∷ s) = if c == b':' then suc (count_colons s) else count_colons s

-- `strchr` starts behind the first byte.
unfoldable pub allocating_array_for_paths : Bytes → Paths
allocating_array_for_paths [] = replicate 1 none
allocating_array_for_paths (c ∷ s) = replicate (suc (count_colons s)) none

abbrev pub is_delimiter : ℕ → Bool
is_delimiter c = c == b':' || c == b'\n'

-- The token in hand, which `strtok_r` leaves out if it is empty.
abbrev pub emit : Bytes → List Bytes → List Bytes
emit [] rest = rest
emit (c ∷ token) rest = (c ∷ token) ∷ rest

-- The tokens of `strtok_r` with the delimiters ":\\n", of which `token` has been read.
unfoldable pub tokens : Bytes → Bytes → List Bytes
tokens token [] = emit token []
tokens token (c ∷ s) =
    if is_delimiter c then emit token (tokens [] s) else tokens (token ++ c ∷ []) s

-- `(*manpath_paths)[manpath_paths_index++] = current_path`; a write outside the array is a fault.
unfoldable pub store_paths : List Bytes → ℕ → Paths → Run Paths
store_paths [] i paths = done paths
store_paths (t ∷ ts) i paths =
    if ltb i (length paths) then store_paths ts (i + 1) (set paths i (some t)) else fault

unfoldable pub split_buffer_into_paths : Bytes → Paths → Run Paths
split_buffer_into_paths buffer paths = store_paths (tokens [] buffer) 0 paths

-- `manpath_paths` is kept from call to call: `cache`. `output` is the first line that the program
-- prints, with its line end, `none` if there is none.
unfoldable pub get_man_paths_from_manpath_executable :
    Option Paths → Option Bytes → Run (Option Paths × Paths)
get_man_paths_from_manpath_executable (some paths) output = done (some paths, paths)
get_man_paths_from_manpath_executable none none = done (none, [])
get_man_paths_from_manpath_executable none (some buffer) =
    split_buffer_into_paths buffer (allocating_array_for_paths buffer) >>= λ paths.
    done (some paths, paths)
