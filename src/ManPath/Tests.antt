-- ===== src/ManPath/Tests.antt =====
-- The paths of a line of output.
use mangl.Prelude.{ℕ, ◌≤◌, ◌≡◌, refl, none, some, [], ◌∷◌, ◌++◌, arith, length, get_elem?, Bytes}
use mangl.Text.{codes}
use mangl.Run.{done}
use mangl.ManPath.{
  Paths, allocating_array_for_paths, count_colons, tokens, store_paths, split_buffer_into_paths,
  get_man_paths_from_manpath_executable,
}
use mangl.ManPath.Split.{split_buffer_into_paths_lem}

abbrev output : Bytes
output = codes "/man:/usr" ++ b'\n' ∷ []

split_buffer_into_paths_lem_example :
    (paths : Paths) × (get_man_paths_from_manpath_executable none (some output)
      ≡ done (some paths, paths))
    × (length paths ≡ length (allocating_array_for_paths output))
    × ((j : ℕ) (t : Bytes)
        → get_elem? (tokens [] output) j ≡ some t
        → get_elem? paths j ≡ some (some t))
    × ((j : ℕ)
        → length (tokens [] output) ≤ j
        → get_elem? paths j ≡ get_elem? (allocating_array_for_paths output) j)
split_buffer_into_paths_lem_example = split_buffer_into_paths_lem output (
  λ e. omega arith,
  (
    λ e. omega arith,
    (
      λ e. omega arith,
      (
        λ e. omega arith,
        (
          λ e. omega arith,
          (λ e. omega arith, (λ e. omega arith, (λ e. omega arith, (λ e. omega arith, tt)))),
        ),
      ),
    ),
  ),
)

-- An empty part between two colons leaves a null pointer at the end of the array.
null_path :
    get_man_paths_from_manpath_executable none (some (codes "/a::/b"))
    ≡ (let paths = some (codes "/a") ∷ some (codes "/b") ∷ none ∷ [] in done (some paths, paths))
unfolding get_man_paths_from_manpath_executable split_buffer_into_paths store_paths tokens
    allocating_array_for_paths count_colons
null_path = refl
