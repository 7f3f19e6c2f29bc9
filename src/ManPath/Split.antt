-- ===== src/ManPath/Split.antt =====
-- The array of paths has room for all tokens, and they are stored in their order.
use mangl.Prelude.{
  ℕ, zero, suc, ◌+◌, ◌≤◌, ◌<◌, ◌≡◌, ◌≢◌, refl, ap, ◌∙◌, true, false, inl, inr, Option, none, some,
  List, [], ◌∷◌, ◌++◌, arith, ltb, ◌==◌, length, set, get_elem?, replicate, Bytes, Bool-cases,
  length-set, get_elem?-set_self, get_elem?-set_ne,
}
use mangl.Run.{done, ◌>>=◌}
use mangl.ManPath.{
  Paths, count_colons, allocating_array_for_paths, is_delimiter, emit, tokens, store_paths,
  split_buffer_into_paths, get_man_paths_from_manpath_executable,
}

-- A line: a line end stands at its end only.
abbrev pub IsLine : Bytes → Type 0
IsLine [] = Unit {0}
IsLine (c ∷ []) = Unit {0}
IsLine (c ∷ d ∷ s) = (c ≢ b'\n') × IsLine (d ∷ s)

length-emit : (token : Bytes) (rest : List Bytes) → length (emit token rest) ≤ suc (length rest)
length-emit [] rest = omega arith
length-emit (c ∷ token) rest = omega arith

length-tokens : (token s : Bytes) → IsLine s → length (tokens token s) ≤ suc (count_colons s)
unfolding tokens count_colons
length-tokens token [] line = length-emit token []
length-tokens token (c ∷ []) line = elim (Bool-cases (is_delimiter c)) [
  | inl e ↦ rw e (ground (arith, length-emit token []))
  | inr e ↦ rw e (ground (arith, length-emit (token ++ c ∷ []) []))
]
length-tokens token (c ∷ d ∷ s) (ne, line) = elim (Bool-cases (is_delimiter c)) [
  | inl e ↦
      let colon : (c == b':') ≡ true = ground arith in
      rw (e, colon)
        (omega (arith, length-emit token (tokens [] (d ∷ s)), length-tokens [] (d ∷ s) line))
  | inr e ↦
      let other : (c == b':') ≡ false = ground arith in
      rw (e, other) (length-tokens (token ++ c ∷ []) (d ∷ s) line)
]

-- Where the tokens fit, each is stored at its place and nothing else changes.
store_paths_lem :
    (ts : List Bytes) (i : ℕ) (paths : Paths)
    → i + length ts ≤ length paths
    → (paths' : Paths) × (store_paths ts i paths ≡ done paths')
      × (length paths' ≡ length paths)
      × ((j : ℕ) → j < i → get_elem? paths' j ≡ get_elem? paths j)
      × ((j : ℕ) → i + length ts ≤ j → get_elem? paths' j ≡ get_elem? paths j)
      × ((j : ℕ) (t : Bytes) → get_elem? ts j ≡ some t → get_elem? paths' (i + j) ≡ some (some t))
unfolding store_paths
store_paths_lem [] i paths h =
    (paths, refl, refl, (λ j l. refl), (λ j l. refl), (λ j t e. absurd (cc)))
store_paths_lem (t ∷ ts) i paths h =
    let room : ltb i (length paths) ≡ true = ground arith in
    let n = length-set paths i (some t) in
    let (paths', ran, len, below, above, stored) =
      store_paths_lem ts (i + 1) (set paths i (some t)) (omega (arith, n)) in
    (
      paths',
      rw room ran,
      len ∙ n,
      (λ j l.
          below j (omega arith)
          ∙ get_elem?-set_ne paths {i = i} {j = j} (some t) (λ e. omega arith)),
      (λ j l.
          above j (omega arith)
          ∙ get_elem?-set_ne paths {i = i} {j = j} (some t) (λ e. omega arith)),
      place paths' (below i (omega arith) ∙ get_elem?-set_self paths i (some t) (ground arith))
          stored,
    )
  where
    place :
        (paths' : Paths)
        → get_elem? paths' i ≡ some (some t)
        → ((j : ℕ) (u : Bytes)
            → get_elem? ts j ≡ some u
            → get_elem? paths' (i + 1 + j) ≡ some (some u))
        → (j : ℕ) (u : Bytes) → get_elem? (t ∷ ts) j ≡ some u
        → get_elem? paths' (i + j) ≡ some (some u)
    place paths' here later zero u e = let z : i + 0 ≡ i = omega arith in rw z (here ∙ ap some e)
    place paths' here later (suc j) u e =
        let z : i + suc j ≡ i + 1 + j = omega arith in rw z (later j u e)

length-replicate : (n : ℕ) → length (replicate {A = Option Bytes} n none) ≡ n
length-replicate zero = refl
length-replicate (suc n) = ap suc (length-replicate n)

length-tokens_allocated :
    (buffer : Bytes)
    → IsLine buffer
    → length (tokens [] buffer) ≤ length (allocating_array_for_paths buffer)
unfolding allocating_array_for_paths tokens
length-tokens_allocated [] line = omega arith
length-tokens_allocated (c ∷ []) line = elim (Bool-cases (is_delimiter c)) [
  | inl e ↦ rw e (omega arith)
  | inr e ↦ rw e (omega (arith, length-replicate (suc (count_colons []))))
]
length-tokens_allocated (c ∷ d ∷ s) (ne, line) =
    let n = length-replicate (suc (count_colons (d ∷ s))) in
    elim (Bool-cases (is_delimiter c)) [
      | inl e ↦ rw e (omega (arith, n, length-tokens [] (d ∷ s) line))
      | inr e ↦ rw e (omega (arith, n, length-tokens (c ∷ []) (d ∷ s) line))
    ]

-- On a line of output, the paths are stored in the array that was allocated for them without a
-- write outside it: its first cells are the tokens in their order, and the others stay null.
pub split_buffer_into_paths_lem :
    (buffer : Bytes)
    → IsLine buffer
    → (paths : Paths) × (get_man_paths_from_manpath_executable none (some buffer)
        ≡ done (some paths, paths))
      × (length paths ≡ length (allocating_array_for_paths buffer))
      × ((j : ℕ) (t : Bytes)
          → get_elem? (tokens [] buffer) j ≡ some t
          → get_elem? paths j ≡ some (some t))
      × ((j : ℕ)
          → length (tokens [] buffer) ≤ j
          → get_elem? paths j ≡ get_elem? (allocating_array_for_paths buffer) j)
unfolding get_man_paths_from_manpath_executable split_buffer_into_paths
split_buffer_into_paths_lem buffer line =
    let (paths, ran, len, below, above, stored) =
      store_paths_lem (tokens [] buffer) 0 (allocating_array_for_paths buffer)
        (omega (arith, length-tokens_allocated buffer line)) in
    (
      paths,
      ap (λ r. r >>= λ paths. done (some paths, paths)) ran,
      len,
      (λ j t e. let z : 0 + j ≡ j = omega arith in rw z at (stored j t e)),
      (λ j l. above j (omega arith)),
    )
