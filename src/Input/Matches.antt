-- ===== src/Input/Matches.antt =====
-- Stepping through the matches of a page with `n` and `N`.
use mangl.Prelude.{
  ℕ, ◌≡◌, true, inl, inr, some, arith, Bool-cases, get_elem?, ℤ, pos, negsuc, ◌+ℤ◌, ◌-ℤ◌, ◌≤ℤ◌,
  ◌<ℤ◌, ltb_ℤ, leb_ℤ, +ℤ_parts, -ℤ_parts, eq_of_parts, get_elem?-set_self, lt-of_get_elem?,
}
use mangl.Run.{fault}
use mangl.App.{App, Manpage, Platform, the_page-is}
use mangl.Input.Chars.{next_index, previous_index, command}

-- The index names one of the matches.
abbrev pub InMatches : Manpage → ℤ → Type 0
InMatches m index = (pos 0 ≤ℤ index) × (index <ℤ pos m.search_num)

-- With the current index among the matches, `n` and `N` keep it among them.
pub next_index-InMatches :
    (platform : Platform) (m : Manpage)
    → InMatches m m.search_index
    → InMatches m (next_index platform m) × InMatches m (previous_index platform m)
unfolding next_index previous_index
next_index-InMatches platform m (low, high) =
    let i = m.search_index in
    let n = pos m.search_num in
    (
      (
        ground (arith, +ℤ_parts i (pos 1), -ℤ_parts (i +ℤ pos 1) n),
        ground (arith, +ℤ_parts i (pos 1), -ℤ_parts (i +ℤ pos 1) n),
      ),
      (
        ground (arith, -ℤ_parts i (pos 1), +ℤ_parts (i -ℤ pos 1) n),
        ground (arith, -ℤ_parts i (pos 1), +ℤ_parts (i -ℤ pos 1) n),
      ),
    )

-- `N` undoes `n`, and `n` undoes `N`.
pub previous_index-next_index :
    (platform : Platform) (m : Manpage)
    → InMatches m m.search_index
    → (previous_index platform (record m { search_index = next_index platform m }) ≡ m.search_index)
      × (next_index platform (record m { search_index = previous_index platform m })
          ≡ m.search_index)
unfolding next_index previous_index
previous_index-next_index platform m (low, high) =
    let i = m.search_index in
    let n = pos m.search_num in
    let up = i +ℤ pos 1 in
    let down = i -ℤ pos 1 in
    (
      elim (Bool-cases (leb_ℤ n up)) [
        | inl e ↦ rw e (
            eq_of_parts _ _ (
              ground (
                arith,
                +ℤ_parts i (pos 1),
                -ℤ_parts up n,
                -ℤ_parts (up -ℤ n) (pos 1),
                +ℤ_parts (up -ℤ n -ℤ pos 1) n,
              )))
        | inr e ↦ rw e (
            eq_of_parts _ _
              (ground (arith, +ℤ_parts i (pos 1), -ℤ_parts up (pos 1), +ℤ_parts (up -ℤ pos 1) n)))
      ],
      elim (Bool-cases (ltb_ℤ down (pos 0))) [
        | inl e ↦ rw e (
            eq_of_parts _ _ (
              ground (
                arith,
                -ℤ_parts i (pos 1),
                +ℤ_parts down n,
                +ℤ_parts (down +ℤ n) (pos 1),
                -ℤ_parts (down +ℤ n +ℤ pos 1) n,
              )))
        | inr e ↦ rw e (
            eq_of_parts _ _ (
              ground
                (arith, -ℤ_parts i (pos 1), +ℤ_parts down (pos 1), -ℤ_parts (down +ℤ pos 1) n)))
      ],
    )

-- `N` on a page whose search has no match reads outside the array of matches.
pub command_without_matches :
    (platform : Platform) (a : App) (p : ℕ) (m : Manpage)
    → a.page ≡ some p
    → get_elem? a.heap p ≡ some m
    → m.search_visible ≡ true
    → m.search_num ≡ 0
    → m.search_index ≡ pos 0
    → command platform a b'N' ≡ fault
unfolding command previous_index ◌-ℤ◌ ◌+ℤ◌
command_without_matches platform a p m at here visible none_found first =
    let stepped = record m { search_visible = true; search_num = 0; search_index = negsuc 0 } in
    rw (
      the_page-is a p m at here,
      visible,
      at,
      first,
      none_found,
      get_elem?-set_self a.heap p stepped (lt-of_get_elem? a.heap p here),
    )
