-- ===== src/Input/Selection.antt =====
-- The selected result: the keys and the mouse keep it among the results, and the keys in view.
use mangl.Prelude.{◌+◌, ◌-◌, ◌≤◌, ◌<◌, ◌≡◌, refl, min, inl, inr, arith, ltb, Bool-cases}
use mangl.Run.{Returns}
use mangl.ManSearch.{SearchScreen}
use mangl.App.{App, Platform, post_redisplay}
use mangl.Input.{Mods}
use mangl.Input.Keys.{up, down, key_in_search}

-- The selected result exists and is in one of the rows that are shown.
abbrev pub InView : SearchScreen → Type 0
InView s =
    (s.results_selected_index < s.matches_count)
    × (s.results_view_offset ≤ s.results_selected_index)
    × (s.results_selected_index < s.results_view_offset + s.results_shown_lines)

-- Where the selected result exists and is shown, the keys up and down keep it so, and they move it
-- by one row, up to the first result and down to the last.
pub key_in_search-InView :
    (platform : Platform) (a : App) (mods : Mods)
    → InView a.screen
    → Returns (key_in_search platform a up mods) (λ b.
      InView b.screen × (b.screen.results_selected_index ≡ a.screen.results_selected_index - 1))
      × Returns (key_in_search platform a down mods) (λ b.
        InView b.screen
        × (b.screen.results_selected_index
            ≡ min (a.screen.results_selected_index + 1) (a.screen.matches_count - 1)))
unfolding key_in_search post_redisplay
key_in_search-InView platform a mods (exists, above, below) = (
  elim (Bool-cases (ltb 0 a.screen.results_selected_index)) [
    | inl e ↦
        elim (Bool-cases (ltb (a.screen.results_selected_index - 1) a.screen.results_view_offset)) [
          | inl h ↦ rw (e, h) ((ground arith, omega arith, ground arith), refl)
          | inr h ↦ rw (e, h) ((ground arith, ground arith, ground arith), refl)
        ]
    | inr e ↦ rw e ((exists, above, below), ground arith)
  ],
  elim (Bool-cases (ltb (a.screen.results_selected_index + 1) a.screen.matches_count)) [
    | inl e ↦
        elim (Bool-cases (
          ltb (a.screen.results_view_offset + a.screen.results_shown_lines)
            (a.screen.results_selected_index + 1 + 1))) [
              | inl h ↦ rw (e, h) ((ground arith, ground arith, ground arith), ground arith)
              | inr h ↦ rw (e, h) ((ground arith, ground arith, ground arith), ground arith)
            ]
    | inr e ↦ rw e ((exists, above, below), ground arith)
  ],
)
