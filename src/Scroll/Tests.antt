-- ===== src/Scroll/Tests.antt =====
-- The theorems about scrolling, at a browser with two pages.
use mangl.Prelude.{
  ℕ, ◌≡◌, ◌≢◌, refl, false, not, ◌||◌, some, arith, get_elem?, ℤ, pos, negsuc, ◌+ℤ◌, ◌-ℤ◌, ◌*ℤ◌,
  ◌≤ℤ◌,
}
use mangl.Run.{done, Returns}
use mangl.App.{Recti, Manpage, put_page}
use mangl.Samples.{platform, browser, blank_page}
use mangl.Scroll.{
  clamp_scroll_position, set_scroll_position, scroll_in_view, scroll_limit, eq_ℤ, document_height,
}
use mangl.Text.{codes}
use mangl.Scroll.Bounds.{
  clamp_scroll_position-bounds, set_scroll_position-Returns, scroll_in_view_lem,
}

abbrev page : Manpage
page = blank_page (codes "b.1")

abbrev match : Recti
match = record { x = pos 0; y = pos 20; x2 = pos 30; y2 = pos 29 }

clamp_scroll_position-bounds_example :
    (pos 0 ≤ℤ clamp_scroll_position platform browser page (negsuc 4))
    × (clamp_scroll_position platform browser page (negsuc 4) ≤ℤ scroll_limit platform browser page)
clamp_scroll_position-bounds_example = clamp_scroll_position-bounds platform browser page (negsuc 4)

set_scroll_position-Returns_example : Returns (set_scroll_position platform browser (pos 70)) (λ b.
    (get_elem? b.heap 1
      ≡ some
          (record page { scroll_position = clamp_scroll_position platform browser page (pos 70) }))
    × ((q : ℕ) → 1 ≢ q → get_elem? b.heap q ≡ get_elem? browser.heap q)
    × (b.redisplay_needed
        ≡ (not (eq_ℤ (clamp_scroll_position platform browser page (pos 70)) (pos 0)) || false)))
set_scroll_position-Returns_example =
    set_scroll_position-Returns platform browser page 1 (pos 70) refl refl

scroll_in_view_lem_example :
    (s : ℤ) × (scroll_in_view platform browser match (pos 90)
      ≡ done (put_page browser (record page { scroll_position = s })))
    × (s ≤ℤ pos 20)
    × (pos 29 ≤ℤ s +ℤ pos 400)
unfolding document_height ◌+ℤ◌ ◌*ℤ◌ ◌-ℤ◌
scroll_in_view_lem_example =
    scroll_in_view_lem platform browser 1 page match (pos 90) refl refl (omega arith) (omega arith)
      (omega arith) (omega arith)
