-- ===== src/History/Tests.antt =====
-- A browser with two pages, and the theorems about the stack of pages at it.
use mathlib.Core.Option.{some-injective}
use mangl.Prelude.{ℕ, zero, suc, ◌<◌, ◌≡◌, refl, sym, ap, subst, ◌∙◌, none, some, arith, get_elem?}
use mangl.Text.{codes}
use mangl.Run.{◌>>=◌, Returns, IsSafe}
use mangl.Document.{
  format_document, format_events, format_event, format_letter, format_advance, add_to_lines,
  add_to_line, add_line, put_letters, grow_span, translate, drop_last_blank,
}
use mangl.App.{App, PageDescription, d_manpage}
use mangl.PageSearch.{add_plain}
use mangl.Links.{find_links, find_line_links, scan_words, word_byte, complete_word}
use mangl.PageName.{get_page_name_and_section, base_name, strip_compression, split_name, last_index}
use mangl.History.{
  load_manpage, open_new_page, reload_current_page, page_back, page_forward, enter_page_dir,
}
use mangl.Samples.{platform, browser, first, second}
use mangl.History.Inv.{IsStack, IsLive}
use mangl.History.Stack.{IsBrowsing}
use mangl.History.Moves.{IsOpened, open_new_page-IsOpened}
use mangl.History.Back.{IsMoved, page_back-IsMoved, page_forward-IsMoved, page_forward-page_back}
use mangl.History.Reload.{IsReloaded, reload_current_page-IsReloaded}

program : Unit {0}
unfolding load_manpage enter_page_dir find_links find_line_links scan_words word_byte complete_word
    get_page_name_and_section format_document format_events format_event format_letter
    format_advance add_to_lines add_to_line add_line put_letters grow_span translate drop_last_blank
    base_name strip_compression split_name last_index add_plain
program = tt

place_of :
    (i p : ℕ) (d : PageDescription)
    → get_elem? browser.page_stack i ≡ some d
    → d.ptr ≡ some p
    → (p ≡ i) × (i < 2)
place_of zero p d at e = (
  some-injective p 0
      (sym e ∙ ap (λ (x : PageDescription). x.ptr) (sym (some-injective first d at))),
  omega arith,
)
place_of (suc zero) p d at e = (
  some-injective p 1
      (sym e ∙ ap (λ (x : PageDescription). x.ptr) (sym (some-injective second d at))),
  omega arith,
)
place_of (suc (suc i)) p d at e = absurd (cc)

page_of : (i : ℕ) → i < 2 → IsLive browser.heap i
page_of zero l = (_, refl, refl)
page_of (suc zero) l = (_, refl, refl)
page_of (suc (suc i)) l = absurd (omega arith)

name_of :
    (i : ℕ) (d : PageDescription)
    → get_elem? browser.page_stack i ≡ some d
    → (p : ℕ) × (d.ptr ≡ some p)
name_of zero d at = (0, ap (λ (x : PageDescription). x.ptr) (sym (some-injective first d at)))
name_of (suc zero) d at =
    (1, ap (λ (x : PageDescription). x.ptr) (sym (some-injective second d at)))
name_of (suc (suc i)) d at = absurd (cc)

browser-IsStack : IsStack browser.heap browser.page_stack 2
browser-IsStack = record {
  bounded = omega arith;
  live = λ i p d at e.
      let (same, l) = place_of i p d at e in subst (IsLive browser.heap) (sym same) (page_of i l);
  used = λ i d at l. name_of i d at;
  distinct =
      λ i j p d e at at' q q'. omega (arith, (place_of i p d at q).0, (place_of j p e at' q').0);
}

browser-IsBrowsing : IsBrowsing browser
browser-IsBrowsing = record {
  stack_valid = browser-IsStack;
  shown = λ i e.
      let same : 1 ≡ i = omega arith in
      (second, ap (get_elem? browser.page_stack) (sym same), refl);
}

-- The file is there and has no long name.
loads :
    Returns
      (enter_page_dir platform browser)
      (λ e. IsSafe (load_manpage platform e (codes "ls.1") none))
unfolding program
loads = tt

open_new_page-IsOpened_example :
    Returns
      (open_new_page platform browser (codes "ls.1") none)
      (λ b. IsOpened browser (codes "ls.1") none b × (b.display_mode ≡ d_manpage))
open_new_page-IsOpened_example =
    open_new_page-IsOpened platform browser (codes "ls.1") none browser-IsBrowsing loads

reload_current_page-IsReloaded_example :
    Returns (reload_current_page platform browser) (IsReloaded platform browser 1 1 second)
unfolding program
reload_current_page-IsReloaded_example =
    reload_current_page-IsReloaded platform browser 1 1 second browser-IsBrowsing refl refl refl tt

page_back-IsMoved_example : Returns (page_back platform browser) (IsMoved browser 1 0)
page_back-IsMoved_example =
    page_back-IsMoved platform browser 0 0 first browser-IsBrowsing refl refl refl

-- The browser after going back, at whose position there is a page to go forward to.
abbrev behind : App
behind = record browser { stack_pos = 1; page = some 0 }

behind-IsBrowsing : IsBrowsing behind
behind-IsBrowsing = record {
  stack_valid = record {
    bounded = omega arith;
    live = browser-IsStack.live;
    used = λ i d at l. name_of i d at;
    distinct = browser-IsStack.distinct;
  };
  shown = λ i e.
      let same : 0 ≡ i = omega arith in (first, ap (get_elem? browser.page_stack) (sym same), refl);
}

page_forward-IsMoved_example : Returns (page_forward platform behind) (IsMoved behind 2 1)
page_forward-IsMoved_example = page_forward-IsMoved platform behind behind-IsBrowsing

page_forward-page_back_example :
    Returns (page_back platform browser >>= page_forward platform) (λ b.
      IsBrowsing b
      × (b.stack_pos ≡ 2)
      × (b.page ≡ some 1)
      × (b.page_stack ≡ browser.page_stack)
      × (b.heap ≡ browser.heap))
page_forward-page_back_example = page_forward-page_back platform browser 0 browser-IsBrowsing refl
