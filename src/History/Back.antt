-- ===== src/History/Back.antt =====
-- Going back and forward through the pages.
use mangl.Prelude.{
  ℕ, suc, ◌+◌, ◌-◌, ◌≤◌, ◌≡◌, refl, sym, subst, ap, ap₂, ◌∙◌, true, inl, inr, Option, none, some,
  List, arith, ltb, get_elem?, Bool-cases, Option-cases, lt-of_get_elem?, get_elem?-lt,
}
use mangl.Run.{done, ◌>>=◌, Returns, Returns-bind, Returns-weaken}
use mangl.App.{Manpage, PageDescription, Platform, App}
use mangl.History.{show_page, page_back, page_forward}
use mangl.History.Inv.{IsStack}
use mangl.History.Stack.{IsShown, IsBrowsing, show_page-Returns}

-- The same stack at another position.
moved-IsShown :
    (heap : List Manpage) (stack : List PageDescription) (pos i p : ℕ) (d : PageDescription)
    → IsStack heap stack pos
    → i ≤ pos
    → get_elem? stack i ≡ some d
    → d.ptr ≡ some p
    → IsShown heap stack (suc i) (some p)
moved-IsShown heap stack pos i p d valid l at named = record {
  stack_valid = record {
    bounded = omega (arith, lt-of_get_elem? stack i at);
    live = valid.live;
    used = λ j e at' h. elim (Bool-cases (ltb j i)) [
      | inl h' ↦ valid.used j e at' (ground arith)
      | inr h' ↦
          let same : i ≡ j = ground arith in
          let both : some d ≡ some e = sym at ∙ ap (get_elem? stack) same ∙ at' in
          (
            p,
            sym (ap (λ (x : Option PageDescription). elim x [ none ↦ none | some y ↦ y.ptr ]) both)
                ∙ named,
          )
    ];
    distinct = valid.distinct;
  };
  shown = λ j e. let same : i ≡ j = omega arith in (d, ap (get_elem? stack) (sym same) ∙ at, named);
}

-- Only the position and the page shown are new.
abbrev pub IsMoved : App → ℕ → ℕ → App → Type 0
IsMoved a pos p b =
    IsBrowsing b
    × (b.stack_pos ≡ pos)
    × (b.page ≡ some p)
    × (b.page_stack ≡ a.page_stack)
    × (b.heap ≡ a.heap)

move-IsMoved :
    (platform : Platform) (a : App) (i p : ℕ) (d : PageDescription)
    → IsBrowsing a
    → i ≤ a.stack_pos
    → get_elem? a.page_stack i ≡ some d
    → d.ptr ≡ some p
    → Returns
        (show_page platform (record a { stack_pos = suc i; page = some p }))
        (IsMoved a (suc i) p)
move-IsMoved platform a i p d valid l at named =
    let (m, here, alive) = valid.stack_valid.live i p d at named in
    show_page-Returns platform (record a { stack_pos = suc i; page = some p }) p m
      (IsMoved a (suc i) p) refl here
      (λ t s q. (
        moved-IsShown a.heap a.page_stack a.stack_pos i p d valid.stack_valid l at named,
        refl,
        refl,
        refl,
        refl,
      ))

-- Going back from a page that has one below shows the page below, whose memory is live, and leaves
-- the stack and all pages alone.
pub page_back-IsMoved :
    (platform : Platform) (a : App) (i p : ℕ) (d : PageDescription)
    → IsBrowsing a
    → a.stack_pos ≡ suc (suc i)
    → get_elem? a.page_stack i ≡ some d
    → d.ptr ≡ some p
    → Returns (page_back platform a) (IsMoved a (suc i) p)
unfolding page_back
page_back-IsMoved platform a i p d valid more at named =
    let many : ltb 1 a.stack_pos ≡ true = ground arith in
    let below : a.stack_pos - 1 - 1 ≡ i = omega arith in
    let now : a.stack_pos - 1 ≡ suc i = omega arith in
    rw (many, below, at, now, named) (move-IsMoved platform a i p d valid (omega arith) at named)

page_forward-shows :
    (platform : Platform) (a : App) (p : ℕ) (d : PageDescription)
    → IsBrowsing a
    → get_elem? a.page_stack a.stack_pos ≡ some d
    → d.ptr ≡ some p
    → Returns (page_forward platform a) (IsMoved a (suc a.stack_pos) p)
unfolding page_forward
page_forward-shows platform a p d valid e named =
    let next : a.stack_pos + 1 ≡ suc a.stack_pos = omega arith in
    rw (e, named, page_forward, next)
      (move-IsMoved platform a a.stack_pos p d valid (omega arith) e named)

-- The page of the entry at the position: the next one, if the stack has it.
abbrev pub next_page : App → Option ℕ
next_page a = elim (get_elem? a.page_stack a.stack_pos) [ none ↦ none | some d ↦ d.ptr ]

-- What going forward does, by the next page.
abbrev pub ForwardTo : Platform → App → Option ℕ → Type 0
ForwardTo platform a none = page_forward platform a ≡ done a
ForwardTo platform a (some p) = Returns (page_forward platform a) (IsMoved a (suc a.stack_pos) p)

-- Whenever the entry at the position has a page, going forward moves there: it shows this page, whose
-- memory is live, and leaves the stack and all pages alone. If there is no entry or it has no page,
-- going forward changes nothing.
pub page_forward-IsMoved :
    (platform : Platform) (a : App) → IsBrowsing a → ForwardTo platform a (next_page a)
unfolding page_forward
page_forward-IsMoved platform a valid = elim (Option-cases (get_elem? a.page_stack a.stack_pos)) [
  | inl e ↦
      subst (ForwardTo platform a)
        (sym (ap (λ (o : Option PageDescription). elim o [ none ↦ none | some x ↦ x.ptr ]) e))
        (rw (e, page_forward) refl)
  | inr (d, e) ↦ elim (Option-cases d.ptr) [
    | inl named ↦
        subst (ForwardTo platform a) (sym (next d e ∙ named)) (rw (e, named, page_forward) refl)
    | inr (p, named) ↦
        subst (ForwardTo platform a) (sym (next d e ∙ named))
          (page_forward-shows platform a p d valid e named)
  ]
]
  where
    next : (d : PageDescription) → get_elem? a.page_stack a.stack_pos ≡ some d → next_page a ≡ d.ptr
    next d e = ap (λ (o : Option PageDescription). elim o [ none ↦ none | some x ↦ x.ptr ]) e

-- After going back from a page that has one below, going forward shows that page again.
pub page_forward-page_back :
    (platform : Platform) (a : App) (i : ℕ)
    → IsBrowsing a
    → a.stack_pos ≡ suc (suc i)
    → Returns (page_back platform a >>= page_forward platform) (λ b.
      IsBrowsing b
      × (b.stack_pos ≡ a.stack_pos)
      × (b.page ≡ a.page)
      × (b.page_stack ≡ a.page_stack)
      × (b.heap ≡ a.heap))
page_forward-page_back platform a i valid more =
    let (d, at) = get_elem?-lt a.page_stack i (omega (arith, valid.stack_valid.bounded)) in
    let (p, named) = valid.stack_valid.used i d at (omega arith) in
    let (e, at', shows) = valid.shown (suc i) more in
    let (q, named') = valid.stack_valid.used (suc i) e at' (omega arith) in
    Returns-bind (page_back platform a) (page_forward platform) (IsMoved a (suc i) p) _
      (page_back-IsMoved platform a i p d valid more at named)
      (λ b (again, now, page, stack, heap).
        Returns-weaken _ (IsMoved b (suc b.stack_pos) q) _
          (λ c (valid', now', page', stack', heap'). (
            valid',
            now' ∙ ap suc now ∙ sym more,
            page' ∙ sym named' ∙ shows,
            stack' ∙ stack,
            heap' ∙ heap,
          ))
          (page_forward-shows platform b q e again (ap₂ get_elem? stack now ∙ at') named'))
