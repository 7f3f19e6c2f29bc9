-- ===== src/History/Moves.antt =====
-- Opening a page, reloading it, and going back and forward keep the stack of pages in order.
use mangl.Prelude.{
  ℕ, ◌+◌, ◌<◌, ◌≡◌, ◌≢◌, refl, sym, ap, subst, ◌∙◌, false, ◌⊎◌, inl, inr, Option, none, some, List,
  [], ◌∷◌, ◌++◌, arith, ltb, ◌==◌, if◌then◌else◌, length, get_elem?, drop, Bytes, Bool-cases,
  Option-cases, lt-of_get_elem?, get_elem?-append_length,
}
use mangl.Run.{Run, done, fault, deref, ◌>>=◌, Returns, Returns-bind, IsSafe, Returns-of_safe}
use mangl.App.{Manpage, PageDescription, d_manpage, Platform, App}
use mangl.History.{
  load_manpage, make_page_description, free_all, push_page, enter_page_dir, open_new_page,
}
use mangl.History.Inv.{
  IsLive, IsStack, IsPushed, push_end-IsPushed, push_cut-IsPushed, IsLive-append, free_all-IsLive,
  length-free_all, get_elem?-drop,
}
use mangl.History.Push.{push-IsStack}
use mangl.History.Stack.{IsShown, IsBrowsing, load_manpage-alive, show_page-Returns}

-- What opening a page does to the stack: the page goes on top of what was below the position, and
-- nothing above it can be gone forward to.
abbrev pub IsOpened : App → Bytes → Option Bytes → App → Type 0
IsOpened a filename pwd b =
    IsBrowsing b
    × IsPushed a.page_stack a.stack_pos (make_page_description (length a.heap) filename pwd)
        b.page_stack
    × (b.stack_pos ≡ a.stack_pos + 1)
    × (b.page ≡ some (length a.heap))

pushed-IsShown :
    (heap' : List Manpage) (stack' : List PageDescription) (pos fresh : ℕ) (new : PageDescription)
    → IsStack heap' stack' (pos + 1)
    → get_elem? stack' pos ≡ some new
    → new.ptr ≡ some fresh
    → IsShown heap' stack' (pos + 1) (some fresh)
pushed-IsShown heap' stack' pos fresh new valid top named = record {
  stack_valid = valid;
  shown = λ i e. let same : i ≡ pos = omega arith in (new, ap (get_elem? stack') same ∙ top, named);
}

module _ (a : App) (m : Manpage) (filename : Bytes) (pwd : Option Bytes)
    (valid : IsStack a.heap a.page_stack a.stack_pos) (alive : m.freed ≡ false) where
  -- Nothing that stands above the position is below it as well.
  other :
      (i p : ℕ) (d : PageDescription)
      → i < a.stack_pos
      → get_elem? a.page_stack i ≡ some d
      → d.ptr ≡ some p
      → (j : ℕ) (e : PageDescription) → get_elem? (drop a.stack_pos a.page_stack) j ≡ some e
      → e.ptr ≢ some p
  other i p d l at named j e at' same =
      let q =
        valid.distinct i (a.stack_pos + j) p d e at
          (sym (get_elem?-drop a.stack_pos j a.page_stack) ∙ at') named same in
      absurd (omega arith)

  live_above : (p : ℕ) → IsLive a.heap p → p < length a.heap
  live_above p (k, at, l) = lt-of_get_elem? a.heap p at

  abbrev new : PageDescription
  new = make_page_description (length a.heap) filename pwd

  abbrev above : List PageDescription
  above = drop a.stack_pos a.page_stack

  pub push_page-IsOpened :
      IsOpened a filename pwd (push_page a m filename pwd)
      × (get_elem? (push_page a m filename pwd).heap (length a.heap) ≡ some m)
  push_page-IsOpened = elim (Bool-cases (ltb a.stack_pos (length a.page_stack))) [
    | inl h ↦
        let pushed = push_cut-IsPushed a.page_stack a.stack_pos new (ground arith) in
        let room : length (free_all a.heap above) ≡ length a.heap = length-free_all above a.heap in
        let at =
          subst (λ n. get_elem? (free_all a.heap above ++ m ∷ []) n ≡ some m) room
            (get_elem?-append_length (free_all a.heap above) m []) in
        rw (h, push_page)
          (
            (
              pushed-IsShown _ _ a.stack_pos (length a.heap) new
                  (push-IsStack _ valid pushed refl (m, at, alive)
                    (λ i p d l e q.
                      let lives = valid.live i p d e q in
                      (
                        IsLive-append (free_all a.heap above) m p
                            (free_all-IsLive above a.heap p (other i p d l e q) lives),
                        live_above p lives,
                      )))
                  pushed.top refl,
              pushed,
              refl,
              refl,
            ),
            at,
          )
    | inr h ↦
        let full : length a.page_stack ≡ a.stack_pos = ground (arith, valid.bounded) in
        let at = get_elem?-append_length a.heap m [] in
        let pushed =
          subst (λ n. IsPushed a.page_stack n new (a.page_stack ++ new ∷ [])) full
            (push_end-IsPushed a.page_stack new) in
        rw (h, push_page)
          (
            (
              pushed-IsShown _ _ a.stack_pos (length a.heap) new
                  (push-IsStack _ valid pushed refl (m, at, alive)
                    (λ i p d l e q.
                      let lives = valid.live i p d e q in
                      (IsLive-append a.heap m p lives, live_above p lives)))
                  pushed.top refl,
              pushed,
              refl,
              refl,
            ),
            at,
          )
  ]

pub enter_page_dir-is :
    (platform : Platform) (a : App)
    → (enter_page_dir platform a ≡ fault)
      ⊎ ((c : Bytes) × (enter_page_dir platform a ≡ done (record a { cwd = c })))
unfolding enter_page_dir
enter_page_dir-is platform a =
    elim a.page
      as (λ x.
        ((elim x [ none ↦ done a | some p ↦ deref (get_elem? a.heap p) >>= after ]) ≡ fault)
        ⊎ ((c : Bytes) × ((elim x [ none ↦ done a | some p ↦ deref (get_elem? a.heap p) >>= after ])
              ≡ done (record a { cwd = c })))) [
                | none ↦ inr (a.cwd, refl)
                | some p ↦ elim (Option-cases (get_elem? a.heap p)) [
                  | inl e ↦ inl (ap (λ r. deref r >>= after) e)
                  | inr (m, e) ↦ elim (Bool-cases (length m.pwd == 0)) [
                    | inl h ↦ inr (a.cwd, ap (λ r. deref r >>= after) e ∙ rw h refl)
                    | inr h ↦
                        inr (platform.chdir a.cwd m.pwd, ap (λ r. deref r >>= after) e ∙ rw h refl)
                  ]
                ]
              ]
  where
    after : Manpage → Run App
    after m = done (if length m.pwd == 0 then a else record a { cwd = platform.chdir a.cwd m.pwd })

-- If the page that is opened loads without a fault, `open_new_page` shows it: it is the top of the
-- stack, the page's memory is live, and no page above it can be reached by going forward.
pub open_new_page-IsOpened :
    (platform : Platform) (a : App) (filename : Bytes) (pwd : Option Bytes)
    → IsBrowsing a
    → Returns (enter_page_dir platform a) (λ e. IsSafe (load_manpage platform e filename pwd))
    → Returns
        (open_new_page platform a filename pwd)
        (λ b. IsOpened a filename pwd b × (b.display_mode ≡ d_manpage))
unfolding open_new_page
open_new_page-IsOpened platform a filename pwd valid loads = elim (enter_page_dir-is platform a) [
  | inl e ↦
      absurd (subst (λ r. Returns r (λ e. IsSafe (load_manpage platform e filename pwd))) e loads)
  | inr (c, e) ↦ rw e (
      Returns-bind (load_manpage platform (record a { cwd = c }) filename pwd) _
        (λ m. m.freed ≡ false) _
        (Returns-of_safe _ _
          (subst (λ r. Returns r (λ e. IsSafe (load_manpage platform e filename pwd))) e loads)
          (load_manpage-alive platform (record a { cwd = c }) filename pwd))
        (λ m alive.
          let (opened, at) =
            push_page-IsOpened (record a { cwd = c }) m filename pwd valid.stack_valid alive in
          show_page-Returns platform
            (record (push_page (record a { cwd = c }) m filename pwd) { display_mode = d_manpage })
            (length a.heap) m _ opened.3 at (λ t s q. (opened, refl))))
]
