-- ===== src/History/Reload.antt =====
-- Loading the page shown again.
use mathlib.Core.Option.{some-injective}
use mangl.Prelude.{
  ℕ, suc, ◌-◌, ◌<◌, ◌≡◌, refl, sym, ap, subst, ◌∙◌, false, ◌⊎◌, inl, inr, Option, none, some, List,
  [], ◌∷◌, ◌++◌, arith, ltb, ◌==◌, length, get_elem?, set, replicate, pos, Bytes, Bool-cases,
  Option-cases, lt-of_get_elem?, get_elem?-append_length, get_elem?-set_self, get_elem?-set_ne,
  length-set,
}
use mangl.Run.{
  Run, done, exited, fault, ◌>>=◌, strcpy, Returns, Returns-bind, IsSafe, Yields, Yields-bind,
  Returns-of_safe,
}
use mangl.Document.{Document, Event, format_document}
use mangl.App.{Manpage, Link, PageDescription, Platform, App, no_recti}
use mangl.PageName.{get_page_name_and_section}
use mangl.PageSearch.{max_searches}
use mangl.Links.{find_links}
use mangl.History.{load_manpage, free_manpage, show_page, reload_current_page}
use mangl.History.Inv.{IsLive, IsStack, IsLive-append, free_manpage-IsLive, length-free_manpage}
use mangl.History.Stack.{IsShown, IsBrowsing, show_page-Returns}

-- The description on top of the stack with another page.
module _ (heap : List Manpage) (stack : List PageDescription) (i : ℕ) (d : PageDescription)
    (m : Manpage) (p : ℕ) where
  abbrev pub new_heap : List Manpage
  new_heap = free_manpage heap p ++ m ∷ []

  abbrev fresh : PageDescription
  fresh = record d { ptr = some (length heap) }

  pub fresh-at : get_elem? new_heap (length heap) ≡ some m
  fresh-at =
      subst (λ n. get_elem? new_heap n ≡ some m) (length-free_manpage heap p)
        (get_elem?-append_length (free_manpage heap p) m [])

  module _ (valid : IsStack heap stack (suc i)) (at : get_elem? stack i ≡ some d)
      (named : d.ptr ≡ some p) (alive : m.freed ≡ false) where
    -- An entry of the new stack is the new one, or an old one of another page.
    entry :
        (j q : ℕ) (e : PageDescription)
        → get_elem? (set stack i fresh) j ≡ some e
        → e.ptr ≡ some q
        → ((j ≡ i) × (q ≡ length heap))
          ⊎ ((get_elem? stack j ≡ some e) × (q < length heap) × IsLive new_heap q)
    entry j q e at' named' = elim (Bool-cases (j == i)) [
      | inl h ↦
          let same : j ≡ i = ground arith in
          let is : fresh ≡ e = some-injective fresh e (
            sym (get_elem?-set_self stack i fresh (lt-of_get_elem? stack i at))
            ∙ ap (get_elem? (set stack i fresh)) (sym same)
            ∙ at') in
          inl (
            same,
            some-injective q (length heap)
                (sym named' ∙ ap (λ (x : PageDescription). x.ptr) (sym is)),
          )
      | inr h ↦
          let old =
            sym (get_elem?-set_ne stack {i = i} {j = j} fresh (λ same. ground arith)) ∙ at' in
          let (k, there, lives) = valid.live j q e old named' in
          inr (
            old,
            lt-of_get_elem? heap q there,
            IsLive-append (free_manpage heap p) m q (
                free_manpage-IsLive heap p q
                  (λ same.
                    let q = valid.distinct j i p e d old at (named' ∙ ap some (sym same)) named in
                    ground arith)
                  (k, there, lives)),
          )
    ]

    pub replaced-IsShown : IsShown new_heap (set stack i fresh) (suc i) (some (length heap))
    replaced-IsShown = record {
      stack_valid = record {
        bounded = omega (arith, length-set stack i fresh, lt-of_get_elem? stack i at);
        live = λ j q e at' n. elim (entry j q e at' n) [
          | inl (same, new) ↦ subst (IsLive new_heap) (sym new) (m, fresh-at, alive)
          | inr (old, l, lives) ↦ lives
        ];
        used = λ j e at' l. elim (Bool-cases (j == i)) [
          | inl h ↦
              let same : j ≡ i = ground arith in
              let is : fresh ≡ e = some-injective fresh e (
                sym (get_elem?-set_self stack i fresh (lt-of_get_elem? stack i at))
                ∙ ap (get_elem? (set stack i fresh)) (sym same)
                ∙ at') in
              (length heap, ap (λ (x : PageDescription). x.ptr) (sym is))
          | inr h ↦
              valid.used j e
                (sym (get_elem?-set_ne stack {i = i} {j = j} fresh (λ same. ground arith)) ∙ at') l
        ];
        distinct = λ j k q e f at' at'' n n'. both (entry j q e at' n) (entry k q f at'' n') n n';
      };
      shown = λ j e.
          let same : i ≡ j = omega arith in
          (
            fresh,
            ap (get_elem? (set stack i fresh)) (sym same)
                ∙ get_elem?-set_self stack i fresh (lt-of_get_elem? stack i at),
            refl,
          );
    }
      where
        both :
            {j k q : ℕ} {e f : PageDescription}
            → ((j ≡ i) × (q ≡ length heap))
              ⊎ ((get_elem? stack j ≡ some e) × (q < length heap) × IsLive new_heap q)
            → ((k ≡ i) × (q ≡ length heap))
              ⊎ ((get_elem? stack k ≡ some f) × (q < length heap) × IsLive new_heap q)
            → e.ptr ≡ some q
            → f.ptr ≡ some q
            → j ≡ k
        both (inl (h, n)) (inl (h', n')) a b = h ∙ sym h'
        both (inl (h, n)) (inr (h', l, n')) a b = absurd (omega arith)
        both (inr (h', l, n')) (inl (h, n)) a b = absurd (omega arith)
        both {j} {k} {q} {e} {f} (inr (h, l, n)) (inr (h', l', n')) a b =
            valid.distinct j k q e f h h' a b

-- The page holds the file of the description: its name and directory, the document that the calls of
-- the formatter for that file make, and the links in it.
pub record IsPageOf (platform : Platform) (a : App) (d : PageDescription) (m : Manpage)
    : Type 0 where
  pub named : m.filename ≡ d.filename
  pub directory : m.pwd ≡ d.pwd
  pub events : List Event
  pub formatted : platform.format a.current_line_length a.cwd d.filename ≡ some events
  pub document : Document
  pub made : format_document events ≡ done document
  pub lines_made : m.lines ≡ document.lines
  pub links_found : find_links platform document.lines 0 ≡ done m.links
  pub alive : m.freed ≡ false
  pub at_top : m.scroll_position ≡ pos 0

strcpy-Yields :
    {A : Type 0} (size : ℕ) (s : Bytes) (k : Bytes → Run A) (P : A → Type 0)
    → Yields (k s) P
    → Yields (strcpy size s >>= k) P
strcpy-Yields size s k P y = elim (Bool-cases (ltb (length s) size)) [
  | inl e ↦ rw e y
  | inr e ↦ rw e tt
]

-- The page that `load_manpage` fills in.
abbrev page : PageDescription → Option (Bytes × Bytes) → Document → List Link → Manpage
page d name document links = record {
  manpage_name = elim name [ none ↦ [] | some p ↦ p.0 ];
  manpage_section = elim name [ none ↦ [] | some p ↦ p.1 ];
  filename = d.filename;
  pwd = d.pwd;
  lines = document.lines;
  freed = false;
  scroll_position = pos 0;
  links = links;
  search_start_scroll_position = pos 0;
  search_input_active = false;
  search_string = [];
  search_visible = false;
  searches = replicate max_searches no_recti;
  search_num = 0;
  search_index = pos 0;
}

-- What `load_manpage` returns is the page of the file.
load_manpage-IsPageOf :
    (platform : Platform) (a : App) (d : PageDescription)
    → Yields (load_manpage platform a d.filename (some d.pwd)) (IsPageOf platform a d)
unfolding load_manpage
load_manpage-IsPageOf platform a d =
    elim (Option-cases (platform.format a.current_line_length a.cwd d.filename)) [
      | inl e ↦ rw (load_manpage, e) tt
      | inr (events, e) ↦
          rw (load_manpage, e)
            (strcpy-Yields 1024 d.filename _ _ (
              strcpy-Yields 1024 d.pwd _ _ (
                Yields-bind (get_page_name_and_section d.filename 128 64) _ _
                  (λ name. with_document events e name (format_document events) refl))))
    ]
  where
    with_document :
        (events : List Event)
        → platform.format a.current_line_length a.cwd d.filename ≡ some events
        → (name : Option (Bytes × Bytes)) → (r : Run Document) → format_document events ≡ r
        → Yields
            (r >>= λ document.
              find_links platform document.lines 0 >>= λ links. done (page d name document links))
            (IsPageOf platform a d)
    with_document events e name (exited n) made = tt
    with_document events e name fault made = tt
    with_document events e name (done document) made =
        with_links (find_links platform document.lines 0) refl
      where
        with_links :
            (r : Run (List Link))
            → find_links platform document.lines 0 ≡ r
            → Yields (r >>= λ links. done (page d name document links)) (IsPageOf platform a d)
        with_links (exited n) found = tt
        with_links fault found = tt
        with_links (done links) found = record {
          named = refl;
          directory = refl;
          events = events;
          formatted = e;
          document = document;
          made = made;
          lines_made = refl;
          links_found = found;
          alive = refl;
          at_top = refl;
        }

-- The page shown was loaded again: its entry of the stack has a new page in place of the old one,
-- which is freed, and the new one holds the entry's file.
abbrev pub IsReloaded : Platform → App → ℕ → ℕ → PageDescription → App → Type 0
IsReloaded platform a i p d b =
    IsBrowsing b
    × (b.stack_pos ≡ a.stack_pos)
    × (b.page_stack ≡ set a.page_stack i (record d { ptr = some (length a.heap) }))
    × (b.page ≡ some (length a.heap))
    × ((m : Manpage) × (b.heap ≡ free_manpage a.heap p ++ m ∷ []) × IsPageOf platform a d m)

reload-Returns :
    (platform : Platform) (a : App) (i p : ℕ) (d : PageDescription) (P : App → Type 0)
    → a.stack_pos ≡ suc i
    → get_elem? a.page_stack i ≡ some d
    → d.ptr ≡ some p
    → IsSafe (load_manpage platform a d.filename (some d.pwd))
    → ((m : Manpage)
        → IsPageOf platform a d m
        → Returns
            (show_page platform (record a {
              heap = free_manpage a.heap p ++ m ∷ [];
              page_stack = set a.page_stack i (record d { ptr = some (length a.heap) });
              page = some (length a.heap);
            }))
            P)
    → Returns (reload_current_page platform a) P
unfolding reload_current_page
reload-Returns platform a i p d P now at named loads k =
    let some_page : (a.stack_pos == 0) ≡ false = ground arith in
    let below : a.stack_pos - 1 ≡ i = omega arith in
    rw (some_page, below, at, named)
      (Returns-bind (load_manpage platform a d.filename (some d.pwd)) _ (IsPageOf platform a d) P
        (Returns-of_safe _ _ loads (load_manpage-IsPageOf platform a d)) k)

-- If the page shown loads again without a fault, `reload_current_page` frees it and shows a new page
-- at the same place of the stack. The new page holds the file of its entry: the file's name and
-- directory, the document that the formatter's calls for the file make, and the links of this
-- document. Every other entry of the stack and every other page are left alone.
pub reload_current_page-IsReloaded :
    (platform : Platform) (a : App) (i p : ℕ) (d : PageDescription)
    → IsBrowsing a
    → a.stack_pos ≡ suc i
    → get_elem? a.page_stack i ≡ some d
    → d.ptr ≡ some p
    → IsSafe (load_manpage platform a d.filename (some d.pwd))
    → Returns (reload_current_page platform a) (IsReloaded platform a i p d)
reload_current_page-IsReloaded platform a i p d valid now at named loads =
    let stack = subst (IsStack a.heap a.page_stack) now valid.stack_valid in
    reload-Returns platform a i p d (IsReloaded platform a i p d) now at named loads (λ m is.
      show_page-Returns platform _ (length a.heap) m (IsReloaded platform a i p d) refl
        (fresh-at a.heap a.page_stack i d m p)
        (λ t s q. (
          subst
              (λ n.
                IsShown (new_heap a.heap a.page_stack i d m p)
                  (set a.page_stack i (record d { ptr = some (length a.heap) })) n
                  (some (length a.heap)))
              (sym now) (replaced-IsShown a.heap a.page_stack i d m p stack at named is.alive),
          refl,
          refl,
          refl,
          (m, refl, is),
        )))
