-- ===== src/History/Inv.antt =====
-- The stack of pages holds live pages: what it shows is never a page whose memory is freed.
use mathlib.Core.Option.{some-injective}
use mangl.Prelude.{
  ℕ, zero, suc, ◌+◌, ◌≤◌, ◌<◌, ◌≡◌, ◌≢◌, refl, sym, ap, ◌∙◌, true, false, inl, inr, none, some,
  List, [], ◌∷◌, ◌++◌, arith, length, take, drop, set, get_elem?, length-append, length-set,
  get_elem?-set_self, get_elem?-set_ne, get_elem?-append_left, get_elem?-append_length,
  lt-of_get_elem?, Option-cases,
}
use mangl.App.{Manpage, PageDescription}
use mangl.History.{free_manpage, free_all, forget_all}

-- The page at an address is there, and its spans are not freed.
abbrev pub IsLive : List Manpage → ℕ → Type 0
IsLive heap p = (m : Manpage) × (get_elem? heap p ≡ some m) × (m.freed ≡ false)

-- Every page that the stack names is live, no two entries name the same page, and the entries in
-- use all name one.
pub record IsStack (heap : List Manpage) (stack : List PageDescription) (pos : ℕ) : Type 0 where
  pub bounded : pos ≤ length stack
  pub live :
      (i p : ℕ) (d : PageDescription) → get_elem? stack i ≡ some d → d.ptr ≡ some p → IsLive heap p
  pub used :
      (i : ℕ) (d : PageDescription)
      → get_elem? stack i ≡ some d
      → i < pos
      → (p : ℕ) × (d.ptr ≡ some p)
  pub distinct :
      (i j p : ℕ) (d e : PageDescription)
      → get_elem? stack i ≡ some d
      → get_elem? stack j ≡ some e
      → d.ptr ≡ some p
      → e.ptr ≡ some p
      → i ≡ j

pub get_elem?-drop :
    (n i : ℕ) (ds : List PageDescription) → get_elem? (drop n ds) i ≡ get_elem? ds (n + i)
get_elem?-drop zero i ds = let e : 0 + i ≡ i = omega arith in rw e
get_elem?-drop (suc n) i [] = refl
get_elem?-drop (suc n) i (d ∷ ds) =
    let e : suc n + i ≡ suc (n + i) = omega arith in rw e (get_elem?-drop n i ds)

pub free_manpage-IsLive :
    (heap : List Manpage) (p q : ℕ) → p ≢ q → IsLive heap q → IsLive (free_manpage heap p) q
free_manpage-IsLive heap p q ne (m, at, alive) = elim (Option-cases (get_elem? heap p)) [
  | inl e ↦ rw (e, free_manpage) (m, at, alive)
  | inr (k, e) ↦
      rw (e, free_manpage)
        (m, get_elem?-set_ne heap {i = p} {j = q} (record k { freed = true }) ne ∙ at, alive)
]

-- Freeing the pages of some descriptions leaves every other page live.
pub free_all-IsLive :
    (ds : List PageDescription) (heap : List Manpage) (q : ℕ)
    → ((i : ℕ) (d : PageDescription) → get_elem? ds i ≡ some d → d.ptr ≢ some q)
    → IsLive heap q
    → IsLive (free_all heap ds) q
unfolding free_all
free_all-IsLive [] heap q other l = l
free_all-IsLive (d ∷ ds) heap q other l = elim (Option-cases d.ptr) [
  | inl e ↦ rw e (free_all-IsLive ds heap q (λ i. other (suc i)) l)
  | inr (p, e) ↦ rw e (
      free_all-IsLive ds (free_manpage heap p) q (λ i. other (suc i))
        (free_manpage-IsLive heap p q (λ same. other 0 d refl (e ∙ ap some same)) l))
]

pub IsLive-append :
    (heap : List Manpage) (m : Manpage) (p : ℕ) → IsLive heap p → IsLive (heap ++ m ∷ []) p
IsLive-append heap m p (k, at, alive) =
    (k, get_elem?-append_left heap (m ∷ []) p (lt-of_get_elem? heap p at) ∙ at, alive)

pub IsLive-fresh :
    (heap : List Manpage) (m : Manpage) → m.freed ≡ false → IsLive (heap ++ m ∷ []) (length heap)
IsLive-fresh heap m alive = (m, get_elem?-append_length heap m [], alive)

pub length-free_manpage : (heap : List Manpage) (p : ℕ) → length (free_manpage heap p) ≡ length heap
length-free_manpage heap p = elim (Option-cases (get_elem? heap p)) [
  | inl e ↦ rw (e, free_manpage)
  | inr (k, e) ↦ rw (e, free_manpage) (length-set heap p (record k { freed = true }))
]

pub length-free_all :
    (ds : List PageDescription) (heap : List Manpage) → length (free_all heap ds) ≡ length heap
unfolding free_all
length-free_all [] heap = refl
length-free_all (d ∷ ds) heap = elim (Option-cases d.ptr) [
  | inl e ↦ rw e (length-free_all ds heap)
  | inr (p, e) ↦ rw e (length-free_all ds (free_manpage heap p) ∙ length-free_manpage heap p)
]

-- A stack with a description put at `pos`: what is below stays, what is above names no page.
pub record IsPushed (stack : List PageDescription) (pos : ℕ) (new : PageDescription)
    (stack' : List PageDescription) : Type 0 where
  pub same : (i : ℕ) → i < pos → get_elem? stack' i ≡ get_elem? stack i
  pub top : get_elem? stack' pos ≡ some new
  pub above : (i : ℕ) (d : PageDescription) → pos < i → get_elem? stack' i ≡ some d → d.ptr ≡ none

pub push_end-IsPushed :
    (stack : List PageDescription) (new : PageDescription)
    → IsPushed stack (length stack) new (stack ++ new ∷ [])
push_end-IsPushed stack new = record {
  same = λ i l. get_elem?-append_left stack (new ∷ []) i l;
  top = get_elem?-append_length stack new [];
  above = λ i d l at.
      absurd
        (omega (arith, lt-of_get_elem? (stack ++ new ∷ []) i at, length-append stack (new ∷ [])));
}

length-forget_all : (ds : List PageDescription) → length (forget_all ds) ≡ length ds
unfolding forget_all
length-forget_all [] = refl
length-forget_all (d ∷ ds) = ap suc (length-forget_all ds)

forget_all-ptr :
    (ds : List PageDescription) (i : ℕ) (d : PageDescription)
    → get_elem? (forget_all ds) i ≡ some d
    → d.ptr ≡ none
unfolding forget_all
forget_all-ptr [] i d at = absurd (cc)
forget_all-ptr (e ∷ ds) zero d at =
    ap (λ (x : PageDescription). x.ptr) (sym (some-injective (record e { ptr = none }) d at))
forget_all-ptr (e ∷ ds) (suc i) d at = forget_all-ptr ds i d at

-- The stack with its upper part forgotten.
cut-same :
    (stack : List PageDescription) (pos i : ℕ)
    → i < pos
    → pos ≤ length stack
    → get_elem? (take pos stack ++ forget_all (drop pos stack)) i ≡ get_elem? stack i
cut-same stack zero i l h = absurd (omega arith)
cut-same [] (suc pos) i l h = absurd (omega arith)
cut-same (d ∷ stack) (suc pos) zero l h = refl
cut-same (d ∷ stack) (suc pos) (suc i) l h = cut-same stack pos i (omega arith) (omega arith)

cut-above :
    (stack : List PageDescription) (pos i : ℕ) (d : PageDescription)
    → pos ≤ i
    → get_elem? (take pos stack ++ forget_all (drop pos stack)) i ≡ some d
    → d.ptr ≡ none
unfolding forget_all
cut-above stack zero i d l at = forget_all-ptr stack i d at
cut-above [] (suc pos) i d l at = absurd (cc)
cut-above (e ∷ stack) (suc pos) zero d l at = absurd (omega arith)
cut-above (e ∷ stack) (suc pos) (suc i) d l at = cut-above stack pos i d (omega arith) at

length-cut :
    (stack : List PageDescription) (pos : ℕ)
    → length (take pos stack ++ forget_all (drop pos stack)) ≡ length stack
unfolding forget_all
length-cut stack zero = length-forget_all stack
length-cut [] (suc pos) = refl
length-cut (d ∷ stack) (suc pos) = ap suc (length-cut stack pos)

pub push_cut-IsPushed :
    (stack : List PageDescription) (pos : ℕ) (new : PageDescription)
    → pos < length stack
    → IsPushed stack pos new (set (take pos stack ++ forget_all (drop pos stack)) pos new)
push_cut-IsPushed stack pos new l =
    let cut = take pos stack ++ forget_all (drop pos stack) in
    record {
      same = λ i h.
          get_elem?-set_ne cut {i = pos} {j = i} new (λ e. omega arith)
          ∙ cut-same stack pos i h (omega arith);
      top = get_elem?-set_self cut pos new (omega (arith, length-cut stack pos));
      above = λ i d h at.
          cut-above stack pos i d (omega arith)
            (sym (get_elem?-set_ne cut {i = pos} {j = i} new (λ e. omega arith)) ∙ at);
    }
