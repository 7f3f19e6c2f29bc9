-- ===== src/Session/Kept.antt =====
-- The invariant of a session, and the steps that keep it because they leave the stack of pages alone.
use mathlib.Core.Option.{some-injective}
use mangl.Prelude.{
  ℕ, ◌<◌, ◌≡◌, refl, sym, ap, subst, ◌∙◌, Bool, true, false, inl, inr, Option, none, some, List,
  arith, ◌==◌, if◌then◌else◌, get_elem?, set, Bool-cases, get_elem?-set_self, get_elem?-set_ne,
  lt-of_get_elem?,
}
use mangl.Run.{Run, done, exited, fault, deref, ◌>>=◌, Yields}
use mangl.App.{App, Manpage, PageDescription, d_manpage, the_page, put_page, post_redisplay}
use mangl.History.Inv.{IsLive, IsStack}
use mangl.History.Stack.{IsBrowsing}

-- The stack names live pages and shows the one below its position, and while a page is displayed
-- there is one.
pub record IsSession (a : App) : Type 0 where
  pub browsing : IsBrowsing a
  pub shows : a.display_mode ≡ d_manpage → 0 < a.stack_pos

-- The same stack, page and mode, and no page freed.
pub record Kept (a b : App) : Type 0 where
  pub stack : b.page_stack ≡ a.page_stack
  pub position : b.stack_pos ≡ a.stack_pos
  pub page : b.page ≡ a.page
  pub mode : b.display_mode ≡ a.display_mode
  pub alive : (p : ℕ) → IsLive a.heap p → IsLive b.heap p

pub Kept-refl : (a : App) → Kept a a
Kept-refl a = record { stack = refl; position = refl; page = refl; mode = refl; alive = λ p l. l }

pub Kept-trans : {a b c : App} → Kept a b → Kept b c → Kept a c
Kept-trans h k = record {
  stack = k.stack ∙ h.stack;
  position = k.position ∙ h.position;
  page = k.page ∙ h.page;
  mode = k.mode ∙ h.mode;
  alive = λ p l. k.alive p (h.alive p l);
}

IsStack-alive :
    {heap heap' : List Manpage} (stack : List PageDescription) (pos : ℕ)
    → ((p : ℕ) → IsLive heap p → IsLive heap' p)
    → IsStack heap stack pos
    → IsStack heap' stack pos
IsStack-alive stack n alive is = record {
  bounded = is.bounded;
  live = λ i p d at named. alive p (is.live i p d at named);
  used = is.used;
  distinct = is.distinct;
}

pub IsSession-Kept : {a b : App} → IsSession a → Kept a b → IsSession b
IsSession-Kept {a} {b} is kept = record {
  browsing = record {
    stack_valid =
        subst (λ s. IsStack b.heap s b.stack_pos) (sym kept.stack)
          (subst (IsStack b.heap a.page_stack) (sym kept.position)
            (IsStack-alive a.page_stack a.stack_pos kept.alive is.browsing.stack_valid));
    shown = λ i e.
        let (d, at, named) = is.browsing.shown i (sym kept.position ∙ e) in
        (d, ap (λ s. get_elem? s i) kept.stack ∙ at, named ∙ sym kept.page);
  };
  shows = λ e. subst (λ n. 0 < n) (sym kept.position) (is.shows (sym kept.mode ∙ e));
}

-- A step, with what holds behind it.
pub Yields-then :
    {A B : Type 0} (m : Run A) (f : A → Run B) (Q : A → Type 0) (P : B → Type 0)
    → Yields m Q
    → ((x : A) → Q x → Yields (f x) P)
    → Yields (m >>= f) P
Yields-then (done x) f Q P h k = k x h
Yields-then (exited n) f Q P h k = tt
Yields-then fault f Q P h k = tt

pub Yields-if :
    {A : Type 0} (b : Bool) (x y : Run A) (P : A → Type 0)
    → Yields x P
    → Yields y P
    → Yields (if b then x else y) P
Yields-if true x y P h k = h
Yields-if false x y P h k = k

pub Yields-weaken :
    {A : Type 0} (m : Run A) (P Q : A → Type 0) → ((x : A) → P x → Q x) → Yields m P → Yields m Q
Yields-weaken (done x) P Q f h = f x h
Yields-weaken (exited n) P Q f h = tt
Yields-weaken fault P Q f h = tt

-- The page that is shown.
abbrev pub IsPage : App → Manpage → Type 0
IsPage a m = (p : ℕ) × (a.page ≡ some p) × (get_elem? a.heap p ≡ some m)

pub the_page-IsPage : (a : App) → Yields (the_page a) (IsPage a)
the_page-IsPage a = page_at a.page refl
  where
    found :
        (p : ℕ)
        → a.page ≡ some p
        → (o : Option Manpage) → get_elem? a.heap p ≡ o
        → Yields (deref o) (IsPage a)
    found p e none f = tt
    found p e (some m) f = (p, e, f)

    page_at :
        (o : Option ℕ)
        → a.page ≡ o
        → Yields (elim o [ none ↦ fault | some p ↦ deref (get_elem? a.heap p) ]) (IsPage a)
    page_at none e = tt
    page_at (some p) e = found p e (get_elem? a.heap p) refl

-- A write to the page that does not free it.
pub put_page-Kept :
    (a : App) (m m' : Manpage) → IsPage a m → m'.freed ≡ m.freed → Kept a (put_page a m')
put_page-Kept a m m' (p, at, here) same =
    rw at (record { stack = refl; position = refl; page = refl; mode = refl; alive = alive })
  where
    alive : (q : ℕ) → IsLive a.heap q → IsLive (set a.heap p m') q
    alive q (k, at', l) = elim (Bool-cases (p == q)) [
      | inl e ↦
          let one : p ≡ q = ground arith in
          let is : m ≡ k = some-injective m k (sym here ∙ ap (get_elem? a.heap) one ∙ at') in
          (
            m',
            ap (get_elem? (set a.heap p m')) (sym one)
                ∙ get_elem?-set_self a.heap p m' (lt-of_get_elem? a.heap p here),
            same ∙ ap (λ (x : Manpage). x.freed) is ∙ l,
          )
      | inr e ↦ (k, get_elem?-set_ne a.heap {i = p} {j = q} m' (λ s. ground arith) ∙ at', l)
    ]

-- A step on the page.
pub on_page :
    {B : Type 0} (a : App) (f : Manpage → Run B) (P : B → Type 0)
    → ((m : Manpage) → IsPage a m → Yields (f m) P)
    → Yields (the_page a >>= f) P
on_page a f P k = Yields-then (the_page a) f (IsPage a) P (the_page-IsPage a) k

pub post_redisplay-Kept : {a b : App} → Kept a b → Kept a (post_redisplay b)
unfolding post_redisplay
post_redisplay-Kept h = record {
  stack = h.stack;
  position = h.position;
  page = h.page;
  mode = h.mode;
  alive = h.alive;
}
