-- ===== src/History/Push.antt =====
-- A page that is pushed onto the stack of pages.
use mathlib.Core.Option.{some-injective}
use mangl.Prelude.{
  ℕ, ◌+◌, ◌<◌, ◌≡◌, sym, ap, subst, ◌∙◌, ◌⊎◌, inl, inr, some, List, arith, ltb, get_elem?,
  Bool-cases, lt-of_get_elem?,
}
use mangl.App.{Manpage, PageDescription}
use mangl.History.Inv.{IsLive, IsStack, IsPushed}

-- A page pushed onto the stack, at an address that no page below has.
module _ (heap' : List Manpage) {heap : List Manpage} {stack stack' : List PageDescription}
    {pos fresh : ℕ} {new : PageDescription} (valid : IsStack heap stack pos)
    (pushed : IsPushed stack pos new stack') (named : new.ptr ≡ some fresh)
    (alive : IsLive heap' fresh)
    (kept : (i p : ℕ) (d : PageDescription)
      → i < pos
      → get_elem? stack i ≡ some d
      → d.ptr ≡ some p
      → IsLive heap' p × (p < fresh)) where
  -- Where an entry of the new stack that names a page stands.
  place :
      (i p : ℕ) (d : PageDescription)
      → get_elem? stack' i ≡ some d
      → d.ptr ≡ some p
      → ((i < pos) × (get_elem? stack i ≡ some d)) ⊎ ((i ≡ pos) × (p ≡ fresh))
  place i p d at e = elim (Bool-cases (ltb i pos)) [
    | inl l ↦ inl (ground arith, sym (pushed.same i (ground arith)) ∙ at)
    | inr l ↦ elim (Bool-cases (ltb pos i)) [
      | inl h ↦ absurd (cc (pushed.above i d (ground arith) at))
      | inr h ↦
          let same : i ≡ pos = ground arith in
          let new_is : new ≡ d =
            some-injective new d (sym pushed.top ∙ ap (get_elem? stack') (sym same) ∙ at) in
          inr (
            same,
            some-injective p fresh
                (sym e ∙ ap (λ (x : PageDescription). x.ptr) (sym new_is) ∙ named),
          )
    ]
  ]

  pub push-IsStack : IsStack heap' stack' (pos + 1)
  push-IsStack = record {
    bounded = omega (arith, lt-of_get_elem? stack' pos pushed.top);
    live = λ i p d at e. elim (place i p d at e) [
      | inl (l, old) ↦ (kept i p d l old e).0
      | inr (l, q) ↦ subst (IsLive heap') (sym q) alive
    ];
    used = λ i d at l. elim (Bool-cases (ltb i pos)) [
      | inl h ↦ valid.used i d (sym (pushed.same i (ground arith)) ∙ at) (ground arith)
      | inr h ↦
          let same : i ≡ pos = ground arith in
          let new_is : new ≡ d =
            some-injective new d (sym pushed.top ∙ ap (get_elem? stack') (sym same) ∙ at) in
          (fresh, ap (λ (x : PageDescription). x.ptr) (sym new_is) ∙ named)
    ];
    distinct = λ i j p d e at at' q q'. both (place i p d at q) (place j p e at' q') q q';
  }
    where
      both :
          {i j p : ℕ} {d e : PageDescription}
          → ((i < pos) × (get_elem? stack i ≡ some d)) ⊎ ((i ≡ pos) × (p ≡ fresh))
          → ((j < pos) × (get_elem? stack j ≡ some e)) ⊎ ((j ≡ pos) × (p ≡ fresh))
          → d.ptr ≡ some p
          → e.ptr ≡ some p
          → i ≡ j
      both {i} {j} {p} {d} {e} (inl (l, a)) (inl (h, b)) q q' = valid.distinct i j p d e a b q q'
      both {i} {j} {p} {d} {e} (inl (l, a)) (inr (h, b)) q q' =
          absurd (omega (arith, (kept i p d l a q).1))
      both {i} {j} {p} {d} {e} (inr (l, a)) (inl (h, b)) q q' =
          absurd (omega (arith, (kept j p e h b q').1))
      both (inr (l, a)) (inr (h, b)) q q' = omega arith
