-- ===== src/HashMap/Freed.antt =====
-- `hashmap_remove` frees the place of a key, which is then the first that the probes for the key find.
use mangl.Prelude.{
  ℕ, zero, suc, ◌-◌, ◌<◌, ◌≡◌, ◌≢◌, refl, sym, ap, subst, ◌∙◌, Bool, true, false, not, ◌||◌, inl,
  inr, some, List, [], ◌∷◌, arith, ltb, ◌==◌, get_elem?, set, Bytes, Bool-cases, lt-of_get_elem?,
  get_elem?-set_self, get_elem?-set_ne,
}
use mathlib.Core.Option.{some-injective}
use mangl.Run.{done, deref, ◌>>=◌}
use mangl.HashMap.{
  HashMap, Element, has_key, next, key_static_length, clear_element, write_element, find_place,
  remove_probe,
}
use mangl.HashMap.Keys.{
  entry, IsElement, holds_key, has_key-holds_key, holds_key-entry, entry-holds_key,
}
use mangl.HashMap.Probe.{Reaches, count_used, IsValid, find_place_step}

or_false : (u h : Bool) → u ≡ true → h ≡ false → (not u || h) ≡ false
or_false u h e f = rw (e, f) refl

module _ {V : Type 0} where
  pub set-set :
      (els : List (Element V)) (i : ℕ) (a b : Element V) → set (set els i a) i b ≡ set els i b
  set-set [] i a b = refl
  set-set (x ∷ els) zero a b = refl
  set-set (x ∷ els) (suc i) a b = ap (λ t. x ∷ t) (set-set els i a b)

  -- Writing a key of any length to a cleared element forgets what stood there.
  pub write_clear :
      (el : Element V) (q : Bytes) (v : V)
      → write_element (clear_element el) q v ≡ write_element el q v
  unfolding write_element clear_element
  write_clear el q v = elim (Bool-cases (ltb key_static_length el.key_length)) [
    | inl e ↦ rw e refl
    | inr e ↦ rw e refl
  ]

  pub count_used-positive :
      (els : List (Element V)) (i : ℕ) (el : Element V)
      → get_elem? els i ≡ some el
      → el.in_use ≡ true
      → 0 < count_used els
  unfolding count_used
  count_used-positive [] i el at e = absurd (cc)
  count_used-positive (x ∷ els) zero el at e =
      let used : x.in_use ≡ true = ap (λ (y : Element V). y.in_use) (some-injective x el at) ∙ e in
      rw used (omega arith)
  count_used-positive (x ∷ els) (suc i) el at e = ground (arith, count_used-positive els i el at e)

  remove_probe_step :
      (m : HashMap V) (q : Bytes) (rounds curr : ℕ) (el : Element V) (b : Bool)
      → get_elem? m.elements curr ≡ some el
      → IsElement el
      → holds_key el q ≡ b
      → remove_probe m q (suc rounds) curr ≡ (elim b [
        | true ↦ done (
          record m { elements = set m.elements curr (clear_element el); size = m.size - 1 },
          true,
        )
        | false ↦ remove_probe m q rounds (next m curr)
      ])
  unfolding remove_probe
  remove_probe_step m q rounds curr el b at formed e =
      ap
        (λ o. deref o >>= λ (x : Element V). has_key x q >>= λ same. elim same [
          | true ↦ done (
            record m { elements = set m.elements curr (clear_element x); size = m.size - 1 },
            true,
          )
          | false ↦ remove_probe m q rounds (next m curr)
        ])
        at
      ∙ ap
          (λ r. r >>= λ same. elim same [
            | true ↦ done (
              record m { elements = set m.elements curr (clear_element el); size = m.size - 1 },
              true,
            )
            | false ↦ remove_probe m q rounds (next m curr)
          ])
          (has_key-holds_key el q formed)
      ∙ ap
          (λ t. elim t [
            | true ↦ done (
              record m { elements = set m.elements curr (clear_element el); size = m.size - 1 },
              true,
            )
            | false ↦ remove_probe m q rounds (next m curr)
          ])
          e

  module _ (m : HashMap V) (valid : IsValid m) (q : Bytes) (w : V) (i : ℕ) (el : Element V)
      (at : get_elem? m.elements i ≡ some el) (is : entry el ≡ some (q, w)) where
    -- The map after the removal.
    abbrev pub removed : HashMap V
    removed = record m { elements = set m.elements i (clear_element el); size = m.size - 1 }

    pub el_has : holds_key el q ≡ true
    el_has = (entry-holds_key el q w (valid.formed i el at) is).0

    pub cleared : get_elem? removed.elements i ≡ some (clear_element el)
    cleared = get_elem?-set_self m.elements i (clear_element el) (lt-of_get_elem? m.elements i at)

    pub other : (j : ℕ) → j ≢ i → get_elem? removed.elements j ≡ get_elem? m.elements j
    other j ne = get_elem?-set_ne m.elements {i = i} {j = j} (clear_element el) (λ e. ne (sym e))

    pub clear_element-free : (k : Bytes) → holds_key (clear_element el) k ≡ false
    unfolding clear_element
    clear_element-free k = refl

    -- Only this element has the key.
    pub holds_key_only :
        (j : ℕ) (x : Element V) → get_elem? m.elements j ≡ some x → j ≢ i → holds_key x q ≡ false
    holds_key_only j x at' ne = elim (Bool-cases (holds_key x q)) [
      | inl h ↦
          let (v, is', value) = holds_key-entry x q (valid.formed j x at') h in
          absurd (ne (valid.unique j i q v w (x, at', is') (el, at, is)))
      | inr h ↦ h
    ]

    remove_probe-here :
        (rounds curr : ℕ) → i ≡ curr → remove_probe m q (suc rounds) curr ≡ done (removed, true)
    remove_probe-here rounds curr same =
        subst (λ n. remove_probe m q (suc rounds) n ≡ done (removed, true)) same
          (remove_probe_step m q rounds i el true at (valid.formed i el at) el_has)

    pub remove_probe-Reaches :
        (rounds curr : ℕ)
        → Reaches m.table_size m.elements rounds curr i
        → remove_probe m q rounds curr ≡ done (removed, true)
    remove_probe-Reaches zero curr r = absurd r
    remove_probe-Reaches (suc rounds) curr (inl same) = remove_probe-here rounds curr same
    remove_probe-Reaches (suc rounds) curr (inr ((x, at', u), more)) =
        elim (Bool-cases (i == curr)) [
          | inl e ↦ remove_probe-here rounds curr (ground arith)
          | inr e ↦
              remove_probe_step m q rounds curr x false at' (valid.formed curr x at')
                (holds_key_only curr x at' (λ s. ground arith))
              ∙ remove_probe-Reaches rounds (next m curr) more
        ]

    find_place-here :
        (rounds curr : ℕ) → i ≡ curr → find_place removed q (suc rounds) curr ≡ done (some i)
    unfolding clear_element
    find_place-here rounds curr same =
        subst (λ n. find_place removed q (suc rounds) n ≡ done (some i)) same
          (find_place_step removed q rounds i (clear_element el) true cleared (inl refl) refl)

    -- The freed place is the first that the probes find.
    pub find_place-Reaches :
        (rounds curr : ℕ)
        → Reaches m.table_size m.elements rounds curr i
        → find_place removed q rounds curr ≡ done (some i)
    find_place-Reaches zero curr r = absurd r
    find_place-Reaches (suc rounds) curr (inl same) = find_place-here rounds curr same
    find_place-Reaches (suc rounds) curr (inr ((x, at', u), more)) = elim (Bool-cases (i == curr)) [
      | inl e ↦ find_place-here rounds curr (ground arith)
      | inr e ↦
          let ne : curr ≢ i = λ s. ground arith in
          let free : (not x.in_use || holds_key x q) ≡ false =
            or_false x.in_use (holds_key x q) u (holds_key_only curr x at' ne) in
          find_place_step removed q rounds curr x false (other curr ne ∙ at')
            (valid.formed curr x at') free
          ∙ find_place-Reaches rounds (next m curr) more
    ]
