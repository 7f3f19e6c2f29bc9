-- ===== src/HashMap/Write.antt =====
-- A write to the place that was found for a key.
use mangl.Prelude.{
  ℕ, zero, suc, ◌+◌, ◌/◌, ◌%◌, ◌<◌, ◌≡◌, ◌≢◌, refl, sym, ap, subst, ◌∙◌, true, false, ◌⊎◌, inl, inr,
  some, List, [], ◌∷◌, arith, ◌==◌, if◌then◌else◌, get_elem?, set, Bytes, Bool-cases,
  lt-of_get_elem?, length-set, get_elem?-set_self, get_elem?-set_ne,
}
use mathlib.Core.Option.{some-injective}
use mangl.Run.{done, deref, ◌>>=◌}
use mangl.HashMap.{HashMap, Element, write_element, write_at, linear_probe_length}
use mangl.HashMap.Keys.{
  entry, IsElement, IsElement-cases, entry-write_element, write_element-IsElement,
}
use mangl.HashMap.Probe.{At, IsUsed, Reaches, count_used, AreElements, IsValid, IsPlace, home}

module _ {V : Type 0} where
  -- The map holds the value for the key.
  abbrev pub Stored : HashMap V → Bytes → V → Type 0
  Stored m q v = (j : ℕ) × At m.elements j q v

  -- The new map is the old one with one key set.
  pub record Writes (m : HashMap V) (q : Bytes) (v : V) (m' : HashMap V) : Type 0 where
    pub new : Stored m' q v
    pub old : (k : Bytes) (w : V) → Stored m' k w → ((k ≡ q) × (w ≡ v)) ⊎ ((k ≢ q) × Stored m k w)
    pub kept : (k : Bytes) (w : V) → k ≢ q → Stored m k w → Stored m' k w

  pub At_eq :
      (els : List (Element V)) (i : ℕ) (k q : Bytes) (v w : V)
      → At els i k v
      → At els i q w
      → (k ≡ q) × (v ≡ w)
  At_eq els i k q v w (el, at, is) (el', at', is') =
      let one : el ≡ el' = some-injective el el' (sym at ∙ at') in
      let both : (k, v) ≡ (q, w) = some-injective (k, v) (q, w) (sym is ∙ ap entry one ∙ is') in
      (ap (λ (x : Bytes × V). x.0) both, ap (λ (x : Bytes × V). x.1) both)

  count_used-set :
      (els : List (Element V)) (i : ℕ) (el new : Element V)
      → get_elem? els i ≡ some el
      → new.in_use ≡ true
      → count_used (set els i new) ≡ (if el.in_use then count_used els else count_used els + 1)
  unfolding count_used
  count_used-set [] i el new at e = absurd (cc)
  count_used-set (x ∷ els) zero el new at e =
      let one : x ≡ el = some-injective x el at in
      let used : x.in_use ≡ el.in_use = ap (λ (y : Element V). y.in_use) one in ground arith
  count_used-set (x ∷ els) (suc i) el new at e = ground (arith, count_used-set els i el new at e)

  module _ (m : HashMap V) (valid : IsValid m) (q : Bytes) (v : V) (i : ℕ) (el : Element V)
      (at : get_elem? m.elements i ≡ some el)
      (place : IsPlace m q linear_probe_length (home m.table_size q) (some i)) where
    abbrev written : HashMap V
    written = record m {
      elements = set m.elements i (write_element el q v);
      size = if el.in_use then m.size else m.size + 1;
    }

    pub write_at-done : write_at m i q v ≡ done written
    unfolding write_at
    write_at-done =
        ap
          (λ o. deref o >>= λ (x : Element V). done (record m {
            elements = set m.elements i (write_element x q v);
            size = if x.in_use then m.size else m.size + 1;
          }))
          at

    self : get_elem? written.elements i ≡ some (write_element el q v)
    self = get_elem?-set_self m.elements i (write_element el q v) (lt-of_get_elem? m.elements i at)

    other : (j : ℕ) → j ≢ i → get_elem? written.elements j ≡ get_elem? m.elements j
    other j ne =
        get_elem?-set_ne m.elements {i = i} {j = j} (write_element el q v) (λ e. ne (sym e))

    here : At written.elements i q v
    here = (write_element el q v, self, entry-write_element el q v)

    -- An entry of the new table is the new one, or an old one elsewhere with another key.
    At-cases :
        (j : ℕ) (k : Bytes) (w : V)
        → At written.elements j k w
        → ((j ≡ i) × (k ≡ q) × (w ≡ v)) ⊎ ((k ≢ q) × At m.elements j k w)
    At-cases j k w found = elim (Bool-cases (j == i)) [
      | inl e ↦
          let same : j ≡ i = ground arith in
          let both =
            At_eq written.elements i k q w v (subst (λ n. At written.elements n k w) same found)
              here in
          inl (same, both.0, both.1)
      | inr e ↦
          let ne : j ≢ i = λ s. ground arith in
          let before : At m.elements j k w = (found.0, sym (other j ne) ∙ found.1, found.2) in
          inr (
            (λ same. ne (
                place.2 j w (subst (λ s. At m.elements j s w) same before)
                  (valid.reachable j q w (subst (λ s. At m.elements j s w) same before)))),
            before,
          )
    ]

    -- An entry with another key stays.
    At-kept : (j : ℕ) (k : Bytes) (w : V) → k ≢ q → At m.elements j k w → At written.elements j k w
    At-kept j k w ne found = elim (Bool-cases (j == i)) [
      | inl e ↦
          let same : j ≡ i = ground arith in
          let moved = subst (λ n. At m.elements n k w) same found in
          elim place.3 [
            | inl (x, at', free) ↦ elim (IsElement-cases x (valid.formed i x at')) [
              | inl (u, nothing) ↦
                  let one : moved.0 ≡ x = some-injective moved.0 x (sym moved.1 ∙ at') in
                  absurd (cc (sym moved.2 ∙ ap entry one ∙ nothing))
              | inr (u, more) ↦ absurd (cc (sym u ∙ free))
            ]
            | inr (w', is) ↦ absurd (ne (At_eq m.elements i k q w w' moved is).0)
          ]
      | inr e ↦ (found.0, other j (λ s. ground arith) ∙ found.1, found.2)
    ]

    IsUsed-kept : (j : ℕ) → IsUsed m.elements j → IsUsed written.elements j
    unfolding write_element
    IsUsed-kept j (x, at', u) = elim (Bool-cases (j == i)) [
      | inl e ↦
          let same : i ≡ j = ground arith in
          (write_element el q v, ap (get_elem? written.elements) (sym same) ∙ self, refl)
      | inr e ↦ (x, other j (λ s. ground arith) ∙ at', u)
    ]

    Reaches-kept :
        (rounds curr j : ℕ)
        → Reaches m.table_size m.elements rounds curr j
        → Reaches m.table_size written.elements rounds curr j
    Reaches-kept zero curr j r = r
    Reaches-kept (suc rounds) curr j (inl same) = inl same
    Reaches-kept (suc rounds) curr j (inr (used, more)) =
        inr (IsUsed-kept curr used, Reaches-kept rounds ((curr + 1) % m.table_size) j more)

    written-formed : AreElements written.elements
    written-formed j x at' = elim (Bool-cases (j == i)) [
      | inl e ↦
          let same : i ≡ j = ground arith in
          let one : write_element el q v ≡ x =
            some-injective (write_element el q v) x
              (sym self ∙ ap (get_elem? written.elements) same ∙ at') in
          subst IsElement one (write_element-IsElement el q v)
      | inr e ↦ valid.formed j x (sym (other j (λ s. ground arith)) ∙ at')
    ]

    written-reachable :
        (j : ℕ) (k : Bytes) (w : V)
        → At written.elements j k w
        → Reaches m.table_size written.elements linear_probe_length (home m.table_size k) j
    written-reachable j k w found = elim (At-cases j k w found) [
      | inl (same, key, value) ↦
          subst
            (λ s. Reaches m.table_size written.elements linear_probe_length (home m.table_size s) j)
            (sym key)
            (subst
              (λ n.
                Reaches m.table_size written.elements linear_probe_length (home m.table_size q) n)
              (sym same) (Reaches-kept linear_probe_length (home m.table_size q) i place.1))
      | inr (ne, before) ↦
          Reaches-kept linear_probe_length (home m.table_size k) j (valid.reachable j k w before)
    ]

    pub written-IsValid : (el.in_use ≡ false → m.size < m.table_size / 2) → IsValid written
    unfolding write_element
    written-IsValid room = record {
      loaded = elim (Bool-cases el.in_use) [
        | inl e ↦ rw e valid.loaded
        | inr e ↦ rw e (let l = room e in omega arith)
      ];
      sized = length-set m.elements i (write_element el q v) ∙ valid.sized;
      positive = valid.positive;
      formed = written-formed;
      unique = λ j j' k w w' a b. elim (At-cases j k w a) [
        | inl (same, key, value) ↦ elim (At-cases j' k w' b) [
          | inl (same', key', value') ↦ same ∙ sym same'
          | inr (ne, before) ↦ absurd (ne key)
        ]
        | inr (ne, before) ↦ elim (At-cases j' k w' b) [
          | inl (same', key', value') ↦ absurd (ne key')
          | inr (ne', before') ↦ valid.unique j j' k w w' before before'
        ]
      ];
      reachable = written-reachable;
      counted =
          ap (λ n. if el.in_use then n else n + 1) valid.counted
          ∙ sym (count_used-set m.elements i el (write_element el q v) at refl);
    }

    pub written-Writes : Writes m q v written
    written-Writes = record {
      new = (i, here);
      old = λ k w (j, found). elim (At-cases j k w found) [
        | inl (same, key, value) ↦ inl (key, value)
        | inr (ne, before) ↦ inr (ne, (j, before))
      ];
      kept = λ k w ne (j, found). (j, At-kept j k w ne found);
    }
