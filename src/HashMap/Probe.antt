-- ===== src/HashMap/Probe.antt =====
-- The probes of hashmap.c find a key where it is, and else the place for it.
use mangl.Prelude.{
  ℕ, zero, suc, ◌+◌, ◌/◌, ◌%◌, ◌≤◌, ◌<◌, ◌≡◌, refl, sym, ap, ◌∙◌, Bool, true, false, not, ◌||◌, ◌⊎◌,
  inl, inr, Option, none, some, List, [], ◌∷◌, arith, if◌then◌else◌, length, get_elem?, Bytes,
  Bool-cases, get_elem?-lt,
}
use mathlib.Core.Option.{some-injective}
use mangl.Run.{done, deref, ◌>>=◌}
use mangl.Crc.Step.{crc32-done}
use mangl.HashMap.{HashMap, Element, has_key, next, mix, find_place, get_probe, linear_probe_length}
use mangl.HashMap.Keys.{
  entry, holds_key, has_key-holds_key, IsElement, IsElement-cases, holds_key-entry, entry-holds_key,
}

-- Where the probes for a key begin in a table of `n` elements.
unfoldable pub home : ℕ → Bytes → ℕ
home n q = mix (crc32-done q).0 % n

module _ {V : Type 0} where
  -- The element at an index has a key and a value.
  abbrev pub At : List (Element V) → ℕ → Bytes → V → Type 0
  At els i q v = (el : Element V) × (get_elem? els i ≡ some el) × (entry el ≡ some (q, v))

  abbrev pub IsUsed : List (Element V) → ℕ → Type 0
  IsUsed els i = (el : Element V) × (get_elem? els i ≡ some el) × (el.in_use ≡ true)

  -- So many probes from `curr` come to `i`, and all elements before it are in use.
  abbrev pub Reaches : ℕ → List (Element V) → ℕ → ℕ → ℕ → Type 0
  Reaches n els zero curr i = ⊥
  Reaches n els (suc rounds) curr i =
      (i ≡ curr) ⊎ (IsUsed els curr × Reaches n els rounds ((curr + 1) % n) i)

  unfoldable pub count_used : List (Element V) → ℕ
  count_used [] = 0
  count_used (el ∷ els) = if el.in_use then suc (count_used els) else count_used els

  abbrev pub AreElements : List (Element V) → Type 0
  AreElements els = (i : ℕ) (el : Element V) → get_elem? els i ≡ some el → IsElement el

  abbrev pub IsUnique : List (Element V) → Type 0
  IsUnique els = (i j : ℕ) (q : Bytes) (v w : V) → At els i q v → At els j q w → i ≡ j

  -- The table has its size, no key twice, each key within the probes from its home, as many
  -- elements in use as are counted, and no more than half of them.
  pub record IsValid (m : HashMap V) : Type 0 where
    pub sized : length m.elements ≡ m.table_size
    pub positive : 0 < m.table_size
    pub formed : AreElements m.elements
    pub unique : IsUnique m.elements
    pub reachable :
        (i : ℕ) (q : Bytes) (v : V)
        → At m.elements i q v
        → Reaches m.table_size m.elements linear_probe_length (home m.table_size q) i
    pub counted : m.size ≡ count_used m.elements
    pub loaded : m.size ≤ m.table_size / 2

  -- What the search for the place of a key finds.
  abbrev pub IsPlace : HashMap V → Bytes → ℕ → ℕ → Option ℕ → Type 0
  IsPlace m q rounds curr none =
      (j : ℕ) (v : V) → At m.elements j q v → Reaches m.table_size m.elements rounds curr j → ⊥
  IsPlace m q rounds curr (some i) =
      (i < m.table_size)
      × Reaches m.table_size m.elements rounds curr i
      × ((j : ℕ) (v : V)
          → At m.elements j q v
          → Reaches m.table_size m.elements rounds curr j
          → j ≡ i)
      × (((el : Element V) × (get_elem? m.elements i ≡ some el) × (el.in_use ≡ false))
          ⊎ ((v : V) × At m.elements i q v))

  -- What a lookup finds.
  abbrev pub IsFound : HashMap V → Bytes → ℕ → ℕ → Option V → Type 0
  IsFound m q rounds curr none =
      (j : ℕ) (v : V) → At m.elements j q v → Reaches m.table_size m.elements rounds curr j → ⊥
  IsFound m q rounds curr (some v) = (j : ℕ) × At m.elements j q v

  module _ (m : HashMap V) (q : Bytes) where
    -- One round, on the element that it reads.
    pub find_place_step :
        (rounds curr : ℕ) (el : Element V) (b : Bool)
        → get_elem? m.elements curr ≡ some el
        → IsElement el
        → (not el.in_use || holds_key el q) ≡ b
        → find_place m q (suc rounds) curr
          ≡ (elim b [ true ↦ done (some curr) | false ↦ find_place m q rounds (next m curr) ])
    unfolding find_place
    find_place_step rounds curr el b at formed e =
        ap
          (λ o. deref o >>= λ (x : Element V). has_key x q >>= λ same. elim (not x.in_use || same) [
            | true ↦ done (some curr)
            | false ↦ find_place m q rounds (next m curr)
          ])
          at
        ∙ ap
            (λ r. r >>= λ same. elim (not el.in_use || same) [
              | true ↦ done (some curr)
              | false ↦ find_place m q rounds (next m curr)
            ])
            (has_key-holds_key el q formed)
        ∙ ap (λ t. elim t [ true ↦ done (some curr) | false ↦ find_place m q rounds (next m curr) ])
            e

    pub get_probe_step :
        (rounds curr : ℕ) (el : Element V) (b : Bool)
        → get_elem? m.elements curr ≡ some el
        → IsElement el
        → holds_key el q ≡ b
        → get_probe m q (suc rounds) curr
          ≡ (elim b [ true ↦ done el.value | false ↦ get_probe m q rounds (next m curr) ])
    unfolding get_probe
    get_probe_step rounds curr el b at formed e =
        ap
          (λ o. deref o >>= λ (x : Element V). has_key x q >>= λ same. elim same [
            | true ↦ done x.value
            | false ↦ get_probe m q rounds (next m curr)
          ])
          at
        ∙ ap
            (λ r. r >>= λ same. elim same [
              | true ↦ done el.value
              | false ↦ get_probe m q rounds (next m curr)
            ])
            (has_key-holds_key el q formed)
        ∙ ap (λ t. elim t [ true ↦ done el.value | false ↦ get_probe m q rounds (next m curr) ]) e

  module _ (m : HashMap V) (valid : IsValid m) (q : Bytes) where
    next-lt : (curr : ℕ) → next m curr < m.table_size
    next-lt curr = let h = valid.positive in grind arith

    -- An element with the key is reached first, or behind this one.
    past :
        (rounds curr : ℕ) (el : Element V)
        → get_elem? m.elements curr ≡ some el
        → holds_key el q ≡ false
        → (j : ℕ) (v : V) → At m.elements j q v
        → Reaches m.table_size m.elements (suc rounds) curr j
        → Reaches m.table_size m.elements rounds (next m curr) j
    past rounds curr el at e j v (el', at', is) (inr (used, more)) = more
    past rounds curr el at e j v (el', at', is) (inl same) =
        let one : el' ≡ el =
          some-injective el' el (sym at' ∙ ap (get_elem? m.elements) same ∙ at) in
        absurd (cc ((entry-holds_key el q v (valid.formed curr el at) (ap entry (sym one) ∙ is)).0))

    or_true : (u : Bool) → (u || true) ≡ true
    or_true true = refl
    or_true false = refl

    or_test : (u h : Bool) → u ≡ true → h ≡ false → (not u || h) ≡ false
    or_test u h e f = rw (e, f) refl

    pub find_place-IsPlace :
        (rounds curr : ℕ)
        → curr < m.table_size
        → (r : Option ℕ) × (find_place m q rounds curr ≡ done r) × IsPlace m q rounds curr r
    unfolding find_place
    find_place-IsPlace zero curr l = (none, refl, λ j v at r. r)
    find_place-IsPlace (suc rounds) curr l =
        let (el, at) = get_elem?-lt m.elements curr (omega (arith, valid.sized)) in
        elim (IsElement-cases el (valid.formed curr el at)) [
          | inl (e, nothing) ↦ (
            some curr,
            find_place_step m q rounds curr el true at (valid.formed curr el at)
                (ap (λ u. not u || holds_key el q) e),
            (l, inl refl, (λ j v found r. free_here curr el at e rounds j r), inl (el, at, e)),
          )
          | inr (e, more) ↦ elim (Bool-cases (holds_key el q)) [
            | inl h ↦
                let (v, is, value) = holds_key-entry el q (valid.formed curr el at) h in
                (
                  some curr,
                  find_place_step m q rounds curr el true at (valid.formed curr el at)
                      (ap (λ k. not el.in_use || k) h ∙ or_true (not el.in_use)),
                  (
                    l,
                    inl refl,
                    (λ j w found r. valid.unique j curr q w v found (el, at, is)),
                    inr (v, (el, at, is)),
                  ),
                )
            | inr h ↦
                let (r, ran, found) = find_place-IsPlace rounds (next m curr) (next-lt curr) in
                (
                  r,
                  find_place_step m q rounds curr el false at (valid.formed curr el at)
                        (or_test el.in_use (holds_key el q) e h)
                      ∙ ran,
                  further rounds curr el at e h r found,
                )
          ]
        ]
      where
        free_here :
            (curr : ℕ) (el : Element V)
            → get_elem? m.elements curr ≡ some el
            → el.in_use ≡ false
            → (rounds j : ℕ) → Reaches m.table_size m.elements (suc rounds) curr j
            → j ≡ curr
        free_here curr el at e rounds j (inl same) = same
        free_here curr el at e rounds j (inr ((el', at', used), more)) =
            let one : el' ≡ el = some-injective el' el (sym at' ∙ at) in
            absurd (cc (ap (λ (x : Element V). x.in_use) one))

        further :
            (rounds curr : ℕ) (el : Element V)
            → get_elem? m.elements curr ≡ some el
            → el.in_use ≡ true
            → holds_key el q ≡ false
            → (r : Option ℕ) → IsPlace m q rounds (next m curr) r
            → IsPlace m q (suc rounds) curr r
        further rounds curr el at e h none found =
            λ j v is r. found j v is (past rounds curr el at h j v is r)
        further rounds curr el at e h (some i) (l, reached, only, place) = (
          l,
          inr ((el, at, e), reached),
          (λ j v is r. only j v is (past rounds curr el at h j v is r)),
          place,
        )

    pub get_probe-IsFound :
        (rounds curr : ℕ)
        → curr < m.table_size
        → (r : Option V) × (get_probe m q rounds curr ≡ done r) × IsFound m q rounds curr r
    unfolding get_probe
    get_probe-IsFound zero curr l = (none, refl, λ j v at r. r)
    get_probe-IsFound (suc rounds) curr l =
        let (el, at) = get_elem?-lt m.elements curr (omega (arith, valid.sized)) in
        elim (Bool-cases (holds_key el q)) [
          | inl h ↦
              let (v, is, value) = holds_key-entry el q (valid.formed curr el at) h in
              (
                some v,
                get_probe_step m q rounds curr el true at (valid.formed curr el at) h
                    ∙ ap done value,
                (curr, (el, at, is)),
              )
          | inr h ↦
              let (r, ran, found) = get_probe-IsFound rounds (next m curr) (next-lt curr) in
              (
                r,
                get_probe_step m q rounds curr el false at (valid.formed curr el at) h ∙ ran,
                further rounds curr el at h r found,
              )
        ]
      where
        further :
            (rounds curr : ℕ) (el : Element V)
            → get_elem? m.elements curr ≡ some el
            → holds_key el q ≡ false
            → (r : Option V) → IsFound m q rounds (next m curr) r
            → IsFound m q (suc rounds) curr r
        further rounds curr el at h none found =
            λ j v is r. found j v is (past rounds curr el at h j v is r)
        further rounds curr el at h (some v) found = found
