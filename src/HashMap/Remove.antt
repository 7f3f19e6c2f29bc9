-- ===== src/HashMap/Remove.antt =====
-- `hashmap_remove` takes one key away, and a `hashmap_put` of the key after it brings it back.
use mangl.Prelude.{
  ℕ, zero, suc, ◌+◌, ◌-◌, ◌/◌, ◌<◌, ◌≡◌, ◌≢◌, refl, sym, ap, ap₂, subst, ◌∙◌, true, false, inl, inr,
  Option, none, some, arith, leb, ◌==◌, if◌then◌else◌, get_elem?, set, Bytes, Bool-cases,
  get_elem?-lt, lt-of_get_elem?,
}
use mangl.Text.{same_text}
use mangl.Text.Same.{same_text-eq, same_text-ne}
use mangl.Run.{Run, done, exited, fault, deref, ◌>>=◌}
use mangl.HashMap.{
  HashMap, Element, next, clear_element, write_element, find_place, get_probe, remove_probe,
  write_at, hashmap_hash, hashmap_put, hashmap_get, hashmap_remove, hashmap_length,
  linear_probe_length,
}
use mangl.HashMap.Keys.{entry, holds_key, IsElement-cases, holds_key-entry}
use mangl.HashMap.Probe.{IsValid, IsPlace, home, get_probe_step}
use mangl.HashMap.Write.{Stored, At_eq, written-IsValid, written-Writes, write_at-done}
use mangl.HashMap.Hash.{hash_int-home, home-lt}
use mangl.HashMap.Put.{IsLookup, hashmap_get-IsLookup}
use mangl.HashMap.Map.{hashmap_get-Writes}
use mangl.HashMap.Freed.{
  removed, set-set, write_clear, count_used-positive, cleared, other, clear_element-free,
  holds_key_only, remove_probe-Reaches, find_place-Reaches,
}

module _ {V : Type 0} where
  module _ (m : HashMap V) (valid : IsValid m) (q : Bytes) (w : V) (i : ℕ) (el : Element V)
      (at : get_elem? m.elements i ≡ some el) (is : entry el ≡ some (q, w)) where
    step_other : (k : Bytes) → k ≢ q → holds_key el k ≡ false
    step_other k ne = elim (Bool-cases (holds_key el k)) [
      | inl h ↦
          let (v, is', value) = holds_key-entry el k (valid.formed i el at) h in
          absurd (ne (At_eq m.elements i k q v w (el, at, is') (el, at, is)).0)
      | inr h ↦ h
    ]

    next-lt : (curr : ℕ) → next m curr < m.table_size
    next-lt curr = let h = valid.positive in grind arith

    -- After the removal the key is gone, and the lookups of the others are as before.
    get_probe-gone :
        (rounds curr : ℕ)
        → curr < m.table_size
        → get_probe (removed m valid q w i el at is) q rounds curr ≡ done none
    unfolding get_probe clear_element
    get_probe-gone zero curr l = refl
    get_probe-gone (suc rounds) curr l =
        let more = get_probe-gone rounds (next m curr) (next-lt curr) in
        elim (Bool-cases (curr == i)) [
          | inl e ↦
              let same : curr ≡ i = ground arith in
              get_probe_step (removed m valid q w i el at is) q rounds curr (clear_element el) false
                (ap (get_elem? (removed m valid q w i el at is).elements) same
                  ∙ (cleared m valid q w i el at is))
                (inl refl) ((clear_element-free m valid q w i el at is) q)
              ∙ more
          | inr e ↦
              let (x, at') = get_elem?-lt m.elements curr (omega (arith, valid.sized)) in
              let ne : curr ≢ i = λ s. ground arith in
              get_probe_step (removed m valid q w i el at is) q rounds curr x false
                ((other m valid q w i el at is) curr ne ∙ at') (valid.formed curr x at')
                ((holds_key_only m valid q w i el at is) curr x at' ne)
              ∙ more
        ]

    get_probe-kept :
        (k : Bytes)
        → k ≢ q
        → (rounds curr : ℕ) → curr < m.table_size
        → get_probe (removed m valid q w i el at is) k rounds curr ≡ get_probe m k rounds curr
    unfolding get_probe clear_element
    get_probe-kept k ne zero curr l = refl
    get_probe-kept k ne (suc rounds) curr l =
        let more = get_probe-kept k ne rounds (next m curr) (next-lt curr) in
        elim (Bool-cases (curr == i)) [
          | inl e ↦
              let same : curr ≡ i = ground arith in
              get_probe_step (removed m valid q w i el at is) k rounds curr (clear_element el) false
                (ap (get_elem? (removed m valid q w i el at is).elements) same
                  ∙ (cleared m valid q w i el at is))
                (inl refl) ((clear_element-free m valid q w i el at is) k)
              ∙ more
              ∙ sym (
                  get_probe_step m k rounds curr el false (ap (get_elem? m.elements) same ∙ at)
                    (valid.formed i el at) (step_other k ne))
          | inr e ↦
              let (x, at') = get_elem?-lt m.elements curr (omega (arith, valid.sized)) in
              get_probe_step (removed m valid q w i el at is) k rounds curr x (holds_key x k)
                ((other m valid q w i el at is) curr (λ s. ground arith) ∙ at')
                (valid.formed curr x at') refl
              ∙ ap (λ r. elim (holds_key x k) [ true ↦ done x.value | false ↦ r ]) more
              ∙ sym (
                  get_probe_step m k rounds curr x (holds_key x k) at' (valid.formed curr x at')
                    refl)
        ]

    hashmap_get-removed :
        (k : Bytes)
        → hashmap_get (removed m valid q w i el at is) k
          ≡ (if same_text q k then done none else hashmap_get m k)
    unfolding hashmap_get
    hashmap_get-removed k = elim (Bool-cases (same_text q k)) [
      | inl e ↦
          let same = same_text-eq q k e in
          rw e (
            subst (λ s. hashmap_get (removed m valid q w i el at is) s ≡ done none) same
              (ap (λ h. h >>= get_probe (removed m valid q w i el at is) q linear_probe_length)
                  (hash_int-home (removed m valid q w i el at is) q)
                ∙ get_probe-gone linear_probe_length (home m.table_size q)
                    (home-lt m.table_size q valid.positive)))
      | inr e ↦ rw e (
          ap (λ h. h >>= get_probe (removed m valid q w i el at is) k linear_probe_length)
            (hash_int-home (removed m valid q w i el at is) k)
          ∙ get_probe-kept k (λ s. same_text-ne q k e (sym s)) linear_probe_length
              (home m.table_size k) (home-lt m.table_size k valid.positive)
          ∙ sym (ap (λ h. h >>= get_probe m k linear_probe_length) (hash_int-home m k)))
    ]

    place : IsPlace m q linear_probe_length (home m.table_size q) (some i)
    place = (
      omega (arith, lt-of_get_elem? m.elements i at, valid.sized),
      valid.reachable i q w (el, at, is),
      (λ j v found r. valid.unique j i q v w found (el, at, is)),
      inr (w, (el, at, is)),
    )

    el_used : el.in_use ≡ true
    el_used = elim (IsElement-cases el (valid.formed i el at)) [
      | inl (e, nothing) ↦ absurd (cc (sym is ∙ nothing))
      | inr (e, more) ↦ e
    ]

    size-positive : 0 < m.size
    size-positive =
        subst (λ n. 0 < n) (sym valid.counted) (count_used-positive m.elements i el at el_used)

    write_at-removed : (v : V) → write_at (removed m valid q w i el at is) i q v ≡ write_at m i q v
    unfolding write_at clear_element
    write_at-removed v =
        let n : m.size - 1 + 1 ≡ m.size = omega (arith, size-positive) in
        write_at-one (removed m valid q w i el at is) (clear_element el)
          (cleared m valid q w i el at is)
        ∙ ap₂ (λ es k. done (record { table_size = m.table_size; size = k; elements = es }))
            (set-set m.elements i (clear_element el) (write_element (clear_element el) q v)
              ∙ ap (set m.elements i) (write_clear el q v))
            (n ∙ sym (ap (λ b. if b then m.size else m.size + 1) el_used))
        ∙ sym (write_at-one m el at)
      where
        write_at-one :
            (t : HashMap V) (x : Element V)
            → get_elem? t.elements i ≡ some x
            → write_at t i q v
              ≡ done (record {
                table_size = t.table_size;
                size = if x.in_use then t.size else t.size + 1;
                elements = set t.elements i (write_element x q v);
              })
        write_at-one t x e =
            ap
              (λ o. deref o >>= λ (x : Element V). done (record t {
                elements = set t.elements i (write_element x q v);
                size = if x.in_use then t.size else t.size + 1;
              }))
              e

    hashmap_hash-removed : hashmap_hash (removed m valid q w i el at is) q ≡ done (some i)
    unfolding hashmap_hash
    hashmap_hash-removed =
        let room : leb (m.table_size / 2) (m.size - 1) ≡ false =
          ground (arith, size-positive, valid.loaded) in
        rw room (
          ap (λ h. h >>= find_place (removed m valid q w i el at is) q linear_probe_length)
            (hash_int-home (removed m valid q w i el at is) q)
          ∙ (find_place-Reaches m valid q w i el at is) linear_probe_length (home m.table_size q)
              (valid.reachable i q w (el, at, is)))

    hashmap_put-removed :
        (memory fuel : ℕ) (v : V)
        → hashmap_put memory fuel (removed m valid q w i el at is) q v
          ≡ (write_at m i q v >>= λ m'. done (m', true))
    unfolding hashmap_put
    hashmap_put-removed memory zero v =
        rw hashmap_hash-removed (ap (λ r. r >>= λ m'. done (m', true)) (write_at-removed v))
    hashmap_put-removed memory (suc fuel) v =
        rw hashmap_hash-removed (ap (λ r. r >>= λ m'. done (m', true)) (write_at-removed v))

    hashmap_remove-removed : hashmap_remove m q ≡ done ((removed m valid q w i el at is), true)
    unfolding hashmap_remove
    hashmap_remove-removed =
        ap (λ h. h >>= remove_probe m q linear_probe_length) (hash_int-home m q)
        ∙ (remove_probe-Reaches m valid q w i el at is) linear_probe_length (home m.table_size q)
            (valid.reachable i q w (el, at, is))

  -- A key of a valid map is found where it stands.
  stored_at :
      (m : HashMap V) (q : Bytes) (w : V)
      → IsValid m
      → hashmap_get m q ≡ done (some w)
      → Stored m q w
  stored_at m q w valid got =
      let (r, ran, found) = hashmap_get-IsLookup m q valid in
      subst (IsLookup m q) (done-injective r (some w) (sym ran ∙ got)) found
    where
      result : Run (Option V) → Option V
      result (done a) = a
      result (exited n) = none
      result fault = none

      done-injective : (a b : Option V) → done a ≡ done b → a ≡ b
      done-injective a b e = ap result e

  -- On a valid map that has a value for the key, `hashmap_remove` says MAP_OK, and then a lookup of
  -- the key finds nothing and one of any other key what it found before. A `hashmap_put` of the same
  -- key next says MAP_OK without a rehash: the map is valid, as long as the first one and no larger, has the new
  -- value under the key, and under every other key what the first one has.
  pub hashmap_put-remove :
      (memory fuel : ℕ) (m : HashMap V) (q : Bytes) (v w : V)
      → IsValid m
      → hashmap_get m q ≡ done (some w)
      → (m' : HashMap V) × (r : HashMap V) × (hashmap_remove m q ≡ done (m', true))
        × ((k : Bytes) → hashmap_get m' k ≡ (if same_text q k then done none else hashmap_get m k))
        × (hashmap_put memory fuel m' q v ≡ done (r, true))
        × IsValid r
        × (hashmap_length r ≡ hashmap_length m)
        × (r.table_size ≡ m.table_size)
        × ((k : Bytes)
            → (a : Option V) × (hashmap_get m k ≡ done a)
              × (hashmap_get r k ≡ done (if same_text q k then some v else a)))
  unfolding hashmap_length
  hashmap_put-remove memory fuel m q v w valid got =
      let (i, (el, at, is)) = stored_at m q w valid got in
      let used = el_used m valid q w i el at is in
      let at_place = place m valid q w i el at is in
      let valid' = written-IsValid m valid q v i el at at_place (λ e. absurd (cc (used, e))) in
      (
        _,
        _,
        hashmap_remove-removed m valid q w i el at is,
        hashmap_get-removed m valid q w i el at is,
        hashmap_put-removed m valid q w i el at is memory fuel v
            ∙ ap (λ r. r >>= λ m'. done (m', true)) (write_at-done m valid q v i el at at_place),
        valid',
        ap (λ b. if b then m.size else m.size + 1) used,
        refl,
        hashmap_get-Writes m _ q v valid valid' (written-Writes m valid q v i el at at_place),
      )
