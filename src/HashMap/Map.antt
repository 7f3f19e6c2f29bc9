-- ===== src/HashMap/Map.antt =====
-- The hash map as a finite map.
use mangl.Prelude.{
  ℕ, ◌*◌, ◌^◌, ◌≤◌, ◌<◌, ◌≡◌, ◌≢◌, refl, sym, ap, subst, ◌∙◌, Bool, true, false, inl, inr, Option,
  none, some, arith, if◌then◌else◌, Bytes, Bool-cases,
}
use mangl.Text.{same_text}
use mangl.Text.Same.{same_text-eq, same_text-ne}
use mangl.Run.{done}
use mangl.HashMap.{
  HashMap, new_map, hashmap_new, hashmap_put, hashmap_get, hashmap_length, initial_size,
}
use mangl.HashMap.Probe.{At, IsValid}
use mangl.HashMap.Write.{Stored, Writes, At_eq}
use mangl.HashMap.Hash.{fresh, fresh-no_entry, fresh-IsValid}
use mangl.HashMap.Put.{IsLookup, hashmap_get-IsLookup, hashmap_put-IsPut}

module _ {V : Type 0} where
  -- A key has one value in a valid map.
  IsLookup-unique :
      (m : HashMap V) (q : Bytes)
      → IsValid m
      → (a b : Option V) → IsLookup m q a
      → IsLookup m q b
      → a ≡ b
  IsLookup-unique m q valid none none h k = refl
  IsLookup-unique m q valid none (some w) h k = absurd (h w k)
  IsLookup-unique m q valid (some v) none h k = absurd (k v h)
  IsLookup-unique m q valid (some v) (some w) (i, a) (j, b) =
      ap some
        (At_eq m.elements j q q v w
          (subst (λ n. At m.elements n q v) (valid.unique i j q v w a b) a) b).1

  -- The value of a key after another was set.
  IsLookup-Writes :
      (m m' : HashMap V) (q k : Bytes) (v : V) (a : Option V)
      → Writes m q v m'
      → IsLookup m k a
      → IsLookup m' k (if same_text q k then some v else a)
  IsLookup-Writes m m' q k v a writes h = elim (Bool-cases (same_text q k)) [
    | inl e ↦ rw e (subst (λ s. Stored m' s v) (same_text-eq q k e) writes.new)
    | inr e ↦ rw e (unchanged a h (λ same. same_text-ne q k e (sym same)))
  ]
    where
      unchanged : (a : Option V) → IsLookup m k a → k ≢ q → IsLookup m' k a
      unchanged (some w) h ne = writes.kept k w ne h
      unchanged none h ne = λ w s. elim (writes.old k w s) [
        | inl (same, value) ↦ ne same
        | inr (ne', before) ↦ h w before
      ]

  -- Lookups of two valid maps, where the second is the first with one key set.
  pub hashmap_get-Writes :
      (m m' : HashMap V) (q : Bytes) (v : V)
      → IsValid m
      → IsValid m'
      → Writes m q v m'
      → (k : Bytes)
      → (a : Option V) × (hashmap_get m k ≡ done a)
        × (hashmap_get m' k ≡ done (if same_text q k then some v else a))
  hashmap_get-Writes m m' q v valid valid' writes k =
      let (a, got, is) = hashmap_get-IsLookup m k valid in
      let (b, got', is') = hashmap_get-IsLookup m' k valid' in
      (
        a,
        got,
        got'
            ∙ ap done (
                IsLookup-unique m' k valid' b (if same_text q k then some v else a) is'
                  (IsLookup-Writes m m' q k v a writes is)),
      )

  -- On a valid map, with fuel for the doublings that the memory has room for, `hashmap_put` and
  -- `hashmap_get` never fault, and the map stays valid and no smaller; if the put says MAP_OK, a lookup of any key
  -- gives the new value under the key that was put and what it gave before under every other key.
  pub hashmap_get-put :
      (memory fuel : ℕ) (m : HashMap V) (q : Bytes) (v : V)
      → IsValid m
      → memory < m.table_size * 2 ^ fuel
      → (r : HashMap V × Bool) × (hashmap_put memory fuel m q v ≡ done r)
        × IsValid r.0
        × (m.table_size ≤ r.0.table_size)
        × (r.1 ≡ true
            → (k : Bytes)
            → (a : Option V) × (hashmap_get m k ≡ done a)
              × (hashmap_get r.0 k ≡ done (if same_text q k then some v else a)))
  hashmap_get-put memory fuel m q v valid room =
      let (r, ran, isput) = hashmap_put-IsPut memory fuel m q v valid room in
      (
        r,
        ran,
        isput.valid,
        isput.grows,
        λ ok. hashmap_get-Writes m r.0 q v valid isput.valid (isput.writes ok),
      )

  -- The map that is filled in is valid, and has no element in use and no key.
  pub new_map-IsValid :
      IsValid (new_map {V = V})
      × (hashmap_length (new_map {V = V}) ≡ 0)
      × ((k : Bytes) → hashmap_get (new_map {V = V}) k ≡ done none)
  unfolding new_map hashmap_length
  new_map-IsValid =
      let valid = fresh-IsValid initial_size (omega arith) in
      (
        valid,
        refl,
        λ k.
            let (a, got, is) = hashmap_get-IsLookup (fresh initial_size) k valid in
            got
            ∙ ap done (
                IsLookup-unique (fresh initial_size) k valid a none is
                  (λ v (i, a). fresh-no_entry initial_size i k v a)),
      )

  -- Without memory for the map or for its table `hashmap_new` gives NULL. With both it gives a map
  -- that is valid and has no element in use, and no key.
  pub hashmap_new-IsValid :
      ((b : Bool) → hashmap_new {V = V} false b ≡ none)
      × ((b : Bool) → hashmap_new {V = V} b false ≡ none)
      × ((m : HashMap V) × (hashmap_new true true ≡ some m)
          × IsValid m
          × (hashmap_length m ≡ 0)
          × ((k : Bytes) → hashmap_get m k ≡ done none))
  unfolding hashmap_new
  hashmap_new-IsValid =
      ((λ b. refl), both, (new_map, refl, new_map-IsValid.0, new_map-IsValid.1, new_map-IsValid.2))
    where
      both : (b : Bool) → hashmap_new {V = V} b false ≡ none
      both true = refl
      both false = refl
