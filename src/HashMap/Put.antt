-- ===== src/HashMap/Put.antt =====
-- `hashmap_put` sets one key of the map, with as many doublings of the table as it takes.
use mangl.Prelude.{
  ℕ, zero, suc, ◌*◌, ◌/◌, ◌^◌, ◌≤◌, ◌<◌, ◌≡◌, refl, ap, ◌∙◌, Bool, true, false, inl, inr, Option,
  none, some, arith, leb, Bytes, Bool-cases, get_elem?-lt,
}
use native.Mathlib.Nat.{pow-suc, mul-le-mul_right}
use mangl.Run.{Run, done, ◌>>=◌}
use mangl.HashMap.{
  HashMap, hashmap_hash, hashmap_put, hashmap_rehash, hashmap_get, get_probe, write_at,
  linear_probe_length,
}
use mangl.HashMap.Probe.{IsValid, IsPlace, IsFound, home, get_probe-IsFound}
use mangl.HashMap.Write.{Stored, written-IsValid, written-Writes, write_at-done}
use mangl.HashMap.Hash.{
  fresh, fresh-no_entry, fresh-IsValid, HashIsPlace, hashmap_hash-IsPlace, home-lt, hash_int-home,
}
use mangl.HashMap.Rehash.{IsPut, Puts, rehash_elements-IsRehashed}

-- A doubled table needs one doubling less.
fuel_left : (memory n k fuel : ℕ) → memory < n * 2 ^ suc fuel → 2 * n ≤ k → memory < k * 2 ^ fuel
fuel_left memory n k fuel h l = omega (
  arith,
  ap (λ (t : ℕ). n * t) (pow-suc 2 fuel),
  mul-le-mul_right (2 ^ fuel) l,
  twice n (2 ^ fuel),
)
  where
    twice : (n p : ℕ) → n * (2 * p) ≡ 2 * n * p
    twice n p = grind arith

module _ {V : Type 0} where
  -- A rehash keeps the contents of the map, where it succeeds.
  pub record IsDoubled (m : HashMap V) (r : HashMap V × Bool) : Type 0 where
    pub valid : IsValid r.0
    pub grows : r.1 ≡ true → 2 * m.table_size ≤ r.0.table_size
    pub no_smaller : m.table_size ≤ r.0.table_size
    pub same :
        r.1 ≡ true
        → (k : Bytes) (w : V) → (Stored m k w → Stored r.0 k w) × (Stored r.0 k w → Stored m k w)

  hashmap_rehash-IsDoubled :
      (memory : ℕ) (put : HashMap V → Bytes → V → Run (HashMap V × Bool)) (m : HashMap V)
      → IsValid m
      → Puts put (2 * m.table_size)
      → (r : HashMap V × Bool) × (hashmap_rehash memory put m ≡ done r) × IsDoubled m r
  unfolding hashmap_rehash
  hashmap_rehash-IsDoubled memory put m valid puts =
      elim (Bool-cases (leb (2 * m.table_size) memory)) [
        | inr e ↦ (
          (m, false),
          rw e refl,
          record {
            valid = valid;
            grows = λ e. absurd (cc e);
            no_smaller = omega arith;
            same = λ e. absurd (cc e);
          },
        )
        | inl e ↦
            let (r, ran, rest) =
              rehash_elements-IsRehashed put (2 * m.table_size) puts m.elements
                (fresh (2 * m.table_size)) valid.formed valid.unique
                (fresh-IsValid (2 * m.table_size) (omega (arith, valid.positive))) (omega arith)
                (λ q v w j (i, a) found. fresh-no_entry (2 * m.table_size) i q v a) in
            (
              r,
              rw e ran,
              record {
                valid = rest.valid;
                grows = λ e. rest.grows;
                no_smaller = omega (arith, rest.grows);
                same = λ e k w.
                    let j = rest.joins e in
                    (
                      (λ (i, a). j.joined k w i a),
                      (λ s. elim (j.old k w s) [
                        | inl (i, a) ↦ absurd (fresh-no_entry (2 * m.table_size) i k w a)
                        | inr found ↦ found
                      ]),
                    );
              },
            )
      ]

  write_at-IsPut :
      (m : HashMap V) (q : Bytes) (v : V) (i : ℕ)
      → IsValid m
      → (m.size < m.table_size / 2) × IsPlace m q linear_probe_length (home m.table_size q) (some i)
      → (r : HashMap V × Bool) × (write_at m i q v >>= (λ m'. done (m', true)) ≡ done r)
        × IsPut m q v r
  write_at-IsPut m q v i valid (room, place) =
      let (el, at) = get_elem?-lt m.elements i (omega (arith, place.0, valid.sized)) in
      (
        _,
        ap (λ r. r >>= λ m'. done (m', true)) (write_at-done m valid q v i el at place),
        record {
          valid = written-IsValid m valid q v i el at place (λ e. room);
          grows = omega arith;
          writes = λ e. written-Writes m valid q v i el at place;
        },
      )

  -- A put after a rehash sets the key in the map from before it.
  through :
      (m m' : HashMap V) (q : Bytes) (v : V) (r : HashMap V × Bool)
      → m.table_size ≤ m'.table_size
      → ((k : Bytes) (w : V) → (Stored m k w → Stored m' k w) × (Stored m' k w → Stored m k w))
      → IsPut m' q v r
      → IsPut m q v r
  through m m' q v r larger same isput = record {
    valid = isput.valid;
    grows = omega (arith, isput.grows);
    writes = λ e.
        let w = isput.writes e in
        record {
          new = w.new;
          old = λ k x s. elim (w.old k x s) [
            | inl b ↦ inl b
            | inr (ne, before) ↦ inr (ne, (same k x).1 before)
          ];
          kept = λ k x ne s. w.kept k x ne ((same k x).0 s);
        };
  }

  -- With fuel for as many doublings as the memory has room for, a put never faults, and its map is
  -- valid. If it says MAP_OK, the map has the value for the key, and for every other key what it
  -- had before.
  pub hashmap_put-IsPut :
      (memory fuel : ℕ) (m : HashMap V) (q : Bytes) (v : V)
      → IsValid m
      → memory < m.table_size * 2 ^ fuel
      → (r : HashMap V × Bool) × (hashmap_put memory fuel m q v ≡ done r) × IsPut m q v r
  unfolding hashmap_put
  hashmap_put-IsPut memory zero m q v valid room =
      let (h, ran, place) = hashmap_hash-IsPlace m q valid in after h ran place
    where
      after :
          (h : Option ℕ)
          → hashmap_hash m q ≡ done h
          → HashIsPlace m q h
          → (r : HashMap V × Bool) × (hashmap_put memory zero m q v ≡ done r) × IsPut m q v r
      after none ran place =
          let small : leb (2 * m.table_size) memory ≡ false = ground arith in
          (
            (m, false),
            rw (ran, small) refl,
            record { valid = valid; grows = omega arith; writes = λ e. absurd (cc e) },
          )
      after (some i) ran place =
          let (r, wrote, isput) = write_at-IsPut m q v i valid place in (r, rw ran wrote, isput)
  hashmap_put-IsPut memory (suc fuel) m q v valid room =
      let (h, ran, place) = hashmap_hash-IsPlace m q valid in
      after (hashmap_put-IsPut memory fuel) h ran place
    where
      go_on : HashMap V × Bool → Run (HashMap V × Bool)
      go_on r = elim r.1 [ true ↦ hashmap_put memory fuel r.0 q v | false ↦ done (r.0, false) ]

      after :
          ((m : HashMap V) (q : Bytes) (v : V)
            → IsValid m
            → memory < m.table_size * 2 ^ fuel
            → (r : HashMap V × Bool) × (hashmap_put memory fuel m q v ≡ done r) × IsPut m q v r)
          → (h : Option ℕ) → hashmap_hash m q ≡ done h
          → HashIsPlace m q h
          → (r : HashMap V × Bool) × (hashmap_put memory (suc fuel) m q v ≡ done r) × IsPut m q v r
      after again (some i) ran place =
          let (r, wrote, isput) = write_at-IsPut m q v i valid place in (r, rw ran wrote, isput)
      after again none ran place =
          let (p, rehashed, doubled) =
            hashmap_rehash-IsDoubled memory (hashmap_put memory fuel) m valid (λ m' k w valid' l.
              again m' k w valid' (fuel_left memory m.table_size m'.table_size fuel room l)) in
          let step = ap (λ x. x >>= go_on) rehashed in
          elim (Bool-cases p.1) [
            | inr e ↦ (
              (p.0, false),
              rw ran (
                  step
                  ∙ ap
                      (λ b. elim b [
                        | true ↦ hashmap_put memory fuel p.0 q v
                        | false ↦ done (p.0, false)
                      ])
                      e),
              record {
                valid = doubled.valid;
                grows = doubled.no_smaller;
                writes = λ e. absurd (cc e);
              },
            )
            | inl e ↦
                let (r, wrote, isput) =
                  again p.0 q v doubled.valid
                    (fuel_left memory m.table_size p.0.table_size fuel room (doubled.grows e)) in
                (
                  r,
                  rw ran (
                      step
                      ∙ ap
                          (λ b. elim b [
                            | true ↦ hashmap_put memory fuel p.0 q v
                            | false ↦ done (p.0, false)
                          ])
                          e
                      ∙ wrote),
                  through m p.0 q v r doubled.no_smaller (doubled.same e) isput,
                )
          ]

  -- What a lookup of the key returns, for a map.
  abbrev pub IsLookup : HashMap V → Bytes → Option V → Type 0
  IsLookup m q none = (v : V) → Stored m q v → ⊥
  IsLookup m q (some v) = Stored m q v

  -- A lookup never faults, and finds the value of the key exactly when the map has one.
  pub hashmap_get-IsLookup :
      (m : HashMap V) (q : Bytes)
      → IsValid m
      → (r : Option V) × (hashmap_get m q ≡ done r) × IsLookup m q r
  unfolding hashmap_get
  hashmap_get-IsLookup m q valid =
      let (r, ran, found) =
        get_probe-IsFound m valid q linear_probe_length (home m.table_size q)
          (home-lt m.table_size q valid.positive) in
      (
        r,
        ap (λ h. h >>= get_probe m q linear_probe_length) (hash_int-home m q) ∙ ran,
        found_is r found,
      )
    where
      found_is :
          (r : Option V) → IsFound m q linear_probe_length (home m.table_size q) r → IsLookup m q r
      found_is none nothing = λ v (j, a). nothing j v a (valid.reachable j q v a)
      found_is (some v) found = found
