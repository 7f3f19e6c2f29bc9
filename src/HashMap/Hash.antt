-- ===== src/HashMap/Hash.antt =====
-- An empty table, and where `hashmap_hash` puts a key.
use mangl.Prelude.{
  ℕ, zero, suc, ◌/◌, ◌%◌, ◌<◌, ◌≡◌, refl, sym, ap, ◌∙◌, inl, inr, Option, none, some, arith, leb,
  get_elem?, replicate, Bytes, Bool-cases, length-replicate,
}
use mathlib.Core.Option.{some-injective}
use mangl.Run.{done, ◌>>=◌}
use mangl.Crc.Step.{crc32-done}
use mangl.HashMap.{
  HashMap, Element, free_element, hashmap_hash_int, hashmap_hash, find_place, mix,
  linear_probe_length,
}
use mangl.HashMap.Keys.{entry}
use mangl.HashMap.Probe.{At, count_used, IsValid, IsPlace, home, find_place-IsPlace}

count_used-replicate : (V : Type 0) (n : ℕ) → count_used (replicate n (free_element {V = V})) ≡ 0
unfolding count_used
count_used-replicate V zero = refl
count_used-replicate V (suc n) = count_used-replicate V n

pub home-lt : (n : ℕ) (q : Bytes) → 0 < n → home n q < n
unfolding home
home-lt n q h = grind arith

module _ {V : Type 0} where
  get_elem?-replicate :
      (n i : ℕ) (el : Element V)
      → get_elem? (replicate n free_element) i ≡ some el
      → el ≡ free_element
  get_elem?-replicate zero i el e = absurd (cc)
  get_elem?-replicate (suc n) zero el e = sym (some-injective free_element el e)
  get_elem?-replicate (suc n) (suc i) el e = get_elem?-replicate n i el e

  abbrev pub fresh : ℕ → HashMap V
  fresh n = record { table_size = n; size = 0; elements = replicate n free_element }

  pub fresh-no_entry : (n i : ℕ) (q : Bytes) (v : V) → At (replicate n free_element) i q v → ⊥
  unfolding entry
  fresh-no_entry n i q v (el, at, is) = cc (ap entry (get_elem?-replicate n i el at), is)

  pub fresh-IsValid : (n : ℕ) → 0 < n → IsValid (fresh n)
  fresh-IsValid n h = record {
    sized = length-replicate n free_element;
    positive = h;
    formed = λ i el at. inl (ap (λ (x : Element V). x.in_use) (get_elem?-replicate n i el at));
    unique = λ i j q v w a b. absurd (fresh-no_entry n i q v a);
    reachable = λ i q v a. absurd (fresh-no_entry n i q v a);
    counted = sym (count_used-replicate V n);
    loaded = omega arith;
  }

  pub hash_int-home :
      (m : HashMap V) (q : Bytes) → hashmap_hash_int m q ≡ done (home m.table_size q)
  unfolding hashmap_hash_int home
  hash_int-home m q = ap (λ r. r >>= λ c. done (mix c % m.table_size)) (crc32-done q).1

  abbrev pub HashIsPlace : HashMap V → Bytes → Option ℕ → Type 0
  HashIsPlace m q none = Unit {0}
  HashIsPlace m q (some i) =
      (m.size < m.table_size / 2) × IsPlace m q linear_probe_length (home m.table_size q) (some i)

  pub hashmap_hash-IsPlace :
      (m : HashMap V) (q : Bytes)
      → IsValid m
      → (r : Option ℕ) × (hashmap_hash m q ≡ done r) × HashIsPlace m q r
  unfolding hashmap_hash
  hashmap_hash-IsPlace m q valid = elim (Bool-cases (leb (m.table_size / 2) m.size)) [
    | inl e ↦ (none, rw e refl, tt)
    | inr e ↦
        let (r, ran, place) =
          find_place-IsPlace m valid q linear_probe_length (home m.table_size q)
            (home-lt m.table_size q valid.positive) in
        (
          r,
          rw e (ap (λ h. h >>= find_place m q linear_probe_length) (hash_int-home m q) ∙ ran),
          forget r (ground arith) place,
        )
  ]
    where
      forget :
          (r : Option ℕ)
          → m.size < m.table_size / 2
          → IsPlace m q linear_probe_length (home m.table_size q) r
          → HashIsPlace m q r
      forget none room place = tt
      forget (some i) room place = (room, place)
