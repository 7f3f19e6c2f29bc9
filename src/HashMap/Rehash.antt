-- ===== src/HashMap/Rehash.antt =====
-- `hashmap_put` sets one key of the map, with as many doublings of the table as it takes.
use mangl.Prelude.{
  ℕ, zero, suc, ◌≤◌, ◌≡◌, refl, sym, ap, ap₂, subst, ◌∙◌, Bool, true, false, ◌⊎◌, inl, inr, none,
  some, List, [], ◌∷◌, arith, if◌then◌else◌, take, Bytes, Bool-cases,
}
use mathlib.Core.Option.{some-injective}
use mangl.Run.{Run, done, deref, ◌>>=◌}
use mangl.HashMap.{HashMap, Element, get_key, rehash_elements}
use mangl.HashMap.Keys.{entry, stored_key, get_key-stored_key, IsElement-cases}
use mangl.HashMap.Probe.{At, AreElements, IsUnique, IsValid}
use mangl.HashMap.Write.{Stored, Writes, At_eq}

module _ {V : Type 0} where
  -- The result of a put: a valid map that is no smaller, with the key set if it says so.
  pub record IsPut (m : HashMap V) (q : Bytes) (v : V) (r : HashMap V × Bool) : Type 0 where
    pub valid : IsValid r.0
    pub grows : m.table_size ≤ r.0.table_size
    pub writes : r.1 ≡ true → Writes m q v r.0

  abbrev pub Puts : (HashMap V → Bytes → V → Run (HashMap V × Bool)) → ℕ → Type 0
  Puts put n =
      (m : HashMap V) (q : Bytes) (v : V)
      → IsValid m
      → n ≤ m.table_size
      → (r : HashMap V × Bool) × (put m q v ≡ done r) × IsPut m q v r

  -- The entries of a list of elements joined a map.
  pub record Joins (els : List (Element V)) (m m' : HashMap V) : Type 0 where
    pub old : (k : Bytes) (w : V) → Stored m' k w → Stored m k w ⊎ ((j : ℕ) × At els j k w)
    pub kept : (k : Bytes) (w : V) → Stored m k w → Stored m' k w
    pub joined : (k : Bytes) (w : V) (j : ℕ) → At els j k w → Stored m' k w

  pub record IsRehashed (els : List (Element V)) (m : HashMap V) (r : HashMap V × Bool)
      : Type 0 where
    pub valid : IsValid r.0
    pub grows : m.table_size ≤ r.0.table_size
    pub joins : r.1 ≡ true → Joins els m r.0

  module _ (put : HashMap V → Bytes → V → Run (HashMap V × Bool)) (n : ℕ) (puts : Puts put n) where
    pub rehash_elements-IsRehashed :
        (els : List (Element V)) (m : HashMap V)
        → AreElements els
        → IsUnique els
        → IsValid m
        → n ≤ m.table_size
        → ((q : Bytes) (v w : V) (j : ℕ) → Stored m q v → At els j q w → ⊥)
        → (r : HashMap V × Bool) × (rehash_elements put els m ≡ done r) × IsRehashed els m r
    unfolding rehash_elements
    rehash_elements-IsRehashed [] m formed unique valid l apart = (
      (m, true),
      refl,
      record {
        valid = valid;
        grows = omega arith;
        joins = λ e. record {
          old = λ k w s. inl s;
          kept = λ k w s. s;
          joined = λ k w j found. absurd (cc found.1);
        };
      },
    )
    rehash_elements-IsRehashed (el ∷ els) m formed unique valid l apart =
        elim (IsElement-cases el (formed 0 el refl)) [
          | inl (u, nothing) ↦
              let (r, ran, done_so) =
                rehash_elements-IsRehashed els m (λ i. formed (suc i)) tail_unique valid l
                  (λ q v w j. apart q v w (suc j)) in
              (r, skip_step u ∙ ran, skipped nothing done_so)
          | inr (u, (k, v, is, value, key)) ↦
              let (p, ran, isput) = puts m k v valid l in
              elim (Bool-cases p.1) [
                | inr stop ↦ (
                  (p.0, false),
                  put_step u k v p value key ran ∙ ap (λ b. go_on b p.0) stop,
                  record { valid = isput.valid; grows = isput.grows; joins = λ e. absurd (cc e) },
                )
                | inl go ↦
                    let (r, ran', rest) =
                      rehash_elements-IsRehashed els p.0 (λ i. formed (suc i)) tail_unique
                        isput.valid (omega (arith, isput.grows))
                        (still_apart k v is p.0 (isput.writes go)) in
                    (
                      r,
                      put_step u k v p value key ran ∙ ap (λ b. go_on b p.0) go ∙ ran',
                      joined_one k v is p.0 (isput.writes go) isput.grows rest,
                    )
              ]
        ]
      where
        go_on : Bool → HashMap V → Run (HashMap V × Bool)
        go_on b m' = elim b [ true ↦ rehash_elements put els m' | false ↦ done (m', false) ]

        skip_step : el.in_use ≡ false → rehash_elements put (el ∷ els) m ≡ rehash_elements put els m
        skip_step u = rw u refl

        put_step :
            el.in_use ≡ true
            → (k : Bytes) (v : V) (p : HashMap V × Bool) → el.value ≡ some v
            → k ≡ take el.key_length (stored_key el)
            → put m k v ≡ done p
            → rehash_elements put (el ∷ els) m ≡ go_on p.1 p.0
        put_step u k v p value key ran =
            ap
              (λ b.
                if b
                then (get_key el >>= λ key.
                    deref el.value >>= λ x. put m (take el.key_length key) x >>= λ r. go_on r.1 r.0)
                else rehash_elements put els m)
              u
            ∙ ap
                (λ g. g >>= λ key.
                  deref el.value >>= λ x. put m (take el.key_length key) x >>= λ r. go_on r.1 r.0)
                (get_key-stored_key el (formed 0 el refl) u)
            ∙ ap
                (λ o. deref o >>= λ x.
                  put m (take el.key_length (stored_key el)) x >>= λ r. go_on r.1 r.0)
                value
            ∙ ap (λ s. put m s v >>= λ r. go_on r.1 r.0) (sym key)
            ∙ ap (λ r. r >>= λ r. go_on r.1 r.0) ran

        still_apart :
            (k : Bytes) (v : V)
            → entry el ≡ some (k, v)
            → (m' : HashMap V) → Writes m k v m'
            → (q : Bytes) (a b : V) (j : ℕ) → Stored m' q a
            → At els j q b
            → ⊥
        still_apart k v is m' writes q a b j s found = elim (writes.old q a s) [
          | inl (same, value) ↦
              let one =
                unique 0 (suc j) q v b (el, refl, is ∙ ap (λ s. some (s, v)) (sym same)) found in
              absurd (omega (arith, one))
          | inr (ne, before) ↦ apart q a b (suc j) before found
        ]

        joined_one :
            {r : HashMap V × Bool} (k : Bytes) (v : V)
            → entry el ≡ some (k, v)
            → (m' : HashMap V) → Writes m k v m'
            → m.table_size ≤ m'.table_size
            → IsRehashed els m' r
            → IsRehashed (el ∷ els) m r
        joined_one {r} k v is m' writes larger rest = record {
          valid = rest.valid;
          grows = omega (arith, rest.grows);
          joins = λ e.
              let j = rest.joins e in
              record {
                old = λ q w s. elim (j.old q w s) [
                  | inr (i, a) ↦ inr (suc i, a)
                  | inl b ↦ elim (writes.old q w b) [
                    | inr (ne, before) ↦ inl before
                    | inl (same, value) ↦
                        inr (0, (el, refl, is ∙ ap₂ (λ s x. some (s, x)) (sym same) (sym value)))
                  ]
                ];
                kept = λ q w s. j.kept q w (
                    writes.kept q w
                      (λ same. apart q w v 0 s (el, refl, is ∙ ap (λ s. some (s, v)) (sym same)))
                      s);
                joined = λ q w i a. each q w i a j;
              };
        }
          where
            each :
                (q : Bytes) (w : V) (i : ℕ)
                → At (el ∷ els) i q w
                → Joins els m' r.0
                → Stored r.0 q w
            each q w zero a j =
                let both = At_eq (el ∷ els) 0 q k w v a (el, refl, is) in
                subst (λ s. Stored r.0 s w) (sym both.0)
                  (subst (Stored r.0 k) (sym both.1) (j.kept k v writes.new))
            each q w (suc i) a j = j.joined q w i a

        tail_unique : IsUnique els
        tail_unique i j q v w a b = omega (arith, unique (suc i) (suc j) q v w a b)

        skipped :
            {r : HashMap V × Bool}
            → entry el ≡ none
            → IsRehashed els m r
            → IsRehashed (el ∷ els) m r
        skipped {r} nothing rest = record {
          valid = rest.valid;
          grows = rest.grows;
          joins = λ e.
              let j = rest.joins e in
              record {
                old = λ k w s. elim (j.old k w s) [ inl b ↦ inl b | inr (i, a) ↦ inr (suc i, a) ];
                kept = j.kept;
                joined = λ k w i a. later k w i a j;
              };
        }
          where
            later :
                (k : Bytes) (w : V) (i : ℕ) → At (el ∷ els) i k w → Joins els m r.0 → Stored r.0 k w
            later k w zero (x, at, is) j =
                absurd (cc (sym is ∙ ap entry (sym (some-injective el x at)) ∙ nothing))
            later k w (suc i) a j = j.joined k w i a
