-- ===== src/HashMap/Keys.antt =====
-- The key of an element, which is stored in the element or behind a pointer, by its length.
use mathlib.Core.Option.{some-injective}
use mangl.Prelude.{
  ℕ, zero, suc, ◌≡◌, refl, sym, ap, ◌∙◌, Bool, true, false, ◌&&◌, ◌⊎◌, inl, inr, Option, none, some,
  [], ◌∷◌, arith, ltb, ◌==◌, if◌then◌else◌, length, take, drop, Bytes, Bool-cases, Option-cases,
  take-append_length,
}
use mangl.Text.{is_prefix}
use mangl.Text.Same.{is_prefix-take, take-is_prefix}
use mangl.Run.{done}
use mangl.HashMap.{Element, get_key, key_compare, has_key, write_element, key_static_length}

take_self : (s : Bytes) → take (length s) s ≡ s
take_self [] = refl
take_self (c ∷ s) = ap (λ t. c ∷ t) (take_self s)

same_length : (n : ℕ) (q : Bytes) → length q ≡ n → (n == length q) ≡ true
same_length n q e = ground arith

and_parts : (p q : Bool) → p && q ≡ true → (p ≡ true) × (q ≡ true)
and_parts true q e = (refl, e)
and_parts false q e = absurd (cc)

module _ {V : Type 0} where
  -- The bytes of the key, none for a long key that is not there.
  unfoldable pub stored_key : Element V → Bytes
  stored_key el =
      if ltb key_static_length el.key_length
      then elim el.key_dynamic [ none ↦ [] | some key ↦ key ]
      else el.key_static

  -- In use and with the key.
  abbrev pub holds_key : Element V → Bytes → Bool
  holds_key el key = el.in_use && (el.key_length == length key && is_prefix key (stored_key el))

  -- The key and the value of an element in use.
  unfoldable pub entry : Element V → Option (Bytes × V)
  unfolding stored_key
  entry el =
      if el.in_use
      then elim el.value [ none ↦ none | some v ↦ some (take el.key_length (stored_key el), v) ]
      else none

  -- A free element, or one with a value and with all bytes of its key.
  abbrev pub IsElement : Element V → Type 0
  IsElement el =
      (el.in_use ≡ false)
      ⊎ ((el.in_use ≡ true)
          × ((v : V) × (el.value ≡ some v))
          × (length (take el.key_length (stored_key el)) ≡ el.key_length))

  pub entry-write_element :
      (el : Element V) (key : Bytes) (v : V) → entry (write_element el key v) ≡ some (key, v)
  unfolding entry write_element
  entry-write_element el key v = elim (Bool-cases (ltb key_static_length (length key))) [
    | inl e ↦ rw e (ap (λ k. some (k, v)) (take_self key))
    | inr e ↦
        rw e (ap (λ k. some (k, v)) (take-append_length key (drop (length key) el.key_static)))
  ]

  pub write_element-IsElement :
      (el : Element V) (key : Bytes) (v : V) → IsElement (write_element el key v)
  unfolding write_element stored_key
  write_element-IsElement el key v = elim (Bool-cases (ltb key_static_length (length key))) [
    | inl e ↦ inr (refl, (v, refl), rw e (ap length (take_self key)))
    | inr e ↦ inr (
      refl,
      (v, refl),
      rw e (ap length (take-append_length key (drop (length key) el.key_static))),
    )
  ]

  pub holds_key-entry :
      (el : Element V) (q : Bytes)
      → IsElement el
      → holds_key el q ≡ true
      → (v : V) × (entry el ≡ some (q, v)) × (el.value ≡ some v)
  unfolding entry
  holds_key-entry el q (inl e) h = absurd (cc (rw e at h))
  holds_key-entry el q (inr (e, (v, is), len)) h =
      let (n, p) =
        and_parts (el.key_length == length q) (is_prefix q (stored_key el)) (rw e at h) in
      let same : el.key_length ≡ length q = ground arith in
      (
        v,
        rw (e, is)
            (ap (λ k. some (k, v))
              (ap (λ k. take k (stored_key el)) same ∙ is_prefix-take q (stored_key el) p)),
        is,
      )

  pub entry-holds_key :
      (el : Element V) (q : Bytes) (v : V)
      → IsElement el
      → entry el ≡ some (q, v)
      → (holds_key el q ≡ true) × (el.value ≡ some v)
  unfolding entry
  entry-holds_key el q v (inl e) h = absurd (cc (rw e at h))
  entry-holds_key el q v (inr (e, (w, is), len)) h =
      let pair : some (take el.key_length (stored_key el), w) ≡ some (q, v) = rw (e, is) at h in
      let both : (take el.key_length (stored_key el), w) ≡ (q, v) =
        some-injective (take el.key_length (stored_key el), w) (q, v) pair in
      let key : take el.key_length (stored_key el) ≡ q = ap (λ (x : Bytes × V). x.0) both in
      let n : length q ≡ el.key_length = ap length (sym key) ∙ len in
      let test : (el.key_length == length q) ≡ true = same_length el.key_length q n in
      let found = take-is_prefix q (stored_key el) (ap (λ k. take k (stored_key el)) n ∙ key) in
      (rw (e, test) found, is ∙ ap (λ (x : Bytes × V). some x.1) both)

  -- What an element is, by whether it is in use.
  pub IsElement-cases :
      (el : Element V)
      → IsElement el
      → ((el.in_use ≡ false) × (entry el ≡ none))
        ⊎ ((el.in_use ≡ true)
            × ((k : Bytes) × (v : V) × (entry el ≡ some (k, v))
                × (el.value ≡ some v)
                × (k ≡ take el.key_length (stored_key el))))
  unfolding entry
  IsElement-cases el (inl e) = inl (e, rw e refl)
  IsElement-cases el (inr (e, (v, is), len)) =
      inr (e, (take el.key_length (stored_key el), v, rw (e, is) refl, is, refl))

  -- The key of a valid element in use can be read.
  pub get_key-stored_key :
      (el : Element V) → IsElement el → el.in_use ≡ true → get_key el ≡ done (stored_key el)
  unfolding get_key stored_key
  get_key-stored_key el (inl e) u = absurd (cc)
  get_key-stored_key el (inr (e, (v, is), len)) u =
      elim (Bool-cases (ltb key_static_length el.key_length)) [
        | inr short ↦ rw short refl
        | inl long ↦ elim (Option-cases el.key_dynamic) [
          | inr (key, there) ↦ rw (long, there) refl
          | inl missing ↦
              let empty : 0 ≡ el.key_length =
                none_taken el.key_length (rw (long, missing) at len) in
              absurd (ground arith)
        ]
      ]
    where
      none_taken : (n : ℕ) → length {A = ℕ} (take n []) ≡ n → 0 ≡ n
      none_taken zero h = h
      none_taken (suc n) h = h

  -- So it is compared without a fault.
  pub has_key-holds_key :
      (el : Element V) (q : Bytes) → IsElement el → has_key el q ≡ done (holds_key el q)
  unfolding has_key key_compare stored_key
  has_key-holds_key el q formed = elim (Bool-cases el.in_use) [
    | inr u ↦ rw u refl
    | inl u ↦ elim (Bool-cases (el.key_length == length q)) [
      | inr n ↦ rw (u, n) refl
      | inl n ↦ rw (u, n, get_key-stored_key el formed u) refl
    ]
  ]
