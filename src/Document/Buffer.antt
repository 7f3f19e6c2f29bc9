-- ===== src/Document/Buffer.antt =====
-- A span's buffer: every write lies inside it, and a NUL follows what has been written.
use mangl.Prelude.{
  ℕ, zero, suc, ◌+◌, ◌-◌, ◌*◌, ◌≤◌, ◌<◌, ◌≡◌, ◌≢◌, refl, sym, ap, ap₂, subst, ◌∙◌, true, ◌⊎◌, inl,
  inr, [], ◌∷◌, ◌++◌, arith, ltb, leb, ◌==◌, if◌then◌else◌, length, take, set, replicate, Bytes,
  append_assoc, append-nil, length-append, length-replicate, take-append_length, Bool-cases,
}
use mangl.Run.{Run, done, ◌>>=◌}
use mangl.Document.{
  Span, empty_span, translate, grow_span, put_byte, put_letters, add_to_span, starting_span_size,
}

-- What has been written, and zeros behind it.
pub record IsSpan (s : Span) : Type 0 where
  pub free : ℕ
  pub written : Bytes
  pub memory : s.buffer ≡ written ++ replicate free 0
  pub used : length written ≡ s.length_used
  pub size : s.buffer_size ≡ s.length_used + free
  pub terminated : (s.buffer_size ≡ 0) ⊎ ((0 < free) × (starting_span_size ≤ s.buffer_size))

-- The text of a span.
abbrev pub text : Span → Bytes
text s = take s.length_used s.buffer

pub text-written : (s : Span) (v : IsSpan s) → text s ≡ v.written
text-written s v =
    ap₂ take (sym v.used) v.memory ∙ take-append_length v.written (replicate v.free 0)

-- A span with room for `k` bytes and a NUL.
record HasRoom (k : ℕ) (xs : Bytes) (s : Span) : Type 0 where
  room : ℕ
  filled : s.buffer ≡ xs ++ replicate room 0
  used : length xs ≡ s.length_used
  size : s.buffer_size ≡ s.length_used + room
  enough : k < room
  least : starting_span_size ≤ s.buffer_size

nil_of_length : (xs : Bytes) → length xs ≡ 0 → xs ≡ []
nil_of_length [] e = refl
nil_of_length (x ∷ xs) e = absurd (omega arith)

allocated :
    (s : Span) (v : IsSpan s)
    → s.buffer_size ≢ 0
    → (0 < v.free) × (starting_span_size ≤ s.buffer_size)
allocated s v ne = elim v.terminated [ inl e ↦ absurd (ne e) | inr h ↦ h ]

grow_span-HasRoom : (s : Span) (v : IsSpan s) (k : ℕ) → k ≤ 2 → HasRoom k v.written (grow_span s k)
unfolding grow_span
grow_span-HasRoom s v k l = elim (Bool-cases (s.buffer_size == 0)) [
  | inl e ↦
      let nil : v.written ≡ [] = nil_of_length v.written (ground (arith, v.used, v.size)) in
      rw e (record {
        room = starting_span_size;
        filled = ap (λ xs. xs ++ replicate starting_span_size 0) (sym nil);
        used = ap length nil;
        size = omega arith;
        enough = omega arith;
        least = omega arith;
      })
  | inr e ↦
      let (more, least) = allocated s v (ground arith) in
      rw e (elim (Bool-cases (leb s.buffer_size (s.length_used + k))) [
        | inl g ↦ rw g (record {
          room = s.buffer_size * 2 - s.length_used;
          filled =
              ap (λ xs. xs ++ replicate (s.buffer_size * 2 - s.length_used) 0) (text-written s v);
          used = v.used;
          size = omega (arith, v.size);
          enough = omega (arith, v.size, more, least);
          least = omega (arith, least);
        })
        | inr g ↦ rw g (record {
          room = v.free;
          filled = v.memory;
          used = v.used;
          size = v.size;
          enough = ground (arith, v.size);
          least = least;
        })
      ])
]

set-append-replicate :
    (xs : Bytes) (n c : ℕ)
    → 0 < n
    → set (xs ++ replicate n 0) (length xs) c ≡ (xs ++ c ∷ []) ++ replicate (n - 1) 0
set-append-replicate [] zero c l = absurd (omega arith)
set-append-replicate [] (suc n) c l = let e : suc n - 1 ≡ n = omega arith in rw e
set-append-replicate (x ∷ xs) n c l = ap (λ t. x ∷ t) (set-append-replicate xs n c l)

put_byte-HasRoom :
    (s : Span) (xs : Bytes) (k c : ℕ)
    → HasRoom (suc k) xs s
    → (s' : Span) × (put_byte s c ≡ done s') × HasRoom k (xs ++ c ∷ []) s'
put_byte-HasRoom s xs k c h =
    let inside : ltb s.length_used (length s.buffer) ≡ true = ground (
      arith,
      ap length h.filled,
      length-append xs (replicate h.room 0),
      length-replicate {A = ℕ} h.room 0,
      h.used,
      h.enough,
    ) in
    (
      record s { buffer = set s.buffer s.length_used c; length_used = s.length_used + 1 },
      rw inside,
      record {
        room = h.room - 1;
        filled =
            rw (h.filled, ← h.used) (set-append-replicate xs h.room c (omega (arith, h.enough)));
        used = omega (arith, length-append xs (c ∷ []), h.used);
        size = omega (arith, h.size, h.enough);
        enough = omega (arith, h.enough);
        least = h.least;
      },
    )

HasRoom→IsSpan : (s : Span) (xs : Bytes) → HasRoom 0 xs s → IsSpan s
HasRoom→IsSpan s xs h = record {
  free = h.room;
  written = xs;
  memory = h.filled;
  used = h.used;
  size = h.size;
  terminated = inr (h.enough, h.least);
}

-- The bytes that a letter becomes: none beyond Latin-1.
abbrev pub encoded : ℕ × ℕ → Bytes
encoded (a, b) = if ltb a 256 then if ltb 0 b then a ∷ b ∷ [] else a ∷ [] else []

-- The span after a write.
record Wrote (s : Span) (bytes : Bytes) (r : Run Span) : Type 0 where
  span : Span
  ran : r ≡ done span
  valid : IsSpan span
  wrote : text span ≡ text s ++ bytes

Wrote-HasRoom :
    (s s' : Span) (v : IsSpan s) (bytes : Bytes) {r : Run Span}
    → r ≡ done s'
    → HasRoom 0 (v.written ++ bytes) s'
    → Wrote s bytes r
unfolding HasRoom→IsSpan
Wrote-HasRoom s s' v bytes e h = record {
  span = s';
  ran = e;
  valid = HasRoom→IsSpan s' (v.written ++ bytes) h;
  wrote =
      text-written s' (HasRoom→IsSpan s' (v.written ++ bytes) h)
      ∙ ap (λ xs. xs ++ bytes) (sym (text-written s v));
}

put_one : (s : Span) (v : IsSpan s) (a : ℕ) → Wrote s (a ∷ []) (put_byte (grow_span s 1) a)
put_one s v a =
    let (s', ran, h) =
      put_byte-HasRoom (grow_span s 1) v.written 0 a (grow_span-HasRoom s v 1 (omega arith)) in
    Wrote-HasRoom s s' v (a ∷ []) ran h

put_two :
    (s : Span) (v : IsSpan s) (a b : ℕ)
    → Wrote s (a ∷ b ∷ []) (put_byte (grow_span s 2) a >>= λ s'. put_byte s' b)
put_two s v a b =
    let (s', ran, h) =
      put_byte-HasRoom (grow_span s 2) v.written 1 a (grow_span-HasRoom s v 2 (omega arith)) in
    let (t, ran', h') = put_byte-HasRoom s' (v.written ++ a ∷ []) 0 b h in
    Wrote-HasRoom s t v (a ∷ b ∷ []) (ap (λ r. r >>= λ s'. put_byte s' b) ran ∙ ran')
      (subst (λ xs. HasRoom 0 xs t) (append_assoc v.written (a ∷ []) (b ∷ [])) h')

put_letters-Wrote : (s : Span) → IsSpan s → (p : ℕ × ℕ) → Wrote s (encoded p) (put_letters s p)
unfolding put_letters
put_letters-Wrote s v (a, b) = elim (Bool-cases (ltb a 256)) [
  | inr e ↦ rw e (record { span = s; ran = refl; valid = v; wrote = sym (append-nil (text s)) })
  | inl e ↦ rw e (elim (Bool-cases (ltb 0 b)) [
    | inl two ↦ rw two (put_two s v a b)
    | inr one ↦ rw one (put_one s v a)
  ])
]

-- Adding a letter to a span never writes outside its buffer, keeps a NUL behind the text, and
-- appends exactly the bytes that the letter is written as.
pub add_to_span_lem :
    (s : Span) (letter : ℕ)
    → IsSpan s
    → (s' : Span) × (add_to_span s letter ≡ done s')
      × IsSpan s'
      × (text s' ≡ text s ++ encoded (translate letter))
add_to_span_lem s letter v =
    let w = put_letters-Wrote s v (translate letter) in (w.span, w.ran, w.valid, w.wrote)

pub empty_span-IsSpan : IsSpan empty_span
empty_span-IsSpan = record {
  free = 0;
  written = [];
  memory = refl;
  used = refl;
  size = refl;
  terminated = inl refl;
}
