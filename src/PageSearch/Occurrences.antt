-- ===== src/PageSearch/Occurrences.antt =====
-- Where the term of a page search stands: the matches of each line from the left, each behind the
-- end of the one before.
use mangl.Prelude.{
  ℕ, zero, suc, ◌+◌, ◌-◌, ◌≤◌, ◌<◌, ◌≡◌, ◌≢◌, refl, sym, ap, ◌∙◌, true, false, ◌⊎◌, inl, inr, List,
  [], ◌∷◌, arith, ltb, length, drop, Bytes, Bool-cases,
}
use mangl.Text.{is_prefix, is_prefix_ignore_case}
use mangl.PageSearch.{matches_here}

-- The columns of the matches in `str`, whose first byte is at `col`; `skip` more bytes belong to
-- the match before.
unfoldable pub columns : Bytes → ℕ → Bytes → ℕ → List ℕ
columns term skip [] col = []
columns term (suc skip) (c ∷ s) col = columns term skip s (col + 1)
columns term zero (c ∷ s) col = elim (matches_here term (c ∷ s)) [
  | true ↦ col ∷ columns term (length term - 1) s (col + 1)
  | false ↦ columns term 0 s (col + 1)
]

pub columns-cons_hit :
    (term : Bytes) (c : ℕ) (s : Bytes) (col : ℕ)
    → matches_here term (c ∷ s) ≡ true
    → columns term 0 (c ∷ s) col ≡ col ∷ columns term (length term - 1) s (col + 1)
unfolding columns
columns-cons_hit term c s col e = rw (e, columns)

pub columns-cons_miss :
    (term : Bytes) (c : ℕ) (s : Bytes) (col : ℕ)
    → matches_here term (c ∷ s) ≡ false
    → columns term 0 (c ∷ s) col ≡ columns term 0 s (col + 1)
unfolding columns
columns-cons_miss term c s col e = rw (e, columns)

pub columns-drop :
    (term : Bytes) (skip : ℕ) (s : Bytes) (col : ℕ)
    → columns term skip s col ≡ columns term 0 (drop skip s) (col + skip)
unfolding columns
columns-drop term zero s col = let e : col + 0 ≡ col = omega arith in rw e
columns-drop term (suc skip) [] col = refl
columns-drop term (suc skip) (c ∷ s) col =
    let e : col + suc skip ≡ col + 1 + skip = omega arith in
    rw e (columns-drop term skip s (col + 1))

is_prefix-length : (term s : Bytes) → is_prefix term s ≡ true → length term ≤ length s
unfolding is_prefix
is_prefix-length [] s h = omega arith
is_prefix-length (c ∷ term) [] h = cc
is_prefix-length (c ∷ term) (d ∷ s) h = ground (arith, is_prefix-length term s)

is_prefix_ignore_case-length :
    (term s : Bytes) → is_prefix_ignore_case term s ≡ true → length term ≤ length s
unfolding is_prefix_ignore_case
is_prefix_ignore_case-length [] s h = omega arith
is_prefix_ignore_case-length (c ∷ term) [] h = cc
is_prefix_ignore_case-length (c ∷ term) (d ∷ s) h =
    ground (arith, is_prefix_ignore_case-length term s)

-- A match lies inside the line.
pub matches_here-length : (term s : Bytes) → matches_here term s ≡ true → length term ≤ length s
unfolding matches_here
matches_here-length term s h =
    ground (arith, is_prefix-length term s, is_prefix_ignore_case-length term s)

-- The term matches at column `k` of `s`, which begins at column `col`.
abbrev pub MatchesAt : Bytes → Bytes → ℕ → ℕ → Type 0
MatchesAt term s col k = (col ≤ k) × (matches_here term (drop (k - col) s) ≡ true)

-- All the columns do: each is at least `least`, and the next one lies behind the whole match.
abbrev pub AreMatches : Bytes → Bytes → ℕ → ℕ → List ℕ → Type 0
AreMatches term s col least [] = Unit {0}
AreMatches term s col least (k ∷ ks) =
    (least ≤ k) × MatchesAt term s col k × AreMatches term s col (k + length term) ks

AreMatches-cons :
    (term : Bytes) (c : ℕ) (s : Bytes) (col least : ℕ) (ks : List ℕ)
    → AreMatches term s (col + 1) least ks
    → AreMatches term (c ∷ s) col least ks
AreMatches-cons term c s col least [] h = tt
AreMatches-cons term c s col least (k ∷ ks) h =
    let e : k - col ≡ suc (k - (col + 1)) = omega arith in
    (h.0, (omega arith, rw e h.1.1), AreMatches-cons term c s col (k + length term) ks h.2)

AreMatches-least :
    (term s : Bytes) (col least least' : ℕ) (ks : List ℕ)
    → least' ≤ least
    → AreMatches term s col least ks
    → AreMatches term s col least' ks
AreMatches-least term s col least least' [] l h = tt
AreMatches-least term s col least least' (k ∷ ks) l h = (omega arith, h.1, h.2)

-- Every column that is reported is a match, and no two matches overlap.
pub columns-AreMatches :
    (term : Bytes) (skip : ℕ) (s : Bytes) (col : ℕ)
    → 0 < length term
    → AreMatches term s col (col + skip) (columns term skip s col)
unfolding columns
columns-AreMatches term skip [] col p = tt
columns-AreMatches term (suc skip) (c ∷ s) col p =
    let e : col + suc skip ≡ col + 1 + skip = omega arith in
    rw e (AreMatches-cons term c s col _ _ (columns-AreMatches term skip s (col + 1) p))
columns-AreMatches term zero (c ∷ s) col p = elim (Bool-cases (matches_here term (c ∷ s))) [
  | inl e ↦
      let z : col - col ≡ 0 = omega arith in
      let b : col + 1 + (length term - 1) ≡ col + length term = omega arith in
      rw (columns-cons_hit term c s col e) (
        omega arith,
        (omega arith, rw z e),
        rw b at (
            AreMatches-cons term c s col _ _
              (columns-AreMatches term (length term - 1) s (col + 1) p)),
      )
  | inr e ↦ rw (columns-cons_miss term c s col e) (
      AreMatches-cons term c s col _ _ (
        AreMatches-least term s (col + 1) (col + 1 + 0) (col + 0) _ (omega arith)
          (columns-AreMatches term 0 s (col + 1) p)))
]

-- The column lies under one of the matches.
abbrev pub Covered : Bytes → ℕ → List ℕ → Type 0
Covered term j [] = ⊥
Covered term j (k ∷ ks) = ((k ≤ j) × (j < k + length term)) ⊎ Covered term j ks

no_match_in_nil : (term : Bytes) → 0 < length term → matches_here term [] ≢ true
no_match_in_nil term p h = omega (arith, matches_here-length term [] h)

drop_nil : (n : ℕ) → drop {A = ℕ} n [] ≡ []
drop_nil zero = refl
drop_nil (suc n) = refl

MatchesAt-tail :
    (term : Bytes) (c : ℕ) (s : Bytes) (col j : ℕ)
    → col < j
    → MatchesAt term (c ∷ s) col j
    → MatchesAt term s (col + 1) j
MatchesAt-tail term c s col j l m =
    let e : j - col ≡ suc (j - (col + 1)) = omega arith in (omega arith, rw e at m.1)

MatchesAt-head :
    (term : Bytes) (s : Bytes) (col j : ℕ)
    → ltb col j ≡ false
    → MatchesAt term s col j
    → (j ≡ col) × (matches_here term s ≡ true)
MatchesAt-head term s col j l m = let e : j - col ≡ 0 = ground arith in (ground arith, rw e at m.1)

-- Every match in the line is reported or overlaps one that is.
pub columns-Covered :
    (term : Bytes) (skip : ℕ) (s : Bytes) (col j : ℕ)
    → 0 < length term
    → MatchesAt term s col j
    → (j < col + skip) ⊎ Covered term j (columns term skip s col)
columns-Covered term skip [] col j p m =
    absurd (no_match_in_nil term p (ap (matches_here term) (sym (drop_nil (j - col))) ∙ m.1))
columns-Covered term (suc skip) (c ∷ s) col j p m = elim (Bool-cases (ltb col j)) [
  | inr here ↦ inl (omega (arith, (MatchesAt-head term (c ∷ s) col j here m).0))
  | inl later ↦
      elim (columns-Covered term skip s (col + 1) j p
        (MatchesAt-tail term c s col j (ground arith) m)) [
          | inl l ↦ inl (omega arith)
          | inr k ↦ inr (unfold columns in k)
        ]
]
columns-Covered term zero (c ∷ s) col j p m = elim (Bool-cases (matches_here term (c ∷ s))) [
  | inl e ↦ rw (columns-cons_hit term c s col e) (elim (Bool-cases (ltb col j)) [
    | inr here ↦ inr (inl (omega (arith, (MatchesAt-head term (c ∷ s) col j here m).0)))
    | inl later ↦
        elim (columns-Covered term (length term - 1) s (col + 1) j p
          (MatchesAt-tail term c s col j (ground arith) m)) [
            | inl l ↦ inr (inl (ground arith))
            | inr k ↦ inr (inr k)
          ]
  ])
  | inr e ↦ rw (columns-cons_miss term c s col e) (elim (Bool-cases (ltb col j)) [
    | inr here ↦ absurd (cc (e, (MatchesAt-head term (c ∷ s) col j here m).1))
    | inl later ↦
        elim (columns-Covered term 0 s (col + 1) j p
          (MatchesAt-tail term c s col j (ground arith) m)) [
            | inl l ↦ absurd (ground arith)
            | inr k ↦ inr k
          ]
  ])
]
