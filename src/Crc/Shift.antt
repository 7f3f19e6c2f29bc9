-- ===== src/Crc/Shift.antt =====
-- The checksum is that of a shift register, which takes the text bit by bit.
use Prim.Native.Nat.{bit_xor}
use mangl.Prelude.{
  ℕ, zero, suc, ◌+◌, ◌*◌, ◌/◌, ◌%◌, ◌<◌, ◌≡◌, refl, sym, ap, ap₂, ◌∙◌, Bool, true, false, ◌&&◌, inl,
  inr, Option, none, some, [], ◌∷◌, arith, ◌==◌, if◌then◌else◌, get_elem?, Bytes, Bool-cases,
  ==_iff,
}
use mangl.Run.{done}
use mangl.Crc.{crc32_tab, crc32_loop, crc32}
use mangl.Crc.Xor.{xor_half, xor_odd, xor-zero, zero-xor, xor_comm, xor_assoc}

-- The polynomial of the CRC, lowest degree first.
abbrev pub polynomial : ℕ
polynomial = 0xedb88320

-- What a bit that is shifted out feeds back.
abbrev pub feedback : ℕ → ℕ
feedback b = if b == 1 then polynomial else 0

-- The register after one shift, and after `n`.
abbrev pub shift : ℕ → ℕ
shift x = bit_xor (x / 2) (feedback (x % 2))

unfoldable pub shifts : ℕ → ℕ → ℕ
shifts zero x = x
shifts (suc n) x = shifts n (shift x)

-- Each byte is added to the register, which is shifted by its eight bits.
unfoldable pub crc_bitwise : Bytes → ℕ → ℕ
unfolding shifts
crc_bitwise [] crc = crc
crc_bitwise (c ∷ s) crc = crc_bitwise s (shifts 8 (bit_xor crc c))

xor_swap : (a b c d : ℕ) → bit_xor (bit_xor a b) (bit_xor c d) ≡ bit_xor (bit_xor a c) (bit_xor b d)
xor_swap a b c d =
    xor_assoc a b (bit_xor c d)
    ∙ ap (bit_xor a)
        (sym (xor_assoc b c d) ∙ ap (λ t. bit_xor t d) (xor_comm b c) ∙ xor_assoc c b d)
    ∙ sym (xor_assoc a c (bit_xor b d))

feedback-xor_bits :
    (u v : ℕ) → u < 2 → v < 2 → feedback ((u + v) % 2) ≡ bit_xor (feedback u) (feedback v)
feedback-xor_bits zero zero l k = refl
feedback-xor_bits zero (suc zero) l k = refl
feedback-xor_bits (suc zero) zero l k = refl
feedback-xor_bits (suc zero) (suc zero) l k = refl
feedback-xor_bits (suc (suc u)) v l k = absurd (omega (arith, l))
feedback-xor_bits zero (suc (suc v)) l k = absurd (omega (arith, k))
feedback-xor_bits (suc zero) (suc (suc v)) l k = absurd (omega (arith, k))

shift-xor : (a b : ℕ) → shift (bit_xor a b) ≡ bit_xor (shift a) (shift b)
shift-xor a b =
    let odd : bit_xor a b % 2 ≡ (a % 2 + b % 2) % 2 = omega (arith, xor_odd a b) in
    ap₂ (λ h p. bit_xor h (feedback p)) (xor_half a b) odd
    ∙ ap (bit_xor (bit_xor (a / 2) (b / 2)))
        (feedback-xor_bits (a % 2) (b % 2) (omega arith) (omega arith))
    ∙ xor_swap (a / 2) (b / 2) (feedback (a % 2)) (feedback (b % 2))

-- Shifting is linear.
shifts-xor : (n a b : ℕ) → shifts n (bit_xor a b) ≡ bit_xor (shifts n a) (shifts n b)
unfolding shifts
shifts-xor zero a b = refl
shifts-xor (suc n) a b = ap (shifts n) (shift-xor a b) ∙ shifts-xor n (shift a) (shift b)

-- The lowest bits of a number, and the others.
unfoldable low : ℕ → ℕ → ℕ
low zero x = 0
low (suc n) x = low n (x / 2) * 2 + x % 2

unfoldable high : ℕ → ℕ → ℕ
high zero x = x
high (suc n) x = high n (x / 2)

-- Only the bits that are shifted out feed back; the others come to their places.
shifts-low : (n x : ℕ) → shifts n x ≡ bit_xor (shifts n (low n x)) (high n x)
unfolding shifts low high
shifts-low zero x = sym (zero-xor x)
shifts-low (suc n) x =
    let y = low n (x / 2) * 2 + x % 2 in
    let half : y / 2 ≡ low n (x / 2) = omega arith in
    let odd : y % 2 ≡ x % 2 = omega arith in
    shifts-xor n (x / 2) (feedback (x % 2))
    ∙ ap (λ t. bit_xor t (shifts n (feedback (x % 2)))) (shifts-low n (x / 2))
    ∙ xor_assoc (shifts n (low n (x / 2))) (high n (x / 2)) (shifts n (feedback (x % 2)))
    ∙ ap (bit_xor (shifts n (low n (x / 2))))
        (xor_comm (high n (x / 2)) (shifts n (feedback (x % 2))))
    ∙ sym (xor_assoc (shifts n (low n (x / 2))) (shifts n (feedback (x % 2))) (high n (x / 2)))
    ∙ ap (λ t. bit_xor t (high n (x / 2)))
        (sym (shifts-xor n (low n (x / 2)) (feedback (x % 2)))
          ∙ ap₂ (λ h p. shifts n (bit_xor h (feedback p))) (sym half) (sym odd))

low_eight : (x : ℕ) → low 8 x ≡ x % 256
unfolding low
low_eight x = omega arith

high_eight : (x : ℕ) → high 8 x ≡ x / 256
unfolding high
high_eight x = omega arith

high-xor : (n a b : ℕ) → high n (bit_xor a b) ≡ bit_xor (high n a) (high n b)
unfolding high
high-xor zero a b = refl
high-xor (suc n) a b = ap (high n) (xor_half a b) ∙ high-xor n (a / 2) (b / 2)

shifts_eight : (x : ℕ) → shifts 8 x ≡ bit_xor (shifts 8 (x % 256)) (x / 256)
shifts_eight x = shifts-low 8 x ∙ ap₂ (λ l h. bit_xor (shifts 8 l) h) (low_eight x) (high_eight x)

-- The row of the table is what the register makes of the byte.
unfoldable is_row : ℕ → Bool
unfolding shifts crc32_tab
is_row x = elim (get_elem? crc32_tab x) [ none ↦ false | some t ↦ t == shifts 8 x ]

unfoldable all_below : ℕ → (ℕ → Bool) → Bool
all_below zero p = true
all_below (suc n) p = p n && all_below n p

all_below_at : (n : ℕ) (p : ℕ → Bool) (x : ℕ) → all_below n p ≡ true → x < n → p x ≡ true
unfolding all_below
all_below_at zero p x e l = absurd (omega (arith, l))
all_below_at (suc n) p x e l = elim (Bool-cases (x == n)) [
  | inl same ↦ ap p (ground arith) ∙ (and_parts (p n) (all_below n p) e).0
  | inr ne ↦ all_below_at n p x (and_parts (p n) (all_below n p) e).1 (ground arith)
]
  where
    and_parts : (a b : Bool) → a && b ≡ true → (a ≡ true) × (b ≡ true)
    and_parts true b e = (refl, e)
    and_parts false b e = absurd (cc e)

rows : all_below 256 is_row ≡ true
unfolding all_below is_row
rows = refl

row_at : (x : ℕ) → x < 256 → get_elem? crc32_tab x ≡ some (shifts 8 x)
unfolding is_row
row_at x l = found (get_elem? crc32_tab x) refl (all_below_at 256 is_row x rows l)
  where
    found :
        (o : Option ℕ)
        → get_elem? crc32_tab x ≡ o
        → elim o [ none ↦ false | some t ↦ t == shifts 8 x ] ≡ true
        → get_elem? crc32_tab x ≡ some (shifts 8 x)
    found none e h = absurd (cc h)
    found (some t) e h = e ∙ ap some ((==_iff t (shifts 8 x)).0 h)

abbrev pub AreBytes : Bytes → Type 0
AreBytes [] = Unit {0}
AreBytes (c ∷ s) = (c < 256) × AreBytes s

crc32_loop-crc_bitwise :
    (s : Bytes) (crc : ℕ) → AreBytes s → crc32_loop s crc ≡ done (crc_bitwise s crc)
unfolding crc32_loop crc_bitwise
crc32_loop-crc_bitwise [] crc h = refl
crc32_loop-crc_bitwise (c ∷ s) crc (l, h) =
    let x = bit_xor crc c in
    let rest : x / 256 ≡ crc / 256 =
      sym (high_eight x)
      ∙ high-xor 8 crc c
      ∙ ap₂ bit_xor (high_eight crc) (high_eight c ∙ omega (arith, l))
      ∙ xor-zero (crc / 256) in
    let next : bit_xor (shifts 8 (x % 256)) (crc / 256) ≡ shifts 8 x =
      ap (bit_xor (shifts 8 (x % 256))) (sym rest) ∙ sym (shifts_eight x) in
    rw (row_at (x % 256) (omega arith), next) (crc32_loop-crc_bitwise s (shifts 8 x) h)

-- On a string of bytes, `crc32` never reads outside its table and computes the checksum of the shift
-- register that takes the string bit by bit, the lowest bit of each byte first, with the reversed
-- polynomial 0xedb88320.
pub crc32-crc_bitwise : (s : Bytes) → AreBytes s → crc32 s ≡ done (crc_bitwise s 0)
unfolding crc32
crc32-crc_bitwise s h = crc32_loop-crc_bitwise s 0 h
