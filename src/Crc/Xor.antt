-- ===== src/Crc/Xor.antt =====
-- The laws of `^` that a shift register rests on, digit by digit.
use Prim.Native.Nat.{bit_xor, digits, differ, bit_xor-bitwise}
use mangl.Prelude.{ℕ, zero, suc, ◌+◌, ◌*◌, ◌/◌, ◌%◌, ◌<◌, ◌≤◌, ◌≡◌, refl, sym, ap, ◌∙◌, arith}

-- The definition that the native operation stands for, with fuel.
abbrev xor_digits : ℕ → ℕ → ℕ → ℕ
xor_digits n a b = digits (λ b. b) differ n a b

xor_digits_fuel : (n m a b : ℕ) → a ≤ n → a ≤ m → xor_digits n a b ≡ xor_digits m a b
xor_digits_fuel zero zero a b p q = refl
xor_digits_fuel zero (suc m) zero b p q = refl
xor_digits_fuel zero (suc m) (suc a) b p q = absurd (omega arith)
xor_digits_fuel (suc n) zero zero b p q = refl
xor_digits_fuel (suc n) zero (suc a) b p q = absurd (omega arith)
xor_digits_fuel (suc n) (suc m) zero b p q = refl
xor_digits_fuel (suc n) (suc m) (suc a) b p q =
    ap (λ t. t * 2 + differ (suc a % 2) (b % 2))
      (xor_digits_fuel n m (suc a / 2) (b / 2) (omega arith) (omega arith))

differ_bit : (a b : ℕ) → a < 2 → b < 2 → differ a b ≡ (a + b) % 2
differ_bit zero b p q = omega arith
differ_bit (suc zero) zero p q = refl
differ_bit (suc zero) (suc zero) p q = refl
differ_bit (suc zero) (suc (suc b)) p q = absurd (omega arith)
differ_bit (suc (suc a)) b p q = absurd (omega arith)

-- The lowest digit, and the others.
xor_step : (a b : ℕ) → bit_xor a b ≡ bit_xor (a / 2) (b / 2) * 2 + (a + b) % 2
xor_step zero b = bit_xor-bitwise 0 b ∙ omega (arith, bit_xor-bitwise 0 (b / 2))
xor_step (suc a) b =
    bit_xor-bitwise (suc a) b
    ∙ omega (
      arith,
      xor_digits_fuel a (suc a / 2) (suc a / 2) (b / 2) (omega arith) (omega arith),
      bit_xor-bitwise (suc a / 2) (b / 2),
      differ_bit (suc a % 2) (b % 2) (omega arith) (omega arith),
    )

pub xor_half : (a b : ℕ) → bit_xor a b / 2 ≡ bit_xor (a / 2) (b / 2)
xor_half a b = omega (arith, xor_step a b)

pub xor_odd : (a b : ℕ) → bit_xor a b % 2 ≡ (a + b) % 2
xor_odd a b = omega (arith, xor_step a b)

-- By induction on a bound, since the digits go on from the half.
xor-zero_below : (k a : ℕ) → a < k → bit_xor a 0 ≡ a
xor-zero_below zero a l = absurd (omega (arith, l))
xor-zero_below (suc k) zero l = refl
xor-zero_below (suc k) (suc a) l =
    omega (arith, xor_step (suc a) 0, xor-zero_below k (suc a / 2) (omega (arith, l)))

pub xor-zero : (a : ℕ) → bit_xor a 0 ≡ a
xor-zero a = xor-zero_below (suc a) a (omega arith)

pub zero-xor : (a : ℕ) → bit_xor 0 a ≡ a
zero-xor a = bit_xor-bitwise 0 a

xor_comm_below : (k a b : ℕ) → a < k → bit_xor a b ≡ bit_xor b a
xor_comm_below zero a b l = absurd (omega (arith, l))
xor_comm_below (suc k) zero b l = zero-xor b ∙ sym (xor-zero b)
xor_comm_below (suc k) (suc a) b l = omega (
  arith,
  xor_step (suc a) b,
  xor_step b (suc a),
  xor_comm_below k (suc a / 2) (b / 2) (omega (arith, l)),
)

pub xor_comm : (a b : ℕ) → bit_xor a b ≡ bit_xor b a
xor_comm a b = xor_comm_below (suc a) a b (omega arith)

xor_assoc_below : (k a b c : ℕ) → a < k → bit_xor (bit_xor a b) c ≡ bit_xor a (bit_xor b c)
xor_assoc_below zero a b c l = absurd (omega (arith, l))
xor_assoc_below (suc k) zero b c l =
    ap (λ t. bit_xor t c) (zero-xor b) ∙ sym (zero-xor (bit_xor b c))
xor_assoc_below (suc k) (suc a) b c l = omega (
  arith,
  xor_step (bit_xor (suc a) b) c,
  xor_step (suc a) (bit_xor b c),
  xor_odd (suc a) b,
  xor_odd b c,
  ap (λ t. bit_xor t (c / 2)) (xor_half (suc a) b),
  ap (bit_xor (suc a / 2)) (xor_half b c),
  xor_assoc_below k (suc a / 2) (b / 2) (c / 2) (omega (arith, l)),
)

pub xor_assoc : (a b c : ℕ) → bit_xor (bit_xor a b) c ≡ bit_xor a (bit_xor b c)
xor_assoc a b c = xor_assoc_below (suc a) a b c (omega arith)
