-- ===== src/Run.antt =====
-- How a function of main.c ends: with a result, by `exit`, or in a fault, which stands for an
-- access outside an array, through a null pointer or to freed memory.
use mangl.Prelude.{ℕ, ◌-◌, ◌≡◌, refl, Option, none, some, length, take, ltb, if◌then◌else◌, Bytes}

pub data Run {ℓ} (A : Type ℓ) : Type ℓ where
  done : A → Run A
  exited : ℕ → Run A
  fault : Run A

infixl 5 ◌>>=◌
abbrev pub ◌>>=◌ {ℓ κ} : {A : Type ℓ} {B : Type κ} → Run A → (A → Run B) → Run B
done a >>= f = f a
exited n >>= f = exited n
fault >>= f = fault

-- A read through a null pointer, or outside an array.
abbrev pub deref {ℓ} : {A : Type ℓ} → Option A → Run A
deref none = fault
deref (some a) = done a

-- `strcpy` into an array of `size` bytes.
abbrev pub strcpy : ℕ → Bytes → Run Bytes
strcpy size s = if ltb (length s) size then done s else fault

-- `snprintf(dst, size, "%s", s)`
abbrev pub truncated : ℕ → Bytes → Bytes
truncated size s = take (size - 1) s

-- The run ends with a result that satisfies `P`, or the program has exited.
abbrev pub Returns {ℓ} : {A : Type ℓ} → Run A → (A → Type 0) → Type 0
Returns (done a) P = P a
Returns (exited n) P = Unit {0}
Returns fault P = ⊥

pub Returns-bind :
    {A B : Type 0} (m : Run A) (f : A → Run B) (P : A → Type 0) (Q : B → Type 0)
    → Returns m P
    → ((a : A) → P a → Returns (f a) Q)
    → Returns (m >>= f) Q
Returns-bind (done a) f P Q h k = k a h
Returns-bind (exited n) f P Q h k = tt
Returns-bind fault f P Q h k = absurd h

pub Returns-weaken :
    {A : Type 0} (m : Run A) (P Q : A → Type 0) → ((a : A) → P a → Q a) → Returns m P → Returns m Q
Returns-weaken (done a) P Q f h = f a h
Returns-weaken (exited n) P Q f h = tt
Returns-weaken fault P Q f h = h

-- What holds behind a step, from what holds of the whole: used to strengthen a postcondition.
pub Returns-refine :
    {A B : Type 0} (m : Run A) (f : A → Run B) (P Q : B → Type 0)
    → Returns (m >>= f) P
    → ((a : A) → m ≡ done a → Returns (f a) P → Returns (f a) Q)
    → Returns (m >>= f) Q
Returns-refine (done a) f P Q h k = k a refl h
Returns-refine (exited n) f P Q h k = tt
Returns-refine fault f P Q h k = absurd h

-- It ends without a fault.
abbrev pub IsSafe {ℓ} : {A : Type ℓ} → Run A → Type 0
IsSafe r = Returns r (λ _. Unit {0})

-- Whatever the run ends with, if it ends with a result, satisfies `P`.
abbrev pub Yields : {A : Type 0} → Run A → (A → Type 0) → Type 0
Yields (done a) P = P a
Yields (exited n) P = Unit {0}
Yields fault P = Unit {0}

pub Yields-bind :
    {A B : Type 0} (m : Run A) (f : A → Run B) (P : B → Type 0)
    → ((a : A) → Yields (f a) P)
    → Yields (m >>= f) P
Yields-bind (done a) f P k = k a
Yields-bind (exited n) f P k = tt
Yields-bind fault f P k = tt

pub Returns-of_safe :
    {A : Type 0} (m : Run A) (P : A → Type 0) → IsSafe m → Yields m P → Returns m P
Returns-of_safe (done a) P safe y = y
Returns-of_safe (exited n) P safe y = tt
Returns-of_safe fault P safe y = absurd safe

pub IsSafe-head :
    {A B : Type 0} (m : Run A) (f : A → Run B) (P : B → Type 0) → Returns (m >>= f) P → IsSafe m
IsSafe-head (done a) f P h = tt
IsSafe-head (exited n) f P h = tt
IsSafe-head fault f P h = absurd h
