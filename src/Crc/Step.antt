-- ===== src/Crc/Step.antt =====
-- `crc32` never reads outside its table.
use mangl.Prelude.{ℕ, ◌%◌, ◌/◌, ◌≡◌, refl, [], ◌∷◌, arith, get_elem?, some, Bytes, get_elem?-lt}
use Prim.Native.Nat.{bit_xor}
use mangl.Run.{done}
use mangl.Crc.{crc32_tab, crc32_loop, crc32}

pub term_at : (x : ℕ) → (t : ℕ) × (get_elem? crc32_tab (x % 256) ≡ some t)
unfolding crc32_tab
term_at x = get_elem?-lt crc32_tab (x % 256) (omega arith)

crc32_loop-done : (s : Bytes) (crc : ℕ) → (c : ℕ) × (crc32_loop s crc ≡ done c)
unfolding crc32_loop
crc32_loop-done [] crc = (crc, refl)
crc32_loop-done (c ∷ s) crc =
    let (t, e) = term_at (bit_xor crc c) in
    let (r, f) = crc32_loop-done s (bit_xor t (crc / 256)) in (r, rw e f)

-- The checksum is computed without a fault, for every text.
pub crc32-done : (s : Bytes) → (c : ℕ) × (crc32 s ≡ done c)
unfolding crc32
crc32-done s = crc32_loop-done s 0
