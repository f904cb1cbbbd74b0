-- ===== src/Base/Pow2.antt =====
-- Capacities: powers of two that fit `uint32_t`, and the index that their mask takes.
use native.Mathlib.Nat.{one-le-pow, pow-le-pow_right, mod-eq_of_lt, mod-lt}
use Prim.Native.Nat.{ℕ, ◌-◌, ◌%◌, ◌^◌, ◌≤◌, ◌<◌, bit_and}
use mathlib.Core.Path.{◌≡◌, ◌∙◌, ap}
use native.Mathlib.Omega.{arith}
use aiopquic.Base.Words.{u32, sub32}
use aiopquic.Base.Bits.{bit_and_mask}

abbrev pub IsPow2 : ℕ → Type 0
IsPow2 n = (k : ℕ) × (k ≤ 31) × (n ≡ 2 ^ k)

pub IsPow2-bounds : {n : ℕ} → IsPow2 n → (0 < n) × (n ≤ 2 ^ 31)
IsPow2-bounds (k, h, e) =
    rw e (one-le-pow k 2 (omega arith), pow-le-pow_right {n = 2} (omega arith) {i = k} {j = 31} h)

-- The mask of a power of two takes the remainder.
pub mask-eq-mod : {n : ℕ} (p : ℕ) → IsPow2 n → bit_and p (n - 1) ≡ p % n
mask-eq-mod p (k, h, e) = rw e (bit_and_mask k p)

-- The cast of the index to `uint32_t` cuts nothing.
pub mask_index : {n : ℕ} (p : ℕ) → IsPow2 n → u32 (bit_and p (n - 1)) ≡ p % n
mask_index {n} p w =
    ap (λ t. u32 t) (mask-eq-mod p w)
    ∙ mod-eq_of_lt (omega (arith, IsPow2-bounds w, mod-lt p (IsPow2-bounds w).0))

-- What is left before the end of the storage, as the code computes it.
pub before_end : {n : ℕ} (p : ℕ) → IsPow2 n → sub32 n (p % n) ≡ n - p % n
before_end {n} p w = omega (arith, IsPow2-bounds w, mod-lt p {m = n} (IsPow2-bounds w).0)
