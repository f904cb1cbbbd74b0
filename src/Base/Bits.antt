-- ===== src/Base/Bits.antt =====
-- `&` on native numbers: with a low mask it is a remainder, and `n & (n - 1)` finds powers of two.
use Prim.Native.Nat.{
  ℕ, zero, suc, ◌+◌, ◌-◌, ◌*◌, ◌/◌, ◌%◌, ◌^◌, ◌≤◌, ◌<◌, min, bit_and, digits, bitwise,
  bit_and-bitwise, bit_or, bit_or-bitwise, max,
}
use mathlib.Core.Path.{◌≡◌, refl, ap, ◌∙◌}
use native.Mathlib.Nat.{le_refl, pow-suc, one-le-pow, mod_self}
use native.Mathlib.Decide.{ℕ_discrete}
use native.Mathlib.Omega.{arith}

-- `bitwise` takes its first argument for fuel. More of it changes nothing.
module _ (z : ℕ → ℕ) (op : ℕ → ℕ → ℕ) where
  one_more : (fuel x y : ℕ) → x ≤ fuel → digits z op (suc fuel) x y ≡ digits z op fuel x y
  one_more zero x y small = let none_left : x ≡ 0 = omega arith in rw none_left
  one_more (suc fuel) zero y small = refl
  one_more (suc fuel) (suc x) y small = rw (one_more fuel (suc x / 2) (y / 2) (omega arith))

  any_fuel : (fuel x y : ℕ) → x ≤ fuel → digits z op fuel x y ≡ bitwise z op x y
  any_fuel zero x y small = let none_left : x ≡ 0 = omega arith in rw none_left
  any_fuel (suc fuel) x y small = elim (ℕ_discrete x (suc fuel)) [
    | yes same ↦ rw same
    | no less ↦ one_more fuel x y (omega arith) ∙ any_fuel fuel x y (omega arith)
  ]

  lowest_digit :
      (x y : ℕ)
      → bitwise z op (suc x) y ≡ bitwise z op (suc x / 2) (y / 2) * 2 + op (suc x % 2) (y % 2)
  lowest_digit x y =
      ap (λ high. high * 2 + op (suc x % 2) (y % 2)) (any_fuel x (suc x / 2) (y / 2) (omega arith))

-- The law of the lowest digit.
pub bit_and_step : (x y : ℕ) → bit_and x y ≡ min (x % 2) (y % 2) + 2 * bit_and (x / 2) (y / 2)
bit_and_step zero y = omega (arith, bit_and-bitwise 0 y, bit_and-bitwise 0 (y / 2))
bit_and_step (suc x) y = omega (
  arith,
  lowest_digit (λ y. 0) min x y,
  bit_and-bitwise (suc x) y,
  bit_and-bitwise (suc x / 2) (y / 2),
)

-- With zero and with itself, by recursion on a bound.
zero_and_self : (bound a : ℕ) → a ≤ bound → (bit_and a 0 ≡ 0) × (bit_and a a ≡ a)
zero_and_self bound zero small = (refl, refl)
zero_and_self zero (suc a) small = absurd (omega arith)
zero_and_self (suc bound) (suc a) small =
    let (with_zero, with_self) = zero_and_self bound (suc a / 2) (omega arith) in
    (
      omega (arith, with_zero, bit_and_step (suc a) 0),
      omega (arith, with_self, bit_and_step (suc a) (suc a)),
    )

pub bit_and-zero : (a : ℕ) → bit_and a 0 ≡ 0
bit_and-zero a = (zero_and_self a a (le_refl a)).0

bit_and_self : (a : ℕ) → bit_and a a ≡ a
bit_and_self a = (zero_and_self a a (le_refl a)).1

mul-two_pow_suc : (q k : ℕ) → q * 2 ^ suc k ≡ 2 * (q * 2 ^ k)
mul-two_pow_suc q k = omega (arith, ap (λ (t : ℕ). q * t) (pow-suc 2 k))

mask_fields : (k q r : ℕ) → r < 2 ^ k → bit_and (q * 2 ^ k + r) (2 ^ k - 1) ≡ r
mask_fields zero q r fits = rw bit_and-zero (omega arith)
mask_fields (suc k) q r fits = ground (
  arith,
  bit_and_step (q * 2 ^ suc k + r) (2 ^ suc k - 1),
  mul-two_pow_suc q k,
  pow-suc 2 k,
  mask_fields k q (r / 2) (omega arith),
)

-- A mask of `k` low ones is the remainder by `2 ^ k`.
pub bit_and_mask : (k a : ℕ) → bit_and a (2 ^ k - 1) ≡ a % 2 ^ k
bit_and_mask k a = ground (arith, one-le-pow k 2, mask_fields k (a / 2 ^ k) (a % 2 ^ k))

half_pred : (n : ℕ) → n % 2 ≡ 0 → 0 < n → (n - 1) / 2 ≡ n / 2 - 1
half_pred n e p = omega arith

half_pred_odd : (n : ℕ) → n % 2 ≡ 1 → (n - 1) / 2 ≡ n / 2
half_pred_odd n e = omega arith

and_pred_odd : (n m : ℕ) → n % 2 ≡ 1 → (n - 1) / 2 ≡ m → n / 2 ≡ m → bit_and n (n - 1) ≡ m * 2
and_pred_odd n m odd e f = bit_and_step n (n - 1) ∙ rw (e, f, bit_and_self m) (omega arith)

pow2_odd : (n : ℕ) → n % 2 ≡ 1 → bit_and n (n - 1) ≡ 0 → n ≡ 2 ^ 0
pow2_odd n odd e = omega (arith, and_pred_odd n (n / 2) odd (half_pred_odd n odd) refl)

pow2_even : (n : ℕ) → n % 2 ≡ 0 → 0 < n → bit_and n (n - 1) ≡ 0 → bit_and (n / 2) (n / 2 - 1) ≡ 0
pow2_even n even p e = rw (← half_pred n even p) (omega (arith, bit_and_step n (n - 1)))

pow2_fuel : (f n : ℕ) → n ≤ f → 0 < n → bit_and n (n - 1) ≡ 0 → (k : ℕ) × (n ≡ 2 ^ k)
pow2_fuel zero n h p e = absurd (omega arith)
pow2_fuel (suc f) n h p e = elim (ℕ_discrete (n % 2) 0) [
  | yes even ↦
      let (k, q) = pow2_fuel f (n / 2) (omega arith) (omega arith) (pow2_even n even p e) in
      (suc k, omega (arith, pow-suc 2 k))
  | no odd ↦ (0, pow2_odd n (omega arith) e)
]

-- `n & (n - 1) == 0` holds of a positive number only if it is a power of two.
pub pow2_of_and_pred : (n : ℕ) → 0 < n → bit_and n (n - 1) ≡ 0 → (k : ℕ) × (n ≡ 2 ^ k)
pow2_of_and_pred n p e = pow2_fuel n n (le_refl n) p e

-- and it holds of every power of two.
pub and_pred_of_pow2 : (k : ℕ) → bit_and (2 ^ k) (2 ^ k - 1) ≡ 0
and_pred_of_pow2 k = bit_and_mask k (2 ^ k) ∙ mod_self (2 ^ k)

zero-bit_or : (b : ℕ) → bit_or 0 b ≡ b
zero-bit_or b = bit_or-bitwise 0 b

bit_or_step : (x y : ℕ) → bit_or x y ≡ max (x % 2) (y % 2) + 2 * bit_or (x / 2) (y / 2)
bit_or_step zero y = omega (arith, zero-bit_or y, zero-bit_or (y / 2))
bit_or_step (suc x) y = omega (
  arith,
  lowest_digit (λ y. y) max x y,
  bit_or-bitwise (suc x) y,
  bit_or-bitwise (suc x / 2) (y / 2),
)

-- `|` of a low field and a field above it is their sum.
pub bit_or_fields : (k r q : ℕ) → r < 2 ^ k → bit_or r (q * 2 ^ k) ≡ r + q * 2 ^ k
bit_or_fields zero r q fits =
    let e : r ≡ 0 = omega arith in rw e (omega (arith, zero-bit_or (q * 2 ^ 0)))
bit_or_fields (suc k) r q fits = ground (
  arith,
  bit_or_step r (q * 2 ^ suc k),
  mul-two_pow_suc q k,
  pow-suc 2 k,
  bit_or_fields k (r / 2) q (omega (arith, pow-suc 2 k)),
)
