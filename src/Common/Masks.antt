-- ===== src/Common/Masks.antt =====
-- Masking by a power of two less one, `x & (2^k - 1)`, is a remainder.
use Prim.Native.Nat.{
  ℕ, zero, suc, ◌+◌, ◌-◌, ◌*◌, ◌/◌, ◌%◌, ◌^◌, ◌≤◌, ◌<◌, min, bit_and, digits, bit_and-bitwise,
}
use mathlib.Core.Path.{◌≡◌, sym, ◌∙◌, ap}
use native.Mathlib.Nat.{
  pow-suc, mul-add-mod_self_left, mod-eq_of_lt, mod-lt, div-add-mod, add-zero, add-suc,
}
use native.Mathlib.Omega.{arith}

pub pow_pos : (k : ℕ) → 0 < 2 ^ k
pow_pos zero = omega arith
pow_pos (suc k) = omega (arith, pow-suc 2 k, pow_pos k)

-- The remainder by `m * 2`, from the halves.
mod_double : (a m : ℕ) → 0 < m → a % (m * 2) ≡ a / 2 % m * 2 + a % 2
mod_double a m h =
    ap (λ t. t % (m * 2)) split
    ∙ mul-add-mod_self_left (m * 2) (a / 2 / m) (a / 2 % m * 2 + a % 2)
    ∙ mod-eq_of_lt (omega (arith, mod-lt (a / 2) h))
  where
    split : a ≡ m * 2 * (a / 2 / m) + (a / 2 % m * 2 + a % 2)
    split = omega (arith, div-add-mod (a / 2) m)

half_mask : (m : ℕ) → 0 < m → ((m * 2 - 1) / 2 ≡ m - 1) × ((m * 2 - 1) % 2 ≡ 1)
half_mask m h = omega arith

-- The digits of `a` under a mask of `k` ones, where `fuel` reaches the last digit of `a`.
masked : (fuel k a : ℕ) → a ≤ fuel → digits (λ y. zero) min fuel a (2 ^ k - 1) ≡ a % 2 ^ k
masked zero k zero short = sym (mod-eq_of_lt (pow_pos k))
masked zero k (suc a) short = absurd (omega arith)
masked (suc fuel) k zero short = sym (mod-eq_of_lt (pow_pos k))
masked (suc fuel) zero (suc a) short = omega (arith, masked fuel zero (suc a / 2) (omega arith))
masked (suc fuel) (suc k) (suc a) short =
    let (ones, odd) = half_mask (2 ^ k) (pow_pos k) in
    let rest : digits (λ y. zero) min fuel (suc a / 2) ((2 ^ k * 2 - 1) / 2) ≡ suc a / 2 % 2 ^ k =
      ap (digits (λ y. zero) min fuel (suc a / 2)) ones ∙ masked fuel k (suc a / 2) (omega arith) in
    rw (pow-suc 2 k) (omega (arith, rest, odd, mod_double (suc a) (2 ^ k) (pow_pos k)))

pub bit_and_mask : (k a : ℕ) → bit_and a (2 ^ k - 1) ≡ a % 2 ^ k
bit_and_mask k a = bit_and-bitwise a (2 ^ k - 1) ∙ masked a k a (omega arith)

pub pow-add : (j k : ℕ) → 2 ^ (j + k) ≡ 2 ^ j * 2 ^ k
pow-add j zero = omega (arith, ap (λ t. 2 ^ t) (add-zero j))
pow-add j (suc k) = omega (
  arith,
  ap (λ t. 2 ^ t) (add-suc j k),
  pow-suc 2 (j + k),
  ap (λ t. 2 ^ j * t) (pow-suc 2 k),
  ap (λ t. t * 2) (pow-add j k),
)

-- A remainder by a larger power of two may be taken first.
pub mod_pow-mod_pow : (j k x : ℕ) → j ≤ k → x % 2 ^ k % 2 ^ j ≡ x % 2 ^ j
mod_pow-mod_pow j k x h =
    sym (mul-add-mod_self_left (2 ^ j) (2 ^ (k - j) * (x / 2 ^ k)) (x % 2 ^ k))
    ∙ ap (λ t. t % 2 ^ j) split
  where
    power : 2 ^ k ≡ 2 ^ j * 2 ^ (k - j)
    power = ap (λ t. 2 ^ t) (omega arith) ∙ pow-add j (k - j)

    split : 2 ^ j * (2 ^ (k - j) * (x / 2 ^ k)) + x % 2 ^ k ≡ x
    split = omega (arith, div-add-mod x (2 ^ k), ap (λ t. t * (x / 2 ^ k)) power)
