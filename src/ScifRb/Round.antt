-- ===== src/ScifRb/Round.antt =====
-- Places in a ring: offsets that go round at its size.
use native.Mathlib.Nat.{mod-add-mod, mod-eq_of_lt, mod-eq-sub-mod}
use native.Mathlib.Decide.{dec_lt}
use intel_xeon_phi_kernel_dr.Common.{ℕ, suc, ◌+◌, ◌-◌, ◌%◌, ◌≤◌, ◌<◌, ◌≡◌, ◌≢◌, sym, ap, ◌∙◌, arith}

-- How far it is from `a` round to `b`.
pub distance :
    (size a b n : ℕ) → a < size → n < size → b ≡ (a + n) % size → (b + size - a) % size ≡ n
distance size a b n ha hn e = elim (dec_lt (a + n) size) [
  | yes p ↦ omega (
    arith,
    mod-eq_of_lt p,
    mod-eq-sub-mod {n = b + size - a} {m = size} (omega (arith, mod-eq_of_lt p)),
    mod-eq_of_lt {n = b + size - a - size} {m = size} (omega (arith, mod-eq_of_lt p)),
  )
  | no p ↦ omega (
    arith,
    mod-eq-sub-mod {n = a + n} {m = size} (omega arith),
    mod-eq_of_lt {n = a + n - size} {m = size} (omega arith),
    mod-eq_of_lt hn,
    ap (λ t. t % size) (wrapped (omega arith)),
  )
]
  where
    wrapped : size ≤ a + n → b + size - a ≡ n
    wrapped h =
        omega (arith, e, mod-eq-sub-mod h, mod-eq_of_lt {n = a + n - size} {m = size} (omega arith))

-- How much room is left in front of `a`, with one place kept free.
pub gap :
    (size a b n : ℕ)
    → a < size
    → n < size
    → b ≡ (a + n) % size
    → (a + size - (b + 1)) % size + n + 1 ≡ size
gap size a b n ha hn e = elim (dec_lt (a + n) size) [
  | yes p ↦ omega (
    arith,
    mod-eq_of_lt p,
    mod-eq_of_lt {n = a + size - (b + 1)} {m = size} (omega (arith, mod-eq_of_lt p)),
  )
  | no p ↦ omega (arith, over (omega arith), small (omega arith))
]
  where
    over : size ≤ a + n → b ≡ a + n - size
    over h =
        omega (arith, e, mod-eq-sub-mod h, mod-eq_of_lt {n = a + n - size} {m = size} (omega arith))

    small : size ≤ a + n → (a + size - (b + 1)) % size ≡ size - n - 1
    small h = omega (
      arith,
      over h,
      mod-eq-sub-mod {n = a + size - (b + 1)} {m = size} (omega (arith, over h)),
      mod-eq_of_lt {n = a + size - (b + 1) - size} {m = size} (omega (arith, over h)),
    )

pub mod_shift : (size a m n : ℕ) → ((a + m) % size + n) % size ≡ (a + (m + n)) % size
mod_shift size a m n = mod-add-mod (a + m) size n ∙ ap (λ t. t % size) (omega arith)

-- Fewer than `size` steps lead to another place.
pub step-ne : (size h k : ℕ) → h < size → suc k < size → (h + suc k) % size ≢ h
step-ne size h k hh hk e =
    omega
      (arith, distance size h h (suc k) hh hk (sym e), distance size h h 0 hh (omega arith) at_h)
  where
    at_h : h ≡ (h + 0) % size
    at_h = omega (arith, ap (λ t. t % size) here, mod-eq_of_lt hh)
      where
        here : h + 0 ≡ h
        here = omega arith
