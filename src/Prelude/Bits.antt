-- ===== src/Prelude/Bits.antt =====
-- `bit_and` by its lowest binary digit, and of a number with itself.
use Prim.Native.Nat.{
  ℕ, zero, suc, ◌+◌, ◌-◌, ◌*◌, ◌/◌, ◌%◌, ◌≤◌, min, bit_and, digits, bit_and-bitwise,
}
use mathlib.Core.Path.{◌≡◌, refl, sym, ◌∙◌}
use native.Mathlib.Omega.{arith}

-- The digits that `x` and `y` share, the lowest `fuel` of them at least.
abbrev shared : (x y fuel : ℕ) → ℕ
shared x y fuel = digits (λ rest. zero) min fuel x y

shared-zero : (fuel y : ℕ) → shared zero y fuel ≡ zero
shared-zero zero y = refl
shared-zero (suc fuel) y = refl

-- Fuel beyond `x` makes no difference.
shared_enough : (spare fuel x y : ℕ) → x ≤ fuel → shared x y (spare + fuel) ≡ shared x y fuel
shared_enough spare fuel zero y le = shared-zero (spare + fuel) y ∙ sym (shared-zero fuel y)
shared_enough spare zero (suc x) y le = absurd (omega arith)
shared_enough spare (suc fuel) (suc x) y le =
    let rest = shared_enough spare fuel (suc x / 2) (y / 2) (omega arith) in
    let more : spare + suc fuel ≡ suc (spare + fuel) = omega arith in rw more (omega (arith, rest))

bit_and-shared : (spare x y : ℕ) → bit_and x y ≡ shared x y (spare + x)
bit_and-shared spare x y = bit_and-bitwise x y ∙ sym (shared_enough spare x x y (omega arith))

pub bit_and_step : (x y : ℕ) → bit_and x y ≡ bit_and (x / 2) (y / 2) * 2 + min (x % 2) (y % 2)
bit_and_step zero y = rw (bit_and-bitwise zero y, bit_and-bitwise zero (y / 2)) (omega arith)
bit_and_step (suc x) y =
    let spare = x - suc x / 2 in
    let back : spare + suc x / 2 ≡ x = omega arith in
    let half : bit_and (suc x / 2) (y / 2) ≡ shared (suc x / 2) (y / 2) x =
      rw back at (bit_and-shared spare (suc x / 2) (y / 2)) in
    omega (arith, bit_and-bitwise (suc x) y, half)

-- Strong induction: the half of a number is less than it.
bit_and_self_below : (bound x : ℕ) → x ≤ bound → bit_and x x ≡ x
bit_and_self_below bound zero le = bit_and-bitwise zero zero
bit_and_self_below zero (suc x) le = absurd (omega arith)
bit_and_self_below (suc bound) (suc x) le =
    let half = bit_and_self_below bound (suc x / 2) (omega arith) in
    omega (arith, half, bit_and_step (suc x) (suc x))

pub bit_and_self : (x : ℕ) → bit_and x x ≡ x
bit_and_self x = bit_and_self_below x x (omega arith)
