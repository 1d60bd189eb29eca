-- ===== src/Util/PowOfTwo.antt =====
-- src/util.rs: what the bit trick of `is_pow_of_two` decides.
use native.Mathlib.Nat.{pow-suc}
use afxdp_rs.Prelude.{
  ℕ, zero, suc, ◌-◌, ◌*◌, ◌/◌, ◌%◌, ◌^◌, ◌≤◌, ◌≡◌, ◌≢◌, ◌↔◌, refl, ap, true, false, inl, inr,
  Bool-cases, arith, bit_and, ℕ_discrete,
}
use afxdp_rs.Prelude.Bits.{bit_and_step, bit_and_self}
use afxdp_rs.Util.{is_pow_of_two}

pow_two_step : (k : ℕ) → 2 ^ suc k ≡ 2 * 2 ^ k
pow_two_step k = omega (arith, pow-suc 2 k)

-- Under an even number the test looks at the half.
clears_lowest : (v : ℕ) → v % 2 ≡ 0 → bit_and v (v - 1) ≡ 2 * bit_and (v / 2) (v / 2 - 1)
clears_lowest v e =
    let halves : (v - 1) / 2 ≡ v / 2 - 1 = omega arith in
    omega (arith, bit_and_step v (v - 1), ap (bit_and (v / 2)) halves)

-- Over an odd number it leaves all but the lowest digit.
keeps_rest : (v : ℕ) → v % 2 ≡ 1 → bit_and v (v - 1) ≡ 2 * (v / 2)
keeps_rest v e =
    let halves : (v - 1) / 2 ≡ v / 2 = omega arith in
    omega (arith, bit_and_step v (v - 1), ap (bit_and (v / 2)) halves, bit_and_self (v / 2))

abbrev pub IsPowerOfTwo : ℕ → Type 0
IsPowerOfTwo v = (k : ℕ) × (v ≡ 2 ^ k)

power_of_clear : (n v : ℕ) → v ≤ n → v ≢ 0 → bit_and v (v - 1) ≡ 0 → IsPowerOfTwo v
power_of_clear zero v h ne e = absurd (omega arith)
power_of_clear (suc n) v h ne e = elim (ℕ_discrete (v % 2) 0) [
  | yes even ↦
      let (k, p) =
        power_of_clear n (v / 2) (omega arith) (omega arith)
          (omega (arith, clears_lowest v even)) in
      (suc k, omega (arith, pow_two_step k))
  | no odd ↦ (0, omega (arith, keeps_rest v (omega arith)))
]

clear_of_power : (k : ℕ) → bit_and (2 ^ k) (2 ^ k - 1) ≡ 0
clear_of_power zero = refl
clear_of_power (suc k) =
    let half : 2 ^ suc k / 2 ≡ 2 ^ k = omega (arith, pow_two_step k) in
    omega (
      arith,
      clears_lowest (2 ^ suc k) (omega (arith, pow_two_step k)),
      ap (λ (h : ℕ). bit_and h (h - 1)) half,
      clear_of_power k,
    )

power_ne_zero : (k : ℕ) → 2 ^ k ≢ 0
power_ne_zero zero = omega arith
power_ne_zero (suc k) = omega (arith, pow_two_step k, power_ne_zero k)

-- `is_pow_of_two` answers `true` exactly on the powers of two: whatever it accepts is `2 ^ k` for
-- some `k`, and it accepts every `2 ^ k`.
pub is_pow_of_two_iff : (val : ℕ) → (is_pow_of_two val ≡ true) ↔ IsPowerOfTwo val
unfolding is_pow_of_two
is_pow_of_two_iff val = (accepted, accepts)
  where
    accepted : is_pow_of_two val ≡ true → IsPowerOfTwo val
    accepted e = power_of_clear val val (omega arith) (ground arith) (ground arith)

    accepts : IsPowerOfTwo val → is_pow_of_two val ≡ true
    accepts (k, e) = rw e (ground (arith, power_ne_zero k, clear_of_power k))

pub is_pow_of_two-false : (val : ℕ) → ¬ IsPowerOfTwo val → is_pow_of_two val ≡ false
is_pow_of_two-false val h = elim (Bool-cases (is_pow_of_two val)) [
  | inl e ↦ absurd (h ((is_pow_of_two_iff val).0 e))
  | inr e ↦ e
]
