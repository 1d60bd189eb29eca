-- ===== src/Rust/Fits.antt =====
-- Machine arithmetic whose result fits is exact, in every build.
use afxdp_rs.Prelude.{
  ℕ, ◌+◌, ◌-◌, ◌*◌, ◌^◌, ◌≤◌, ◌<◌, ◌≡◌, ◌%◌, Bool, false, inl, inr, leb, Bool-cases, arith,
}
use afxdp_rs.Rust.{value, add, mul, sub, try_into}

module _ (checks : Bool) where
  pub mul_fits : (w a b : ℕ) → a * b < 2 ^ w → mul checks w a b ≡ value (a * b)
  mul_fits w a b h = ground arith

  pub add_fits : (w a b : ℕ) → a + b < 2 ^ w → add checks w a b ≡ value (a + b)
  add_fits w a b h = ground arith

  pub sub_fits : (w a b : ℕ) → b ≤ a → sub checks w a b ≡ value (a - b)
  sub_fits w a b h = ground arith

pub try_into_fits : (w x : ℕ) → x < 2 ^ w → try_into w x ≡ value x
try_into_fits w x h = ground arith

-- Without overflow checks a subtraction always returns.
pub sub_returns : (a b : ℕ) → (n : ℕ) × (sub false 64 a b ≡ value n)
sub_returns a b = elim (Bool-cases (leb b a)) [
  | inl fits ↦ (a - b, rw fits)
  | inr short ↦ (2 ^ 64 + a - b, rw short)
]

-- Without overflow checks an addition always returns, and the result is the sum modulo 2^64.
pub add_wraps : (x n : ℕ) → add false 64 x n ≡ value ((x + n) % 2 ^ 64)
add_wraps x n = ground arith
