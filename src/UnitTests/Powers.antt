-- ===== src/UnitTests/Powers.antt =====
-- src/util.rs: its test `test_powers_of_two`.
use afxdp_rs.Prelude.{not, ◌≡◌, refl}
use afxdp_rs.Rust.{Outcome, value, ◌>>◌}
use afxdp_rs.Util.{is_pow_of_two}
use afxdp_rs.UnitTests.{assert}

pub test_powers_of_two : Outcome (Unit {0})
test_powers_of_two = do
  assert (not (is_pow_of_two 0))
  assert (is_pow_of_two 1)
  assert (is_pow_of_two 2)
  assert (not (is_pow_of_two 3))
  assert (is_pow_of_two 4)
  assert (is_pow_of_two 8)
  assert (not (is_pow_of_two 15))
  assert (is_pow_of_two 16)
  assert (not (is_pow_of_two 20))

powers_pass : test_powers_of_two ≡ value tt
unfolding test_powers_of_two is_pow_of_two
powers_pass = refl
