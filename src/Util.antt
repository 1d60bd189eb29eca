-- ===== src/Util.antt =====
-- src/util.rs.
pub mod PowOfTwo
use afxdp_rs.Prelude.{ℕ, ◌-◌, Bool, false, ◌==◌, if◌then◌else◌, bit_and}

-- `val - 1` runs only at `val != 0`, so it does not wrap.
unfoldable pub is_pow_of_two : ℕ → Bool
is_pow_of_two val = if val == 0 then false else bit_and val (val - 1) == 0
