-- ===== src/UnitTests/Areas/Bytes.antt =====
-- src/mmap_area.rs, in its tests: a number and its bytes, on either kind of machine.
use native.Mathlib.Nat.{pow-suc}
use mathlib.Core.List.{reverse-reverse}
use afxdp_rs.Prelude.{
  ℕ, zero, suc, ◌/◌, ◌^◌, ◌<◌, ◌≡◌, refl, ap, ◌∙◌, Bool, true, false, arith, length, length-reverse,
}
use afxdp_rs.UnitTests.Areas.{to_le_bytes, from_le_bytes, to_ne_bytes, from_ne_bytes}

length-to_le_bytes : (n v : ℕ) → length (to_le_bytes n v) ≡ n
length-to_le_bytes zero v = refl
length-to_le_bytes (suc n) v = ap suc (length-to_le_bytes n (v / 256))

from_le_bytes-to_le_bytes : (n v : ℕ) → v < 256 ^ n → from_le_bytes (to_le_bytes n v) ≡ v
from_le_bytes-to_le_bytes zero v h = omega arith
from_le_bytes-to_le_bytes (suc n) v h =
    omega (arith, from_le_bytes-to_le_bytes n (v / 256) (omega (arith, pow-suc 256 n)))

pub length-to_ne_bytes : (big : Bool) (v : ℕ) → length (to_ne_bytes big v) ≡ 8
unfolding to_ne_bytes
length-to_ne_bytes true v = omega (arith, length-reverse (to_le_bytes 8 v), length-to_le_bytes 8 v)
length-to_ne_bytes false v = length-to_le_bytes 8 v

-- A 64-bit number is read back from its bytes.
pub from_ne_bytes-to_ne_bytes :
    (big : Bool) (v : ℕ) → v < 2 ^ 64 → from_ne_bytes big (to_ne_bytes big v) ≡ v
unfolding from_ne_bytes to_ne_bytes
from_ne_bytes-to_ne_bytes true v h =
    ap from_le_bytes (reverse-reverse (to_le_bytes 8 v)) ∙ from_le_bytes-to_le_bytes 8 v h
from_ne_bytes-to_ne_bytes false v h = from_le_bytes-to_le_bytes 8 v h
