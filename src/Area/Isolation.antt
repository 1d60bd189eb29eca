-- ===== src/Area/Isolation.antt =====
-- src/mmap_area.rs: what is written through one buffer of an area and read through another, as the tests
-- `buf_values` and `buf_values2` do.
use afxdp_rs.Prelude.{ℕ, ◌+◌, ◌<◌, ◌≤◌, ◌≡◌, ◌≢◌, ◌⊎◌, inl, inr, arith, dec_lt}
use afxdp_rs.Rust.{value}
use afxdp_rs.Memory.{Memory, load-store_outside}
use afxdp_rs.Buf.Mmap.{BufMmap, get_data, write_data}
use afxdp_rs.Area.{MmapArea}
use afxdp_rs.Area.Layout.{IsFrame, IsFrame-apart}

module _ {T : Type 0} {a : MmapArea} where
  outside :
      (i j : ℕ) (b c : BufMmap T) (k : ℕ)
      → IsFrame a i b
      → IsFrame a j c
      → i ≢ j
      → k < b.bytes.len
      → (b.bytes.ptr + k < c.bytes.ptr) ⊎ (c.bytes.ptr + c.bytes.len ≤ b.bytes.ptr + k)
  outside i j b c k f g ne h = elim (dec_lt i j) [
    | yes lt ↦ inl (omega (arith, IsFrame-apart i j b c f g lt))
    | no ge ↦ inr (omega (arith, IsFrame-apart j i c b g f (omega arith)))
  ]

  -- A write through one frame's buffer that succeeds leaves what every other frame's buffer reads as it
  -- was.
  pub write-isolated :
      (m m' : Memory) (i j : ℕ) (b b' c : BufMmap T) (k v : ℕ)
      → IsFrame a i b
      → IsFrame a j c
      → i ≢ j
      → write_data m b k v ≡ value (m', b')
      → get_data m' c ≡ get_data m c
  unfolding write_data get_data
  write-isolated m m' i j b b' c k v f g ne e = elim (dec_lt k b.bytes.len) [
    | yes h ↦ ground (
      arith,
      load-store_outside m (b.bytes.ptr + k) v c.bytes.ptr c.bytes.len (outside i j b c k f g ne h),
    )
    | no h ↦ ground arith
  ]
