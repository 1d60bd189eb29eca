-- ===== src/Area/Layout.antt =====
-- src/mmap_area.rs: where the buffers of an area lie.
use afxdp_rs.Prelude.{ℕ, ◌+◌, ◌*◌, ◌^◌, ◌≤◌, ◌<◌, ◌≡◌, arith}
use afxdp_rs.Buf.Mmap.{BufMmap}
use afxdp_rs.Area.{MmapArea, af_xdp_reserved}

-- An area as `mmap` returns it: its bytes have addresses below 2^64, and its frames have room for the
-- driver's reserved bytes.
pub record IsArea (a : MmapArea) : Type 0 where
  pub room : af_xdp_reserved ≤ a.buf_len
  pub top : a.ptr + a.buf_num * a.buf_len < 2 ^ 64

-- The address of the first byte after the reserved ones of frame `k`.
abbrev pub frame_addr : MmapArea → ℕ → ℕ
frame_addr a k = k * a.buf_len + af_xdp_reserved

-- A buffer is frame `k` of the area: its address is the frame's and its slice is the frame less its
-- reserved bytes.
pub record IsFrame {T : Type 0} (a : MmapArea) (k : ℕ) (b : BufMmap T) : Type 0 where
  pub inside : k < a.buf_num
  pub addr : b.addr ≡ frame_addr a k
  pub ptr : b.bytes.ptr ≡ a.ptr + frame_addr a k
  pub size : b.bytes.len + af_xdp_reserved ≡ a.buf_len

pub product_mono : (i n l : ℕ) → i < n → i * l + l ≤ n * l
product_mono i n l h = grind arith

module _ {T : Type 0} {a : MmapArea} where
  -- A frame's slice lies within the area, after its reserved bytes.
  pub IsFrame-within :
      (k : ℕ) (b : BufMmap T)
      → IsFrame a k b
      → (a.ptr + af_xdp_reserved ≤ b.bytes.ptr)
        × (b.bytes.ptr + b.bytes.len ≤ a.ptr + a.buf_num * a.buf_len)
  IsFrame-within k b f =
      ground (arith, product_mono k a.buf_num a.buf_len, f.inside, f.addr, f.ptr, f.size)

  -- The slices of two frames are apart, with the reserved bytes of the later one between them.
  pub IsFrame-apart :
      (i j : ℕ) (b c : BufMmap T)
      → IsFrame a i b
      → IsFrame a j c
      → i < j
      → b.bytes.ptr + b.bytes.len + af_xdp_reserved ≤ c.bytes.ptr
  IsFrame-apart i j b c f g h = ground (arith, product_mono i j a.buf_len h, f.ptr, f.size, g.ptr)
