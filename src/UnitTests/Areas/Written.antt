-- ===== src/UnitTests/Areas/Written.antt =====
-- src/mmap_area.rs, in its tests: what is written to every buffer of an area is read from every buffer.
use afxdp_rs.Prelude.{
  ℕ, zero, suc, ◌+◌, ◌≤◌, ◌<◌, ◌≡◌, refl, ap, ◌∙◌, inl, List, [], ◌∷◌, length, replicate, arith,
}
use afxdp_rs.Rust.{value}
use afxdp_rs.Memory.{Memory, load, store, store_all, load-store_all, load-store_all_outside}
use afxdp_rs.Buf.Mmap.{BufMmap, write_data}
use afxdp_rs.Area.{MmapArea, af_xdp_reserved}
use afxdp_rs.Area.Layout.{IsFrame, IsFrame-apart}
use afxdp_rs.Area.New.{Frames}
use afxdp_rs.UnitTests.Areas.{write_bytes, write_same}

module _ {T : Type 0} where
  write_data_fits :
      (m : Memory) (b : BufMmap T) (j v : ℕ)
      → j < b.bytes.len
      → write_data m b j v ≡ value (store m (b.bytes.ptr + j) v, b)
  unfolding write_data
  write_data_fits m b j v h = ground arith

  write_bytes_lem :
      (m : Memory) (b : BufMmap T) (j : ℕ) (vs : List ℕ)
      → j + length vs ≤ b.bytes.len
      → write_bytes m b j vs ≡ value (store_all m (b.bytes.ptr + j) vs)
  unfolding write_bytes
  write_bytes_lem m b j [] h = refl
  write_bytes_lem m b j (v ∷ vs) h = rw (write_data_fits m b j v (omega arith)) (
      write_bytes_lem (store m (b.bytes.ptr + j) v) b (j + 1) vs (omega arith)
      ∙ ap (λ (p : ℕ). value (store_all (store m (b.bytes.ptr + j) v) p vs)) (omega arith))

  write_same_lem :
      (m : Memory) (b : BufMmap T) (rounds j v : ℕ)
      → j + rounds ≤ b.bytes.len
      → write_same m b rounds j v ≡ value (store_all m (b.bytes.ptr + j) (replicate rounds v))
  unfolding write_same
  write_same_lem m b zero j v h = refl
  write_same_lem m b (suc rounds) j v h = rw (write_data_fits m b j v (omega arith)) (
      write_same_lem (store m (b.bytes.ptr + j) v) b rounds (j + 1) v (omega arith)
      ∙ ap (λ (p : ℕ). value (store_all (store m (b.bytes.ptr + j) v) p (replicate rounds v)))
          (omega arith))

  -- the same, from the first byte on
  pub write_bytes_first :
      (m : Memory) (b : BufMmap T) (vs : List ℕ)
      → length vs ≤ b.bytes.len
      → write_bytes m b 0 vs ≡ value (store_all m b.bytes.ptr vs)
  write_bytes_first m b vs h =
      write_bytes_lem m b 0 vs (omega arith)
      ∙ ap (λ (p : ℕ). value (store_all m p vs)) (omega arith)

  pub write_same_first :
      (m : Memory) (b : BufMmap T) (rounds v : ℕ)
      → rounds ≤ b.bytes.len
      → write_same m b rounds 0 v ≡ value (store_all m b.bytes.ptr (replicate rounds v))
  write_same_first m b rounds v h =
      write_same_lem m b rounds 0 v (omega arith)
      ∙ ap (λ (p : ℕ). value (store_all m p (replicate rounds v))) (omega arith)

  -- `n` bytes at the start of each buffer, which depend on its number
  module _ (n : ℕ) (bytes : ℕ → List ℕ) (sized : (i : ℕ) → length (bytes i) ≡ n) where
    abbrev pub put_each : ℕ → List (BufMmap T) → Memory → Memory
    put_each i [] m = m
    put_each i (b ∷ bs) m = put_each (i + 1) bs (store_all m b.bytes.ptr (bytes i))

    abbrev pub Holds : Memory → ℕ → List (BufMmap T) → Type 0
    Holds m i [] = Unit {0}
    Holds m i (b ∷ bs) = (load m b.bytes.ptr n ≡ bytes i) × Holds m (i + 1) bs

    module _ (a : MmapArea) (default : T) (room : n + af_xdp_reserved ≤ a.buf_len) where
      put_each-earlier :
          (m : Memory) (i j : ℕ) (bs : List (BufMmap T)) (c : BufMmap T)
          → Frames default a i bs
          → IsFrame a j c
          → j < i
          → load (put_each i bs m) c.bytes.ptr n ≡ load m c.bytes.ptr n
      put_each-earlier m i j [] c fs f h = refl
      put_each-earlier m i j (b ∷ bs) c fs f h =
          put_each-earlier (store_all m b.bytes.ptr (bytes i)) (i + 1) j bs c fs.3 f (omega arith)
          ∙ load-store_all_outside m b.bytes.ptr (bytes i) c.bytes.ptr n
              (inl (omega (arith, IsFrame-apart j i c b f fs.0 h, f.size)))

      pub put_each-Holds :
          (m : Memory) (i : ℕ) (bs : List (BufMmap T))
          → Frames default a i bs
          → Holds (put_each i bs m) i bs
      put_each-Holds m i [] fs = tt
      put_each-Holds m i (b ∷ bs) fs =
          let m' = store_all m b.bytes.ptr (bytes i) in
          (
            put_each-earlier m' (i + 1) i bs b fs.3 fs.0 (omega arith)
                ∙ ap (λ (k : ℕ). load m' b.bytes.ptr k) (omega (arith, sized i))
                ∙ load-store_all m b.bytes.ptr (bytes i),
            put_each-Holds m' (i + 1) bs fs.3,
          )
