-- ===== src/Buf/Contract.antt =====
-- src/buf_mmap.rs and src/buf_vec.rs against the trait `Buf`.
use afxdp_rs.Prelude.{ℕ, ◌+◌, ◌^◌, ◌≤◌, ◌<◌, ◌≡◌, refl, ◌↔◌, arith, length, set}
use afxdp_rs.Rust.{value}
use afxdp_rs.Memory.{Memory, store, length-load, load-store_inside}
use afxdp_rs.Buf.{Buf, BufLaws, SetsLen}
use afxdp_rs.Buf.Mmap.{BufMmap}
use afxdp_rs.Buf.Mmap
use afxdp_rs.Buf.Owned.{BufVec}
use afxdp_rs.Buf.Owned

abbrev pub buf_mmap : (T : Type 0) → Buf (BufMmap T) T
buf_mmap T = record {
  get_data = Mmap.get_data;
  write_data = Mmap.write_data;
  get_capacity = Mmap.get_capacity;
  get_len = Mmap.get_len;
  set_len = Mmap.set_len;
  get_user = Mmap.get_user;
  set_user = Mmap.set_user;
}

abbrev pub buf_vec : (T : Type 0) → Buf (BufVec T) T
buf_vec T = record {
  get_data = Owned.get_data;
  write_data = Owned.write_data;
  get_capacity = Owned.get_capacity;
  get_len = Owned.get_len;
  set_len = Owned.set_len;
  get_user = Owned.get_user;
  set_user = Owned.set_user;
}

module _ {T : Type 0} where
  mmap-SetsLen :
      (b b' : BufMmap T) (n : ℕ) → Mmap.set_len b n ≡ value b' → SetsLen (buf_mmap T) b b' n
  unfolding Mmap.set_len Mmap.get_len Mmap.get_user Mmap.get_data
  mmap-SetsLen b b' n h = record {
    len = ground arith;
    capacity = ground arith;
    user = ground arith;
    bytes = λ m. ground arith;
  }

  mmap-write :
      (m m' : Memory) (b b' : BufMmap T) (i v : ℕ)
      → Mmap.write_data m b i v ≡ value (m', b')
      → Mmap.get_data m' b' ≡ set (Mmap.get_data m b) i v
  unfolding Mmap.write_data Mmap.get_data
  mmap-write m m' b b' i v h =
      ground (arith, load-store_inside m v b.bytes.ptr b.bytes.len i (b.bytes.ptr + i))

  mmap-set_len_total :
      (b : BufMmap T) (n capacity : ℕ)
      → Mmap.get_capacity b ≡ value capacity
      → n ≤ capacity
      → (b' : BufMmap T) × (Mmap.set_len b n ≡ value b')
  unfolding Mmap.set_len Mmap.get_capacity
  mmap-set_len_total b n capacity e h = (record b { len = n }, ground arith)

  mmap-write_total :
      (m : Memory) (b : BufMmap T) (i v : ℕ)
      → i < length (Mmap.get_data m b)
      → (r : Memory × BufMmap T) × (Mmap.write_data m b i v ≡ value r)
  unfolding Mmap.write_data Mmap.get_data
  mmap-write_total m b i v h =
      ((store m (b.bytes.ptr + i) v, b), ground (arith, length-load m b.bytes.ptr b.bytes.len))

  vec-SetsLen :
      (b b' : BufVec T) (n : ℕ) → Owned.set_len b n ≡ value b' → SetsLen (buf_vec T) b b' n
  unfolding Owned.set_len Owned.get_len Owned.get_user Owned.get_data Owned.get_capacity
  vec-SetsLen b b' n h = record {
    len = ground arith;
    capacity = ground arith;
    user = ground arith;
    bytes = λ m. ground arith;
  }

  vec-write :
      (m m' : Memory) (b b' : BufVec T) (i v : ℕ)
      → Owned.write_data m b i v ≡ value (m', b')
      → Owned.get_data m' b' ≡ set (Owned.get_data m b) i v
  unfolding Owned.write_data Owned.get_data
  vec-write m m' b b' i v h = ground arith

  vec-set_len_total :
      (b : BufVec T) (n capacity : ℕ)
      → Owned.get_capacity b ≡ value capacity
      → n ≤ capacity
      → (b' : BufVec T) × (Owned.set_len b n ≡ value b')
  unfolding Owned.set_len Owned.get_capacity
  vec-set_len_total b n capacity e h = (record b { len = n }, ground arith)

  vec-write_total :
      (m : Memory) (b : BufVec T) (i v : ℕ)
      → i < length (Owned.get_data m b)
      → (r : Memory × BufVec T) × (Owned.write_data m b i v ≡ value r)
  unfolding Owned.write_data Owned.get_data
  vec-write_total m b i v h =
      ((m, record b { bytes = record (b.bytes) { items = set b.bytes.items i v } }), ground arith)

-- `BufMmap` keeps the contract of `Buf`: `set_len`, where it returns, sets the length and leaves the
-- capacity, the user value and the bytes as they were, and it returns for every length
-- within the capacity; a write below the number of bytes succeeds, and
-- a write that succeeds changes the one byte in what is read back; the user value written is the one
-- read, and writing it leaves the length alone.
pub buf_mmap-BufLaws : (T : Type 0) → BufLaws (buf_mmap T)
unfolding Mmap.get_user Mmap.set_user Mmap.get_len
buf_mmap-BufLaws T = record {
  set_len_lem = mmap-SetsLen;
  write_data_lem = mmap-write;
  write_data_total = mmap-write_total;
  set_len_total = mmap-set_len_total;
  set_user_lem = λ b u. refl;
  set_user_len = λ b u. refl;
}

-- `BufVec` keeps these laws too. They say nothing of a length past the capacity, which `BufVec` accepts.
pub buf_vec-BufLaws : (T : Type 0) → BufLaws (buf_vec T)
unfolding Owned.get_user Owned.set_user Owned.get_len
buf_vec-BufLaws T = record {
  set_len_lem = vec-SetsLen;
  write_data_lem = vec-write;
  write_data_total = vec-write_total;
  set_len_total = vec-set_len_total;
  set_user_lem = λ b u. refl;
  set_user_len = λ b u. refl;
}

module _ {T : Type 0} where
  -- `BufMmap::set_len` returns exactly if the capacity fits a `u16` and the length does not exceed it.
  pub mmap-set_len_iff :
      (b : BufMmap T) (n : ℕ)
      → (Mmap.set_len b n ≡ value (record b { len = n }))
        ↔ ((b.bytes.len < 2 ^ 16) × (n ≤ b.bytes.len))
  unfolding Mmap.set_len
  mmap-set_len_iff b n = ground arith

  -- `BufVec::set_len` makes no such check: past the capacity, where `BufMmap` panics, it returns.
  pub vec-set_len_unchecked :
      (b : BufVec T) (n capacity : ℕ)
      → Owned.get_capacity b ≡ value capacity
      → capacity < n
      → (b' : BufVec T) × (Owned.set_len b n ≡ value b')
        × (Owned.get_capacity b' ≡ value capacity)
        × (capacity < Owned.get_len b')
  unfolding Owned.set_len Owned.get_capacity Owned.get_len
  vec-set_len_unchecked b n capacity e h = (record b { len = n }, refl, ground arith, ground arith)
