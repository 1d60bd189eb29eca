-- ===== src/UnitTests/Pools.antt =====
-- src/buf_pool_vec.rs: its test `buf_pool_vec_put1`.
use afxdp_rs.Prelude.{ℕ, zero, suc, ◌≡◌, refl, ◌==◌}
use afxdp_rs.Rust.{Outcome, value, ◌>>◌}
use afxdp_rs.Rust.Vec.{Vec, with_capacity, push}
use afxdp_rs.Rust.Vec
use afxdp_rs.Buf.Owned.{BufVec}
use afxdp_rs.Buf.Owned
use afxdp_rs.Pool
use afxdp_rs.UnitTests.{assert}

abbrev pub num : ℕ
num = 97

module _ {T : Type 0} (user : T) where
  -- `for _ in 0..NUM`
  pub make_vecs : ℕ → Vec (BufVec T) → Vec (BufVec T)
  make_vecs zero bufs = bufs
  make_vecs (suc rounds) bufs = make_vecs rounds (push bufs (Owned.new num user))

  pub buf_pool_vec_put1 : Outcome (Unit {0})
  unfolding make_vecs
  buf_pool_vec_put1 = do
    let bufs = make_vecs num (with_capacity num)
    let pool = Pool.new (Vec.len bufs)
    let (r, bufs, pool) = Pool.put pool bufs (Vec.len bufs)
    assert (r == num)
    assert (Pool.len pool == num)
    let (r, bufs, pool) = Pool.get pool bufs num
    assert (r == num)
    assert (Pool.len pool == 0)
    assert (Vec.len bufs == num)

  put1_passes : buf_pool_vec_put1 ≡ value tt
  unfolding buf_pool_vec_put1 Pool.new Pool.put Pool.get Pool.len
  put1_passes = refl
