-- ===== src/Tests/Pools.antt =====
-- The theorems on src/buf_pool_vec.rs and benches/buf_pool.rs at concrete inputs.
use afxdp_rs.Prelude.{ℕ, [], ◌∷◌}
use afxdp_rs.Rust.Vec.{Vec}
use afxdp_rs.Bag.{bag}
use afxdp_rs.Pool.{BufPoolVec}
use afxdp_rs.Pool.Contract.{BufPoolLaws, buf_pool_vec, buf_pool_vec-BufPoolLaws}

abbrev three : BufPoolVec ℕ
three = record { bufs = record { items = 1 ∷ 2 ∷ 3 ∷ []; capacity = 8 } }

abbrev two : Vec ℕ
two = record { items = 4 ∷ 5 ∷ []; capacity = 8 }

buf_pool_vec-BufPoolLaws_example : BufPoolLaws (buf_pool_vec ℕ) (λ p. bag p.bufs.items)
buf_pool_vec-BufPoolLaws_example = buf_pool_vec-BufPoolLaws ℕ
