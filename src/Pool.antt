-- ===== src/Pool.antt =====
-- src/buf_pool.rs and src/buf_pool_vec.rs: pools of buffers. `get`, `put` and `put_buf` return the count,
-- the caller's vector where they change it, and the pool.
pub mod Moves
pub mod Contract
use afxdp_rs.Prelude.{ℕ, ◌-◌, min, Bool, ◌==◌}
use afxdp_rs.Rust.Vec.{Vec, with_capacity, extend, push, drain_from}
use afxdp_rs.Rust.Vec

-- The trait `BufPool`.
pub record BufPool (P B : Type 0) : Type 0 where
  pub get : P → Vec B → ℕ → ℕ × Vec B × P
  pub put : P → Vec B → ℕ → ℕ × Vec B × P
  pub put_buf : P → B → ℕ × P
  pub len : P → ℕ
  pub is_empty : P → Bool

pub record BufPoolVec (B : Type 0) : Type 0 where
  pub bufs : Vec B

module _ {B : Type 0} where
  unfoldable pub new : ℕ → BufPoolVec B
  new capacity = record { bufs = with_capacity capacity }

  unfoldable pub get : BufPoolVec B → Vec B → ℕ → ℕ × Vec B × BufPoolVec B
  get p bufs num =
      let ready = min num (Vec.len p.bufs) in
      let start = Vec.len p.bufs - ready in
      let (drained, rest) = drain_from start p.bufs in
      (ready, extend bufs drained, record { bufs = rest })

  unfoldable pub put : BufPoolVec B → Vec B → ℕ → ℕ × Vec B × BufPoolVec B
  put p bufs num =
      let ready = min num (Vec.len bufs) in
      let start = Vec.len bufs - ready in
      let (drained, rest) = drain_from start bufs in
      (ready, rest, record { bufs = extend p.bufs drained })

  pub put_buf : BufPoolVec B → B → ℕ × BufPoolVec B
  put_buf p buf = (1, record { bufs = push p.bufs buf })

  unfoldable pub len : BufPoolVec B → ℕ
  len p = Vec.len p.bufs

  pub is_empty : BufPoolVec B → Bool
  is_empty p = Vec.len p.bufs == 0

-- benches/buf_pool.rs: `getput`, over any pool.
pub getput : {P B : Type 0} → BufPool P B → P → Vec B → ℕ → Vec B × P
getput o p bufs num =
    let (n, bufs', p') = o.get p bufs num in
    let (m, bufs'', p'') = o.put p' bufs' num in (bufs'', p'')
