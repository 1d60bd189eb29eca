-- ===== src/Buf/Owned.antt =====
-- src/buf_vec.rs: `BufVec`, a buffer in a vector of its own, for tests.
use afxdp_rs.Prelude.{ℕ, List, if◌then◌else◌, ltb, length, set, replicate}
use afxdp_rs.Rust.{Outcome, value, panic, bounds, try_into}
use afxdp_rs.Rust.Vec.{Vec}
use afxdp_rs.Memory.{Memory}

pub record BufVec (T : Type 0) : Type 0 where
  -- the field `data`
  pub bytes : Vec ℕ
  pub len : ℕ
  pub user : T

module _ {T : Type 0} where
  -- `vec![0; capacity]` allocates for `capacity` bytes.
  unfoldable pub new : ℕ → T → BufVec T
  new capacity user = record {
    bytes = record { items = replicate capacity 0; capacity = capacity };
    len = 0;
    user = user;
  }

  unfoldable pub get_data : Memory → BufVec T → List ℕ
  get_data m b = b.bytes.items

  -- `get_data_mut`, and a write through it at index `i`
  unfoldable pub write_data : Memory → BufVec T → ℕ → ℕ → Outcome (Memory × BufVec T)
  write_data m b i v =
      if ltb i (length b.bytes.items)
      then value (m, record b { bytes = record (b.bytes) { items = set b.bytes.items i v } })
      else panic bounds

  unfoldable pub get_capacity : BufVec T → Outcome ℕ
  get_capacity b = try_into 16 b.bytes.capacity

  unfoldable pub get_len : BufVec T → ℕ
  get_len b = b.len

  unfoldable pub set_len : BufVec T → ℕ → Outcome (BufVec T)
  set_len b len = value (record b { len = len })

  unfoldable pub get_user : BufVec T → T
  get_user b = b.user

  -- `get_user_mut`, and a write through it
  unfoldable pub set_user : BufVec T → T → BufVec T
  set_user b u = record b { user = u }
