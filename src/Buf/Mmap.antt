-- ===== src/Buf/Mmap.antt =====
-- src/buf_mmap.rs: `BufMmap`, a buffer in mapped memory.
use afxdp_rs.Prelude.{ℕ, ◌+◌, List, if◌then◌else◌, ltb}
use afxdp_rs.Rust.{Outcome, value, panic, bounds, explicit, ◌>>=◌, ◌>>◌, panic_if, try_into, Slice}
use afxdp_rs.Memory.{Memory, store, load_slice}

pub record BufMmap (T : Type 0) : Type 0 where
  pub addr : ℕ
  pub len : ℕ
  -- the field `data`
  pub bytes : Slice
  pub user : T

module _ {T : Type 0} where
  unfoldable pub get_data : Memory → BufMmap T → List ℕ
  get_data m b = load_slice m b.bytes

  -- `get_data_mut`, and a write through it at index `i`
  unfoldable pub write_data : Memory → BufMmap T → ℕ → ℕ → Outcome (Memory × BufMmap T)
  write_data m b i v =
      if ltb i b.bytes.len then value (store m (b.bytes.ptr + i) v, b) else panic bounds

  unfoldable pub get_capacity : BufMmap T → Outcome ℕ
  get_capacity b = try_into 16 b.bytes.len

  unfoldable pub get_len : BufMmap T → ℕ
  get_len b = b.len

  unfoldable pub set_len : BufMmap T → ℕ → Outcome (BufMmap T)
  unfolding get_capacity
  set_len b len = do
    capacity ← get_capacity b
    panic_if (ltb capacity len) explicit
    value (record b { len = len })

  unfoldable pub get_user : BufMmap T → T
  get_user b = b.user

  -- `get_user_mut`, and a write through it
  unfoldable pub set_user : BufMmap T → T → BufMmap T
  set_user b u = record b { user = u }
