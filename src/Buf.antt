-- ===== src/Buf.antt =====
-- src/buf.rs: the trait `Buf`, over the memory that buffers may lie in.
pub mod Mmap
pub mod Owned
pub mod Contract
use afxdp_rs.Prelude.{ℕ, ◌≤◌, ◌<◌, ◌≡◌, List, length, set}
use afxdp_rs.Rust.{Outcome, value}
use afxdp_rs.Memory.{Memory}

-- The trait. `get_data_mut` and `get_user_mut` hand out places to write to: `write_data m b i v` is
-- `b.get_data_mut()[i] = v`, `set_user b u` is `*b.get_user_mut() = u`.
pub record Buf (B T : Type 0) : Type 0 where
  pub get_data : Memory → B → List ℕ
  pub write_data : Memory → B → ℕ → ℕ → Outcome (Memory × B)
  pub get_capacity : B → Outcome ℕ
  pub get_len : B → ℕ
  pub set_len : B → ℕ → Outcome B
  pub get_user : B → T
  pub set_user : B → T → B

-- What `set_len` may do: it sets the length and nothing else.
pub record SetsLen {B T : Type 0} (o : Buf B T) (b b' : B) (n : ℕ) : Type 0 where
  pub len : o.get_len b' ≡ n
  pub capacity : o.get_capacity b' ≡ o.get_capacity b
  pub user : o.get_user b' ≡ o.get_user b
  pub bytes : (m : Memory) → o.get_data m b' ≡ o.get_data m b

-- The contract of the trait, as its comments state it.
pub record BufLaws {B T : Type 0} (o : Buf B T) : Type 0 where
  pub set_len_lem : (b b' : B) (n : ℕ) → o.set_len b n ≡ value b' → SetsLen o b b' n
  pub set_len_total :
      (b : B) (n capacity : ℕ)
      → o.get_capacity b ≡ value capacity
      → n ≤ capacity
      → (b' : B) × (o.set_len b n ≡ value b')
  pub write_data_lem :
      (m m' : Memory) (b b' : B) (i v : ℕ)
      → o.write_data m b i v ≡ value (m', b')
      → o.get_data m' b' ≡ set (o.get_data m b) i v
  pub write_data_total :
      (m : Memory) (b : B) (i v : ℕ)
      → i < length (o.get_data m b)
      → (r : Memory × B) × (o.write_data m b i v ≡ value r)
  pub set_user_lem : (b : B) (u : T) → o.get_user (o.set_user b u) ≡ u
  pub set_user_len : (b : B) (u : T) → o.get_len (o.set_user b u) ≡ o.get_len b
