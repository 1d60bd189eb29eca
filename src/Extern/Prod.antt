-- ===== src/Extern/Prod.antt =====
-- A ring that the program produces into (libbpf's `xsk_ring_prod`): the transmit ring, whose entries
-- are descriptors, and the fill ring, whose entries are addresses.
use afxdp_rs.Prelude.{ℕ, ◌+◌, ◌%◌, ◌^◌, ◌≤◌, ◌<◌, ◌≡◌, List, [], ◌++◌, length, set, take, drop}
use afxdp_rs.Prelude.Int.{ℤ}

pub record ProdRing (E : Type 0) : Type 1 where
  pub Ring : Type 0
  -- `Default::default()`, before the ring is set up
  pub blank : Ring
  -- `_xsk_ring_prod__reserve(ring, nb, &mut idx)`: the count, `idx`, and the ring
  pub reserve : Ring → ℕ → ℕ → ℕ × ℕ × Ring
  -- reading and writing through `_xsk_ring_prod__tx_desc(ring, idx)`,
  -- `_xsk_ring_prod__fill_addr(ring, idx)`
  pub slot : Ring → ℕ → E
  pub store : Ring → ℕ → E → Ring
  -- `_xsk_ring_prod__submit(ring, nb)`
  pub submit : Ring → ℕ → Ring
  -- `_xsk_ring_prod__needs_wakeup(ring)`
  pub needs_wakeup : Ring → ℤ

-- `sent`: what was submitted and the kernel has not taken, oldest first. `slots`: what is reserved and
-- not submitted, from index `first` on. `reserve` gives `nb` slots at most, under consecutive 32-bit
-- indices; `submit` hands the oldest slots to the kernel as they stand.
pub record ProdLaws {E : Type 0} (p : ProdRing E) : Type 0 where
  pub sent : p.Ring → List E
  pub slots : p.Ring → List E
  pub first : p.Ring → ℕ
  pub reserve_le : (r : p.Ring) (nb idx : ℕ) → (p.reserve r nb idx).0 ≤ nb
  pub reserve_idx : (r : p.Ring) (nb idx : ℕ) → idx < 2 ^ 32 → (p.reserve r nb idx).1 < 2 ^ 32
  pub reserve_sent : (r : p.Ring) (nb idx : ℕ) → sent (p.reserve r nb idx).2 ≡ sent r
  pub reserve_slots :
      (r : p.Ring) (nb idx : ℕ)
      → slots r ≡ []
      → length (slots (p.reserve r nb idx).2) ≡ (p.reserve r nb idx).0
  pub reserve_first :
      (r : p.Ring) (nb idx : ℕ)
      → slots r ≡ []
      → 0 < (p.reserve r nb idx).0
      → first (p.reserve r nb idx).2 ≡ (p.reserve r nb idx).1
  pub store_sent : (r : p.Ring) (idx : ℕ) (e : E) → sent (p.store r idx e) ≡ sent r
  pub store_first : (r : p.Ring) (idx : ℕ) (e : E) → first (p.store r idx e) ≡ first r
  pub store_slots :
      (r : p.Ring) (i : ℕ) (e : E)
      → i < length (slots r)
      → slots (p.store r ((first r + i) % 2 ^ 32) e) ≡ set (slots r) i e
  pub submit_sent :
      (r : p.Ring) (nb : ℕ)
      → nb ≤ length (slots r)
      → sent (p.submit r nb) ≡ sent r ++ take nb (slots r)
  pub submit_slots :
      (r : p.Ring) (nb : ℕ) → nb ≤ length (slots r) → slots (p.submit r nb) ≡ drop nb (slots r)
