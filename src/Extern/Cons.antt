-- ===== src/Extern/Cons.antt =====
-- A ring that the program consumes (libbpf's `xsk_ring_cons`): the receive ring, whose entries are
-- descriptors, and the completion ring, whose entries are addresses.
use afxdp_rs.Prelude.{
  ℕ, ◌+◌, ◌%◌, ◌^◌, ◌≤◌, ◌<◌, ◌≡◌, some, List, ◌++◌, length, get_elem?, take, drop,
}

-- libbpf's `xdp_desc`
pub record XdpDesc : Type 0 where
  pub addr : ℕ
  pub len : ℕ
  pub options : ℕ

pub record ConsRing (E : Type 0) : Type 1 where
  pub Ring : Type 0
  -- `Default::default()`, before the ring is set up
  pub blank : Ring
  -- `_xsk_ring_cons__peek(ring, nb, &mut idx)`: the count, `idx`, and the ring
  pub peek : Ring → ℕ → ℕ → ℕ × ℕ × Ring
  -- `*_xsk_ring_cons__rx_desc(ring, idx)`, `*_xsk_ring_cons__comp_addr(ring, idx)`
  pub entry : Ring → ℕ → E
  -- `_xsk_ring_cons__release(ring, nb)`
  pub release : Ring → ℕ → Ring

-- `ready`: what the kernel has put into the ring and the program has not peeked, oldest first.
-- `held`: what was peeked and not yet released to the kernel. `peek` hands out a prefix of `ready`, of
-- `nb` entries at most, under consecutive 32-bit indices; `release` gives the oldest entries back.
pub record ConsLaws {E : Type 0} (c : ConsRing E) : Type 0 where
  pub ready : c.Ring → List E
  pub held : c.Ring → List E
  pub peek_le : (r : c.Ring) (nb idx : ℕ) → (c.peek r nb idx).0 ≤ nb
  pub peek_available : (r : c.Ring) (nb idx : ℕ) → (c.peek r nb idx).0 ≤ length (ready r)
  pub peek_idx : (r : c.Ring) (nb idx : ℕ) → idx < 2 ^ 32 → (c.peek r nb idx).1 < 2 ^ 32
  pub peek_held :
      (r : c.Ring) (nb idx : ℕ)
      → held (c.peek r nb idx).2 ≡ held r ++ take (c.peek r nb idx).0 (ready r)
  pub peek_ready :
      (r : c.Ring) (nb idx : ℕ) → ready (c.peek r nb idx).2 ≡ drop (c.peek r nb idx).0 (ready r)
  pub peek_entry :
      (r : c.Ring) (nb idx i : ℕ)
      → i < (c.peek r nb idx).0
      → get_elem? (ready r) i
        ≡ some (c.entry (c.peek r nb idx).2 (((c.peek r nb idx).1 + i) % 2 ^ 32))
  pub release_held :
      (r : c.Ring) (nb : ℕ) → nb ≤ length (held r) → held (c.release r nb) ≡ drop nb (held r)
  pub release_ready :
      (r : c.Ring) (nb : ℕ) → nb ≤ length (held r) → ready (c.release r nb) ≡ ready r
