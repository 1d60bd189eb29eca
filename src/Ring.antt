-- ===== src/Ring.antt =====
-- The 32-bit indices by which the queues of src/umem.rs and src/socket.rs walk a ring.
pub mod Reads
pub mod Stores
use afxdp_rs.Prelude.{ℕ, suc, ◌+◌, ◌%◌, ◌^◌, ◌<◌, ◌≡◌, ◌⊎◌, inl, inr, Bool, false, arith}
use afxdp_rs.Rust.{value, add}

-- `idx += 1`, made `n` times from `idx` on, does not panic: the build has no overflow checks, or the index
-- stays below 2^32.
abbrev pub IndexSafe : Bool → ℕ → ℕ → Type 0
IndexSafe checks idx n = (checks ≡ false) ⊎ (idx + n < 2 ^ 32)

abbrev pub next : ℕ → ℕ
next idx = (idx + 1) % 2 ^ 32

pub add-next :
    (checks : Bool) (idx n : ℕ)
    → idx < 2 ^ 32
    → IndexSafe checks idx (suc n)
    → add checks 32 idx 1 ≡ value (next idx)
add-next checks idx n h (inl e) = ground arith
add-next checks idx n h (inr s) = ground arith

pub IndexSafe-next :
    (checks : Bool) (idx n : ℕ) → IndexSafe checks idx (suc n) → IndexSafe checks (next idx) n
IndexSafe-next checks idx n (inl e) = inl e
IndexSafe-next checks idx n (inr s) = inr (omega arith)
