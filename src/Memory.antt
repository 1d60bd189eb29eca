-- ===== src/Memory.antt =====
-- The memory that the kernel and the program share: a byte at each address.
use afxdp_rs.Prelude.{
  ℕ, zero, suc, ◌+◌, ◌≤◌, ◌<◌, ◌≡◌, ◌≢◌, refl, ap, ap₂, ◌∙◌, ◌⊎◌, inl, inr, List, [], ◌∷◌, ◌==◌,
  if◌then◌else◌, arith, length, set,
}
use afxdp_rs.Rust.{Slice}

abbrev pub Memory : Type 0
Memory = ℕ → ℕ

abbrev pub store : Memory → ℕ → ℕ → Memory
store m a v b = if a == b then v else m b

-- the `n` bytes from address `a` on
abbrev pub load : Memory → ℕ → ℕ → List ℕ
load m a zero = []
load m a (suc n) = m a ∷ load m (a + 1) n

abbrev pub load_slice : Memory → Slice → List ℕ
load_slice m s = load m s.ptr s.len

pub length-load : (m : Memory) (a n : ℕ) → length (load m a n) ≡ n
length-load m a zero = refl
length-load m a (suc n) = ap suc (length-load m (a + 1) n)

pub store-other : (m : Memory) (a v b : ℕ) → a ≢ b → store m a v b ≡ m b
store-other m a v b h = ground arith

-- A store outside a range does not change what is loaded from it.
pub load-store_outside :
    (m : Memory) (p v a n : ℕ) → (p < a) ⊎ (a + n ≤ p) → load (store m p v) a n ≡ load m a n
load-store_outside m p v a zero h = refl
load-store_outside m p v a (suc n) h =
    ap₂ ◌∷◌ (store-other m p v a (ground arith)) (load-store_outside m p v (a + 1) n (later h))
  where
    later : (p < a) ⊎ (a + suc n ≤ p) → (p < a + 1) ⊎ ((a + 1) + n ≤ p)
    later (inl q) = inl (omega arith)
    later (inr q) = inr (omega arith)

-- A store inside it changes the one byte.
pub load-store_inside :
    (m : Memory) (v a n i p : ℕ) → i < n → p ≡ a + i → load (store m p v) a n ≡ set (load m a n) i v
load-store_inside m v a zero i p h e = absurd (omega arith)
load-store_inside m v a (suc n) zero p h e =
    ap₂ ◌∷◌ (ground arith) (load-store_outside m p v (a + 1) n (inl (omega arith)))
load-store_inside m v a (suc n) (suc i) p h e =
    ap₂ ◌∷◌ (store-other m p v a (omega arith))
      (load-store_inside m v (a + 1) n i p (omega arith) (omega arith))

-- `dst.copy_from_slice(src)`, for the bytes from `a` on.
abbrev pub store_all : Memory → ℕ → List ℕ → Memory
store_all m a [] = m
store_all m a (v ∷ vs) = store_all (store m a v) (a + 1) vs

pub store_all-other :
    (m : Memory) (a : ℕ) (vs : List ℕ) (x : ℕ)
    → (x < a) ⊎ (a + length vs ≤ x)
    → store_all m a vs x ≡ m x
store_all-other m a [] x h = refl
store_all-other m a (v ∷ vs) x h =
    store_all-other (store m a v) (a + 1) vs x (later h) ∙ store-other m a v x (ground arith)
  where
    later : (x < a) ⊎ (a + length (v ∷ vs) ≤ x) → (x < a + 1) ⊎ ((a + 1) + length vs ≤ x)
    later (inl q) = inl (omega arith)
    later (inr q) = inr (omega arith)

store_all-first : (m : Memory) (a v : ℕ) (vs : List ℕ) → store_all m a (v ∷ vs) a ≡ v
store_all-first m a v vs =
    store_all-other (store m a v) (a + 1) vs a (inl (omega arith)) ∙ ground arith

-- What was copied is read back.
pub load-store_all : (m : Memory) (a : ℕ) (vs : List ℕ) → load (store_all m a vs) a (length vs) ≡ vs
load-store_all m a [] = refl
load-store_all m a (v ∷ vs) =
    ap₂ ◌∷◌ (store_all-first m a v vs) (load-store_all (store m a v) (a + 1) vs)

-- Copying elsewhere does not change it.
pub load-store_all_outside :
    (m : Memory) (b : ℕ) (vs : List ℕ) (a n : ℕ)
    → (a + n ≤ b) ⊎ (b + length vs ≤ a)
    → load (store_all m b vs) a n ≡ load m a n
load-store_all_outside m b vs a zero h = refl
load-store_all_outside m b vs a (suc n) h =
    ap₂ ◌∷◌ (store_all-other m b vs a (here h)) (load-store_all_outside m b vs (a + 1) n (later h))
  where
    here : (a + suc n ≤ b) ⊎ (b + length vs ≤ a) → (a < b) ⊎ (b + length vs ≤ a)
    here (inl q) = inl (omega arith)
    here (inr q) = inr q

    later : (a + suc n ≤ b) ⊎ (b + length vs ≤ a) → ((a + 1) + n ≤ b) ⊎ (b + length vs ≤ a + 1)
    later (inl q) = inl (omega arith)
    later (inr q) = inr (omega arith)
