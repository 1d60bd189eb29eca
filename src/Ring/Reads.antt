-- ===== src/Ring/Reads.antt =====
-- What a consumer reads at the indices that `peek` gives it.
use afxdp_rs.Prelude.{
  ℕ, zero, suc, ◌+◌, ◌%◌, ◌^◌, ◌≤◌, ◌<◌, ◌≡◌, some, ap, sym, ◌∙◌, List, [], ◌∷◌, length, get_elem?,
  take, arith, length-take, some_eq, ◌++◌, drop, drop_all, ap₂,
}
use afxdp_rs.Extern.Cons.{ConsRing, ConsLaws}

-- The entries at `idx` and the indices after it, modulo 2^32, are these.
abbrev pub Reads : {E : Type 0} (c : ConsRing E) → c.Ring → ℕ → List E → Type 0
Reads c r idx [] = Unit {0}
Reads c r idx (x ∷ xs) = (c.entry r idx ≡ x) × Reads c r ((idx + 1) % 2 ^ 32) xs

module _ {E : Type 0} (c : ConsRing E) where
  Reads-take :
      (r : c.Ring) (n idx : ℕ) (xs : List E)
      → idx < 2 ^ 32
      → n ≤ length xs
      → ((i : ℕ) → i < n → get_elem? xs i ≡ some (c.entry r ((idx + i) % 2 ^ 32)))
      → Reads c r idx (take n xs)
  Reads-take r zero idx xs lt le h = tt
  Reads-take r (suc n) idx [] lt le h = absurd (omega arith)
  Reads-take r (suc n) idx (x ∷ xs) lt le h =
      let here : (idx + 0) % 2 ^ 32 ≡ idx = omega arith in
      (
        sym (some_eq (h 0 (omega arith) ∙ ap (λ (k : ℕ). some (c.entry r k)) here)),
        Reads-take r n ((idx + 1) % 2 ^ 32) xs (omega arith) (omega arith) (λ i lt'.
            let shift : (idx + suc i) % 2 ^ 32 ≡ ((idx + 1) % 2 ^ 32 + i) % 2 ^ 32 = omega arith in
            h (suc i) (omega arith) ∙ ap (λ (k : ℕ). some (c.entry r k)) shift),
      )

  -- What `peek` hands out is read at the indices from the one that it gives.
  pub peek-Reads :
      (l : ConsLaws c) (r : c.Ring) (nb idx : ℕ)
      → idx < 2 ^ 32
      → let (n, idx', r') = c.peek r nb idx in Reads c r' idx' (take n (l.ready r))
  peek-Reads l r nb idx h =
      Reads-take _ _ _ _ (l.peek_idx r nb idx h) (l.peek_available r nb idx) (l.peek_entry r nb idx)

  pub peek-length :
      (l : ConsLaws c) (r : c.Ring) (nb idx : ℕ)
      → let (n, idx', r') = c.peek r nb idx in length (take n (l.ready r)) ≡ n
  peek-length l r nb idx =
      omega (arith, length-take (c.peek r nb idx).0 (l.ready r), l.peek_available r nb idx)

  -- With nothing held before, releasing what was peeked leaves nothing held, and takes it off the front of
  -- what was ready.
  pub peek-release :
      (l : ConsLaws c) (r : c.Ring) (nb idx : ℕ)
      → l.held r ≡ []
      → let (n, idx', r') = c.peek r nb idx in
        (l.held (c.release r' n) ≡ []) × (l.ready (c.release r' n) ≡ drop n (l.ready r))
  peek-release l r nb idx e =
      let (n, idx', r') = c.peek r nb idx in
      let held : l.held r' ≡ take n (l.ready r) =
        l.peek_held r nb idx ∙ ap (λ (xs : List E). xs ++ take n (l.ready r)) e in
      let count : length (l.held r') ≡ n = ap length held ∙ peek-length l r nb idx in
      (
        l.release_held r' n (omega (arith, count)) ∙ drop_all (l.held r') n (omega (arith, count)),
        l.release_ready r' n (omega (arith, count)) ∙ l.peek_ready r nb idx,
      )

  pub peek-nothing :
      (l : ConsLaws c) (r : c.Ring) (nb idx : ℕ)
      → l.held r ≡ []
      → (c.peek r nb idx).0 ≡ 0
      → (l.held (c.peek r nb idx).2 ≡ []) × (l.ready (c.peek r nb idx).2 ≡ l.ready r)
  peek-nothing l r nb idx e z = (
    l.peek_held r nb idx ∙ ap₂ ◌++◌ e (ap (λ (k : ℕ). take k (l.ready r)) z),
    l.peek_ready r nb idx ∙ ap (λ (k : ℕ). drop k (l.ready r)) z,
  )
