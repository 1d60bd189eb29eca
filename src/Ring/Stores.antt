-- ===== src/Ring/Stores.antt =====
-- What a producer's stores leave in the slots that `reserve` gives it.
use afxdp_rs.Prelude.{
  ℕ, ◌+◌, ◌%◌, ◌^◌, ◌≤◌, ◌<◌, ◌≡◌, refl, ap, sym, ◌∙◌, List, [], ◌∷◌, ◌++◌, length, set, arith,
  length-append, append_assoc, append-nil, ap₂, take, drop, take_all, drop_all,
}
use afxdp_rs.Extern.Prod.{ProdRing, ProdLaws}

set-middle {ℓ} :
    {A : Type ℓ} (xs ys : List A) (y v : A) → set (xs ++ y ∷ ys) (length xs) v ≡ xs ++ v ∷ ys
set-middle [] ys y v = refl
set-middle (x ∷ xs) ys y v = ap (◌∷◌ x) (set-middle xs ys y v)

-- The producer has stored `stored` and stands at index `idx` before the slots `free`.
pub record Storing {E : Type 0} (p : ProdRing E) (l : ProdLaws p) (r : p.Ring) (idx : ℕ)
    (stored free sent : List E) : Type 0 where
  pub slots : l.slots r ≡ stored ++ free
  pub index : idx ≡ (l.first r + length stored) % 2 ^ 32
  pub queued : l.sent r ≡ sent

module _ {E : Type 0} (p : ProdRing E) (l : ProdLaws p) where
  -- One store fills the next slot.
  pub store-Storing :
      (r : p.Ring) (idx : ℕ) (stored free sent : List E) (s e : E)
      → Storing p l r idx stored (s ∷ free) sent
      → Storing p l (p.store r idx e) ((idx + 1) % 2 ^ 32) (stored ++ e ∷ []) free sent
  store-Storing r idx stored free sent s e h =
      let n = length stored in
      let room : n < length (l.slots r) =
        rw (h.slots, length-append stored (s ∷ free)) (omega arith) in
      let written : l.slots (p.store r idx e) ≡ set (l.slots r) n e =
        rw h.index (l.store_slots r n e room) in
      record {
        slots =
            written
            ∙ ap (λ (xs : List E). set xs n e) h.slots
            ∙ set-middle stored free s e
            ∙ sym (append_assoc stored (e ∷ []) free);
        index = rw (l.store_first r idx e, length-append stored (e ∷ [])) (omega (arith, h.index));
        queued = l.store_sent r idx e ∙ h.queued;
      }

  -- After `reserve` on a ring with nothing reserved, all its slots are free.
  pub reserve-Storing :
      (r : p.Ring) (nb : ℕ)
      → l.slots r ≡ []
      → let (n, idx, r') = p.reserve r nb 0 in 0 < n → Storing p l r' idx [] (l.slots r') (l.sent r)
  reserve-Storing r nb e h = record {
    slots = refl;
    index = omega (arith, l.reserve_first r nb 0 e h, l.reserve_idx r nb 0 (omega arith));
    queued = l.reserve_sent r nb 0;
  }

  -- `submit` of as many entries as were stored hands over those, and leaves nothing reserved.
  pub submit-Storing :
      (r : p.Ring) (idx n : ℕ) (stored sent : List E)
      → Storing p l r idx stored [] sent
      → length stored ≡ n
      → (l.sent (p.submit r n) ≡ sent ++ stored) × (l.slots (p.submit r n) ≡ [])
  submit-Storing r idx n stored sent h e =
      let all : l.slots r ≡ stored = h.slots ∙ append-nil stored in
      let count : n ≤ length (l.slots r) = rw all (omega arith) in
      (
        l.submit_sent r n count
            ∙ ap₂ ◌++◌ h.queued (ap (take n) all ∙ take_all stored n (omega arith)),
        l.submit_slots r n count ∙ ap (drop n) all ∙ drop_all stored n (omega arith),
      )
