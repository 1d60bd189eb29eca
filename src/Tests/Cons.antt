-- ===== src/Tests/Cons.antt =====
-- A consumer ring with at most 8 entries handed out at a time.
use afxdp_rs.Prelude.{
  ℕ, zero, suc, ◌+◌, ◌-◌, ◌%◌, ◌^◌, ◌≤◌, ◌<◌, min, ◌≡◌, refl, ap, ◌∙◌, some, List, [], ◌∷◌, ◌++◌,
  length, take, drop, get_elem?, arith,
}
use afxdp_rs.Extern.Cons.{ConsRing, ConsLaws}

-- `latest`: what the last peek handed out, under the indices from `start` on.
pub record Window (E : Type 0) : Type 0 where
  pub held : List E
  pub ready : List E
  pub latest : List E
  pub start : ℕ

abbrev pub nth {ℓ} : {A : Type ℓ} → A → List A → ℕ → A
nth a [] i = a
nth a (x ∷ xs) zero = x
nth a (x ∷ xs) (suc i) = nth a xs i

pub nth-take :
    {A : Type 0} (a : A) (xs : List A) (n i : ℕ)
    → i < n
    → n ≤ length xs
    → get_elem? xs i ≡ some (nth a (take n xs) i)
nth-take a [] n i h le = absurd (omega arith)
nth-take a (x ∷ xs) zero i h le = absurd (omega arith)
nth-take a (x ∷ xs) (suc n) zero h le = refl
nth-take a (x ∷ xs) (suc n) (suc i) h le = nth-take a xs n i (omega arith) (omega arith)

module _ {E : Type 0} (filler : E) where
  abbrev pub window : ConsRing E
  window = record {
    Ring = Window E;
    blank = record { held = []; ready = []; latest = []; start = 0 };
    peek = λ r nb idx.
        let n = min 8 (min nb (length r.ready)) in
        let first = (r.start + length r.latest) % 2 ^ 32 in
        (
          n,
          first,
          record {
            held = r.held ++ take n r.ready;
            ready = drop n r.ready;
            latest = take n r.ready;
            start = first;
          },
        );
    entry = λ r idx. nth filler r.latest ((idx + 2 ^ 32 - r.start) % 2 ^ 32);
    release = λ r nb. record r { held = drop nb r.held };
  }

  abbrev pub window_laws : ConsLaws window
  window_laws = record {
    ready = λ r. r.ready;
    held = λ r. r.held;
    peek_le = λ r nb idx. omega arith;
    peek_available = λ r nb idx. omega arith;
    peek_idx = λ r nb idx h. omega arith;
    peek_held = λ r nb idx. refl;
    peek_ready = λ r nb idx. refl;
    peek_entry = λ r nb idx i h.
        let n = min 8 (min nb (length r.ready)) in
        let first = (r.start + length r.latest) % 2 ^ 32 in
        let back : i ≡ ((first + i) % 2 ^ 32 + 2 ^ 32 - first) % 2 ^ 32 = omega arith in
        nth-take filler r.ready n i h (omega arith)
        ∙ ap (λ (k : ℕ). some (nth filler (take n r.ready) k)) back;
    release_held = λ r nb h. refl;
    release_ready = λ r nb h. refl;
  }
