-- ===== src/Ownership/Counts.antt =====
-- Values behind an `Arc`, at their places in a list: their counts of owners, and who of another list owns them.
use afxdp_rs.Prelude.{
  ℕ, zero, suc, ◌+◌, ◌≤◌, ◌<◌, ◌≡◌, refl, ap, Option, none, some, List, [], ◌∷◌, ◌++◌,
  if◌then◌else◌, ◌==◌, length, arith,
}

-- `ArcInner`: the count of owners, and the value. What has no owner left is dropped, and keeps its place.
pub record Counted {ℓ} (A : Type ℓ) : Type ℓ where
  pub strong : ℕ
  pub item : A

abbrev pub one_if : ℕ → ℕ → ℕ
one_if r q = if r == q then 1 else 0

module _ {ℓ} {A : Type ℓ} where
  -- the count of the value at `r`
  unfoldable pub strong_at : List (Counted A) → ℕ → ℕ
  strong_at [] r = 0
  strong_at (c ∷ cs) zero = c.strong
  strong_at (c ∷ cs) (suc r) = strong_at cs r

  unfoldable pub get_item : List (Counted A) → ℕ → Option A
  get_item [] r = none
  get_item (c ∷ cs) zero = some c.item
  get_item (c ∷ cs) (suc r) = get_item cs r

  unfoldable pub set_strong : List (Counted A) → ℕ → ℕ → List (Counted A)
  set_strong [] r n = []
  set_strong (c ∷ cs) zero n = record c { strong = n } ∷ cs
  set_strong (c ∷ cs) (suc r) n = c ∷ set_strong cs r n

  -- 1 for a value with an owner, 0 for one with none and where there is no value
  abbrev pub alive : List (Counted A) → ℕ → ℕ
  alive cs r = if strong_at cs r == 0 then 0 else 1

  -- 1 where there is a value, dropped or not
  pub made : List (Counted A) → ℕ → ℕ
  made [] r = 0
  made (c ∷ cs) zero = 1
  made (c ∷ cs) (suc r) = made cs r

  pub strong-set_strong :
      (cs : List (Counted A)) (r n q : ℕ)
      → 0 < strong_at cs r
      → strong_at (set_strong cs r n) q ≡ (if r == q then n else strong_at cs q)
  unfolding strong_at set_strong
  strong-set_strong [] r n q h = absurd (omega arith)
  strong-set_strong (c ∷ cs) zero n zero h = refl
  strong-set_strong (c ∷ cs) zero n (suc q) h = ground arith
  strong-set_strong (c ∷ cs) (suc r) n zero h = ground arith
  strong-set_strong (c ∷ cs) (suc r) n (suc q) h = ground (arith, strong-set_strong cs r n q h)

  pub item-set_strong :
      (cs : List (Counted A)) (r n q : ℕ) → get_item (set_strong cs r n) q ≡ get_item cs q
  unfolding get_item set_strong
  item-set_strong [] r n q = refl
  item-set_strong (c ∷ cs) zero n zero = refl
  item-set_strong (c ∷ cs) zero n (suc q) = refl
  item-set_strong (c ∷ cs) (suc r) n zero = refl
  item-set_strong (c ∷ cs) (suc r) n (suc q) = item-set_strong cs r n q

  pub made-set_strong : (cs : List (Counted A)) (r n q : ℕ) → made (set_strong cs r n) q ≡ made cs q
  unfolding made set_strong
  made-set_strong [] r n q = refl
  made-set_strong (c ∷ cs) zero n zero = refl
  made-set_strong (c ∷ cs) zero n (suc q) = refl
  made-set_strong (c ∷ cs) (suc r) n zero = refl
  made-set_strong (c ∷ cs) (suc r) n (suc q) = made-set_strong cs r n q

  pub item_of_strong :
      (cs : List (Counted A)) (r : ℕ) → 0 < strong_at cs r → (a : A) × (get_item cs r ≡ some a)
  unfolding get_item strong_at
  item_of_strong [] r h = absurd (omega arith)
  item_of_strong (c ∷ cs) zero h = (c.item, refl)
  item_of_strong (c ∷ cs) (suc r) h = item_of_strong cs r h

  pub made_of_strong : (cs : List (Counted A)) (r : ℕ) → 0 < strong_at cs r → made cs r ≡ 1
  unfolding made strong_at
  made_of_strong [] r h = absurd (omega arith)
  made_of_strong (c ∷ cs) zero h = refl
  made_of_strong (c ∷ cs) (suc r) h = made_of_strong cs r h

  pub made_of_item :
      (cs : List (Counted A)) (r : ℕ) {a : A} → get_item cs r ≡ some a → made cs r ≡ 1
  unfolding made get_item
  made_of_item [] r e = cc
  made_of_item (c ∷ cs) zero e = refl
  made_of_item (c ∷ cs) (suc r) e = made_of_item cs r e

  pub made-le : (cs : List (Counted A)) (r : ℕ) → made cs r ≤ 1
  unfolding made
  made-le [] r = omega arith
  made-le (c ∷ cs) zero = omega arith
  made-le (c ∷ cs) (suc r) = made-le cs r

  -- A new value has the next place.
  pub strong-append :
      (cs : List (Counted A)) (c : Counted A) (q : ℕ)
      → strong_at (cs ++ c ∷ []) q ≡ strong_at cs q + (if length cs == q then c.strong else 0)
  unfolding strong_at
  strong-append [] c zero = omega arith
  strong-append [] c (suc q) = ground arith
  strong-append (d ∷ cs) c zero = ground arith
  strong-append (d ∷ cs) c (suc q) = ground (arith, strong-append cs c q)

  pub item-append :
      (cs : List (Counted A)) (c : Counted A) (q : ℕ)
      → get_item (cs ++ c ∷ []) q ≡ (if length cs == q then some c.item else get_item cs q)
  unfolding get_item
  item-append [] c zero = refl
  item-append [] c (suc q) = ground arith
  item-append (d ∷ cs) c zero = ground arith
  item-append (d ∷ cs) c (suc q) = ground (arith, item-append cs c q)

  pub item-nil : (r : ℕ) → get_item [] r ≡ none
  unfolding get_item
  item-nil r = refl

  pub strong-length : (cs : List (Counted A)) (q : ℕ) → length cs ≤ q → strong_at cs q ≡ 0
  unfolding strong_at
  strong-length [] q h = refl
  strong-length (c ∷ cs) zero h = absurd (omega arith)
  strong-length (c ∷ cs) (suc q) h = strong-length cs q (omega arith)

  pub made-length : (cs : List (Counted A)) (q : ℕ) → length cs ≤ q → made cs q ≡ 0
  unfolding made
  made-length [] q h = refl
  made-length (c ∷ cs) zero h = absurd (omega arith)
  made-length (c ∷ cs) (suc q) h = made-length cs q (omega arith)

  pub made-append :
      (cs : List (Counted A)) (c : Counted A) (q : ℕ)
      → made (cs ++ c ∷ []) q ≡ made cs q + one_if (length cs) q
  unfolding made
  made-append [] c zero = refl
  made-append [] c (suc q) = ground arith
  made-append (d ∷ cs) c zero = ground arith
  made-append (d ∷ cs) c (suc q) = ground (arith, made-append cs c q)

-- How many of the values that still have an owner own the value at `r` of another list.
module _ {ℓ} {A : Type ℓ} (owned : A → ℕ) where
  pub owners : List (Counted A) → ℕ → ℕ
  owners [] r = 0
  owners (c ∷ cs) r = (if c.strong == 0 then 0 else one_if (owned c.item) r) + owners cs r

  -- A count that changes and is not 0 before or after changes nothing here.
  pub owners-set_some :
      (cs : List (Counted A)) (r n q : ℕ)
      → 0 < strong_at cs r
      → 0 < n
      → owners (set_strong cs r n) q ≡ owners cs q
  unfolding owners set_strong strong_at
  owners-set_some [] r n q h k = refl
  owners-set_some (c ∷ cs) zero n q h k = ground arith
  owners-set_some (c ∷ cs) (suc r) n q h k =
      ap (λ (t : ℕ). (if c.strong == 0 then 0 else one_if (owned c.item) q) + t)
        (owners-set_some cs r n q h k)

  -- A value that is dropped no longer owns anything.
  pub owners-set_none :
      (cs : List (Counted A)) (r q : ℕ) {a : A}
      → 0 < strong_at cs r
      → get_item cs r ≡ some a
      → owners cs q ≡ owners (set_strong cs r 0) q + one_if (owned a) q
  unfolding owners set_strong strong_at get_item
  owners-set_none [] r q h e = absurd (omega arith)
  owners-set_none (c ∷ cs) zero q h e = ground arith
  owners-set_none (c ∷ cs) (suc r) q h e = ground (arith, owners-set_none cs r q h e)

  pub owners-append :
      (cs : List (Counted A)) (c : Counted A) (q : ℕ)
      → owners (cs ++ c ∷ []) q
        ≡ owners cs q + (if c.strong == 0 then 0 else one_if (owned c.item) q)
  unfolding owners
  owners-append [] c q = omega arith
  owners-append (d ∷ cs) c q = omega (arith, owners-append cs c q)

  -- Where no value has an owner, none owns anything.
  pub owners_of_dead :
      (cs : List (Counted A)) → ((q : ℕ) → strong_at cs q ≡ 0) → (r : ℕ) → owners cs r ≡ 0
  unfolding owners strong_at
  owners_of_dead [] h r = refl
  owners_of_dead (c ∷ cs) h r = ground (arith, h 0, owners_of_dead cs (λ q. h (suc q)) r)

  -- A value with an owner is counted.
  pub owners_of_alive :
      (cs : List (Counted A)) (u r : ℕ) {a : A}
      → get_item cs u ≡ some a
      → owned a ≡ r
      → owners cs r ≡ 0
      → strong_at cs u ≡ 0
  unfolding owners strong_at get_item
  owners_of_alive [] u r e f z = refl
  owners_of_alive (c ∷ cs) zero r e f z = ground arith
  owners_of_alive (c ∷ cs) (suc u) r e f z = owners_of_alive cs u r e f (omega arith)
