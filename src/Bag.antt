-- ===== src/Bag.antt =====
-- Lists seen without their order: the multiset of a list's elements, and what moving elements from one
-- list to another leaves alone.
use mathlib.Mathlib.Data.Multiset.Defs.{Multiset, of_list}
use mathlib.Mathlib.Data.Multiset.AddSub.{add, coe-add, add_comm, add_assoc}
use afxdp_rs.Prelude.{ℕ, ◌≡◌, sym, List, ◌++◌, length}

abbrev pub Bag {ℓ} : Type ℓ → Type ℓ
Bag A = Multiset A

module _ {ℓ} {A : Type ℓ} where
  infixl 65 ◌⊕◌
  pub bag : List A → Bag A
  bag xs = of_list xs

  pub ◌⊕◌ : Bag A → Bag A → Bag A
  s ⊕ t = add s t

-- `n` elements leave the end of one list, in their order, for the end of the other.
abbrev pub Moves {ℓ} : {A : Type ℓ} → List A → List A → List A → List A → ℕ → Type ℓ
Moves {A} from from' to to' n =
    (moved : List A) × (from ≡ from' ++ moved) × (to' ≡ to ++ moved) × (length moved ≡ n)

module _ {ℓ} {A : Type ℓ} where
  pub bag-append : (xs ys : List A) → bag (xs ++ ys) ≡ bag xs ⊕ bag ys
  unfolding bag ◌⊕◌
  bag-append xs ys = sym (coe-add xs ys)

  pub bag_comm : (s t : Bag A) → s ⊕ t ≡ t ⊕ s
  unfolding ◌⊕◌
  bag_comm s t = add_comm s t

  pub bag_assoc : (s t u : Bag A) → (s ⊕ t) ⊕ u ≡ s ⊕ (t ⊕ u)
  unfolding ◌⊕◌
  bag_assoc s t u = add_assoc s t u

  pub Moves-bag :
      (from from' to to' : List A) (n : ℕ)
      → Moves from from' to to' n
      → bag from' ⊕ bag to' ≡ bag from ⊕ bag to
  Moves-bag from from' to to' n (moved, e, e', _) = rw (
    e,
    e',
    bag-append from' moved,
    bag-append to moved,
    bag_assoc (bag from') (bag moved) (bag to),
    bag_comm (bag moved) (bag to),
  )
