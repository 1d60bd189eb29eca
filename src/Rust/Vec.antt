-- ===== src/Rust/Vec.antt =====
-- `Vec<T>`: its elements, and the number that fit before it allocates again.
use afxdp_rs.Prelude.{
  ℕ, ◌+◌, ◌*◌, ◌≤◌, ◌<◌, ◌≡◌, refl, arith, max, List, [], ◌∷◌, ◌++◌, Option, none, some,
  if◌then◌else◌, leb, length, length-append, append-nil, append_assoc, sym, ◌∙◌, take, drop,
}

pub record Vec (A : Type 0) : Type 0 where
  pub items : List A
  pub capacity : ℕ

module _ {A : Type 0} where
  abbrev pub with_capacity : ℕ → Vec A
  with_capacity n = record { items = []; capacity = n }

  abbrev pub len : Vec A → ℕ
  len v = length v.items

  -- Amortised growth to hold `more` elements beyond the present ones.
  abbrev pub reserve : Vec A → ℕ → ℕ
  reserve v more =
      if leb (len v + more) v.capacity
      then v.capacity
      else max 4 (max (2 * v.capacity) (len v + more))

  abbrev pub extend : Vec A → List A → Vec A
  extend v xs = record { items = v.items ++ xs; capacity = reserve v (length xs) }

  abbrev pub push : Vec A → A → Vec A
  push v x = extend v (x ∷ [])

  -- `for x in xs { v.push(x); }`
  pub push_all : Vec A → List A → Vec A
  push_all v [] = v
  push_all v (x ∷ xs) = push_all (push v x) xs

  -- `drain(start..)`: what is taken out, and what stays.
  abbrev pub drain_from : ℕ → Vec A → List A × Vec A
  drain_from start v = (drop start v.items, record v { items = take start v.items })

  -- All elements but the last, and the last.
  abbrev pub split_last : List A → Option (List A × A)
  split_last [] = none
  split_last (x ∷ []) = some ([], x)
  split_last (x ∷ y ∷ ys) = elim (split_last (y ∷ ys)) [
    | none ↦ none
    | some (front, last) ↦ some (x ∷ front, last)
  ]

  pub pop : Vec A → Option A × Vec A
  pop v = elim (split_last v.items) [
    | none ↦ (none, v)
    | some (front, last) ↦ (some last, record v { items = front })
  ]

  -- What the type keeps: the elements lie within the allocation.
  abbrev pub IsVec : Vec A → Type 0
  IsVec v = len v ≤ v.capacity

  -- With room left, a push does not allocate.
  pub push_room :
      (v : Vec A) (x : A)
      → len v < v.capacity
      → push v x ≡ record { items = v.items ++ x ∷ []; capacity = v.capacity }
  push_room v x h = ground arith

  pub split_last-append : (xs : List A) (x : A) → split_last (xs ++ x ∷ []) ≡ some (xs, x)
  split_last-append [] x = refl
  split_last-append (y ∷ []) x = refl
  split_last-append (y ∷ z ∷ ys) x = rw (split_last-append (z ∷ ys) x, split_last)

  -- `pop` takes what stands at the end.
  pub pop-append :
      (xs : List A) (x : A) (n : ℕ)
      → pop (record { items = xs ++ x ∷ []; capacity = n })
        ≡ (some x, record { items = xs; capacity = n })
  unfolding pop
  pop-append xs x n = rw (split_last-append xs x, pop)

  -- A vector has room for what it has been extended with.
  pub extend-IsVec : (v : Vec A) (xs : List A) → IsVec v → IsVec (extend v xs)
  extend-IsVec v xs h = ground (arith, length-append v.items xs)

  pub push_all-items :
      (v : Vec A) (xs : List A)
      → IsVec v
      → ((push_all v xs).items ≡ v.items ++ xs) × IsVec (push_all v xs)
  unfolding push_all
  push_all-items v [] h = (sym (append-nil v.items), h)
  push_all-items v (x ∷ xs) h =
      let (items, room) = push_all-items (push v x) xs (extend-IsVec v (x ∷ []) h) in
      (items ∙ append_assoc v.items (x ∷ []) xs, room)
