-- ===== src/Tests/Queue.antt =====
-- A deque as a list, cut at its capacity.
use afxdp_rs.Prelude.{
  ◌==◌, ℕ, ◌<◌, ◌≡◌, refl, ap, Option, none, some, List, [], ◌∷◌, ◌++◌, if◌then◌else◌, ltb, length,
  take, drop, arith, length-take, length-append, take_all, lt→ltb,
}
use afxdp_rs.Extern.Deque.{ArrayDeque, DequeLaws, pending_len}

module _ {A : Type 0} where
  abbrev pub held : List A → List A
  held xs = take pending_len xs

  abbrev pub head : List A → Option A
  head [] = none
  head (x ∷ xs) = some x

  pub take_popped :
      (m : ℕ) (xs : List A) (a : A) (rest : List A)
      → take m xs ≡ a ∷ rest
      → take m (drop 1 (take m xs)) ≡ rest
  take_popped m xs a rest e = rw e (take_all rest m (omega (arith, ap length e, length-take m xs)))

  pub take_pushed :
      (m : ℕ) (xs : List A) (a : A)
      → length (take m xs) < m
      → take m (take m xs ++ a ∷ []) ≡ take m xs ++ a ∷ []
  take_pushed m xs a h =
      take_all (take m xs ++ a ∷ []) m (omega (arith, length-append (take m xs) (a ∷ [])))

  abbrev pub queue : ArrayDeque A
  queue = record {
    Deque = List A;
    new = [];
    capacity = λ xs. pending_len;
    len = λ xs. length (held xs);
    is_empty = λ xs. length (held xs) == 0;
    iter = held;
    push_back = λ xs a.
        if ltb (length (held xs)) pending_len
        then (none, held xs ++ a ∷ [])
        else (head (held xs), drop 1 (held xs) ++ a ∷ []);
    pop_front = λ xs. (head (held xs), drop 1 (held xs));
    drain_all = λ xs. (held xs, []);
  }

  abbrev pub queue_laws : DequeLaws queue
  queue_laws = record {
    items = held;
    new_items = refl;
    capacity_lem = λ xs. refl;
    len_lem = λ xs. refl;
    iter_lem = λ xs. refl;
    is_empty_lem = λ xs. refl;
    fits = λ xs. omega (arith, length-take pending_len xs);
    push_back_none = λ xs a h. rw (lt→ltb _ _ h);
    push_back_items = λ xs a h. rw (lt→ltb _ _ h) (take_pushed pending_len xs a h);
    pop_front_some = λ xs a rest e. ap head e;
    pop_front_items = λ xs a rest e. take_popped pending_len xs a rest e;
    drain_all_lem = λ xs. refl;
    drain_all_items = λ xs. refl;
  }
