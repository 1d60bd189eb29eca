-- ===== src/Extern/Deque.antt =====
-- `ArrayDeque<[A; PENDING_LEN], Wrapping>` of the crate arraydeque.
use afxdp_rs.Prelude.{ℕ, ◌≤◌, ◌<◌, ◌≡◌, Bool, ◌==◌, Option, none, some, List, [], ◌∷◌, ◌++◌, length}

-- `PENDING_LEN` of src/lib.rs
abbrev pub pending_len : ℕ
pending_len = 4096

pub record ArrayDeque (A : Type 0) : Type 1 where
  pub Deque : Type 0
  pub new : Deque
  pub capacity : Deque → ℕ
  pub len : Deque → ℕ
  pub is_empty : Deque → Bool
  -- what `for a in deque` visits, in order
  pub iter : Deque → List A
  -- A full deque drops its front to make room, and returns it.
  pub push_back : Deque → A → Option A × Deque
  pub pop_front : Deque → Option A × Deque
  -- `drain(0..)`, whose items are all taken
  pub drain_all : Deque → List A × Deque

-- `items`: the elements, front first.
pub record DequeLaws {A : Type 0} (q : ArrayDeque A) : Type 0 where
  pub items : q.Deque → List A
  pub new_items : items q.new ≡ []
  pub capacity_lem : (d : q.Deque) → q.capacity d ≡ pending_len
  pub len_lem : (d : q.Deque) → q.len d ≡ length (items d)
  pub iter_lem : (d : q.Deque) → q.iter d ≡ items d
  pub is_empty_lem : (d : q.Deque) → q.is_empty d ≡ (length (items d) == 0)
  pub fits : (d : q.Deque) → length (items d) ≤ pending_len
  pub push_back_none :
      (d : q.Deque) (a : A) → length (items d) < pending_len → (q.push_back d a).0 ≡ none
  pub push_back_items :
      (d : q.Deque) (a : A)
      → length (items d) < pending_len
      → items (q.push_back d a).1 ≡ items d ++ a ∷ []
  pub pop_front_some :
      (d : q.Deque) (a : A) (rest : List A) → items d ≡ a ∷ rest → (q.pop_front d).0 ≡ some a
  pub pop_front_items :
      (d : q.Deque) (a : A) (rest : List A) → items d ≡ a ∷ rest → items (q.pop_front d).1 ≡ rest
  pub drain_all_lem : (d : q.Deque) → (q.drain_all d).0 ≡ items d
  pub drain_all_items : (d : q.Deque) → items (q.drain_all d).1 ≡ []
