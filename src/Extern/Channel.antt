-- ===== src/Extern/Channel.antt =====
-- `rtrb::RingBuffer<A>`, a queue of a fixed capacity between two threads.
use afxdp_rs.Prelude.{
  ℕ, ◌<◌, ◌≤◌, ◌≡◌, Bool, true, false, Option, none, some, List, [], ◌∷◌, ◌++◌, length,
}

pub record Channel (A : Type 0) : Type 1 where
  pub Queue : Type 0
  -- `RingBuffer::new(capacity)`
  pub new : ℕ → Queue
  -- `producer.push(a)`: whether it is `Ok`, and the queue
  pub push : Queue → A → Bool × Queue
  -- `consumer.pop()`: `none` is `Err(PopError::Empty)`
  pub pop : Queue → Option A × Queue

-- `items`: what was pushed and not yet popped, oldest first.
pub record ChannelLaws {A : Type 0} (c : Channel A) : Type 0 where
  pub items : c.Queue → List A
  pub capacity : c.Queue → ℕ
  pub new_items : (n : ℕ) → items (c.new n) ≡ []
  pub new_capacity : (n : ℕ) → capacity (c.new n) ≡ n
  pub fits : (q : c.Queue) → length (items q) ≤ capacity q
  pub push_ok : (q : c.Queue) (a : A) → length (items q) < capacity q → (c.push q a).0 ≡ true
  pub push_items :
      (q : c.Queue) (a : A)
      → length (items q) < capacity q
      → items (c.push q a).1 ≡ items q ++ a ∷ []
  pub push_full_err : (q : c.Queue) (a : A) → length (items q) ≡ capacity q → (c.push q a).0 ≡ false
  pub push_full_items :
      (q : c.Queue) (a : A) → length (items q) ≡ capacity q → items (c.push q a).1 ≡ items q
  pub push_capacity : (q : c.Queue) (a : A) → capacity (c.push q a).1 ≡ capacity q
  pub pop_none : (q : c.Queue) → items q ≡ [] → (c.pop q).0 ≡ none
  pub pop_none_items : (q : c.Queue) → items q ≡ [] → items (c.pop q).1 ≡ []
  pub pop_some : (q : c.Queue) (a : A) (rest : List A) → items q ≡ a ∷ rest → (c.pop q).0 ≡ some a
  pub pop_some_items :
      (q : c.Queue) (a : A) (rest : List A) → items q ≡ a ∷ rest → items (c.pop q).1 ≡ rest
  pub pop_capacity : (q : c.Queue) → capacity (c.pop q).1 ≡ capacity q
