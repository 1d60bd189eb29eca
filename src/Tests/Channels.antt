-- ===== src/Tests/Channels.antt =====
-- A queue between two threads as a list, cut at its capacity, and a clock that only sleeping moves.
use afxdp_rs.Prelude.{
  ℕ, ◌+◌, ◌*◌, ◌≡◌, refl, ap, true, false, List, [], ◌∷◌, ◌++◌, if◌then◌else◌, ltb, length, take,
  drop, arith, length-take, take_all, lt→ltb, Bool-cases, inl, inr,
}
use afxdp_rs.Extern.Channel.{Channel, ChannelLaws}
use afxdp_rs.Extern.Clock.{Clock, ClockLaws, second}
use afxdp_rs.Tests.Queue.{head, take_popped, take_pushed}

module _ (A : Type 0) where
  abbrev pub held : List A × ℕ → List A
  held (xs, capacity) = take capacity xs

  abbrev pub channel : Channel A
  channel = record {
    Queue = List A × ℕ;
    new = λ n. ([], n);
    push = λ q a.
        if ltb (length (held q)) q.1
        then (true, (held q ++ a ∷ [], q.1))
        else (false, (held q, q.1));
    pop = λ q. (head (held q), (drop 1 (held q), q.1));
  }

  pub not_room : (n : ℕ) (m : ℕ) → n ≡ m → ltb n m ≡ false
  not_room n m e = ground arith

  pub same_capacity : (q : List A × ℕ) (a : A) → (channel.push q a).1.1 ≡ q.1
  same_capacity q a = elim (Bool-cases (ltb (length (held q)) q.1)) [
    | inl room ↦ rw room
    | inr full ↦ rw full
  ]

  abbrev pub channel_laws : ChannelLaws channel
  channel_laws = record {
    items = held;
    capacity = λ q. q.1;
    new_items = λ n. take_all [] n (omega arith);
    new_capacity = λ n. refl;
    fits = λ q. omega (arith, length-take q.1 q.0);
    push_ok = λ q a h. rw (lt→ltb _ _ h);
    push_items = λ q a h. rw (lt→ltb _ _ h) (take_pushed q.1 q.0 a h);
    push_full_err = λ q a e. rw (not_room _ _ e);
    push_full_items = λ q a e. rw (not_room _ _ e) (take_all (held q) q.1 (omega (arith, e)));
    push_capacity = same_capacity;
    pop_none = λ q e. ap head e;
    pop_none_items = λ q e. rw e (take_all [] q.1 (omega arith));
    pop_some = λ q a rest e. ap head e;
    pop_some_items = λ q a rest e. take_popped q.1 q.0 a rest e;
    pop_capacity = λ q. refl;
  }

abbrev pub clock : Clock
clock = record { Time = ℕ; now = λ t. (t, t); sleep = λ s t. t + s * second }

abbrev pub clock_laws : ClockLaws clock
clock_laws = record {
  latest = λ t. t;
  now_later = λ t. omega arith;
  now_latest = λ t. refl;
  sleep_later = λ s t. omega arith;
}

-- A clock that each reading moves on.
abbrev pub moving : Clock
moving = record { Time = ℕ; now = λ t. (t + 1, t + 1); sleep = λ s t. t + s * second }

abbrev pub moving_laws : ClockLaws moving
moving_laws = record {
  latest = λ t. t;
  now_later = λ t. omega arith;
  now_latest = λ t. refl;
  sleep_later = λ s t. omega arith;
}
