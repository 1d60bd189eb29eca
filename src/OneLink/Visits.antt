-- ===== src/OneLink/Visits.antt =====
-- examples/l2fwd-1link.rs: "Receive" of a round visits the whole deque, also the packets that an earlier round has
-- visited and could not send.
use afxdp_rs.Prelude.{
  ℕ, ◌+◌, ◌%◌, ◌^◌, ◌≤◌, ◌<◌, ◌≡◌, ◌⊎◌, refl, ap, sym, ◌∙◌, subst, inl, inr, false, append-nil,
  All-split, List, [], ◌∷◌, ◌++◌, All, All-imp, arith, ltb, length, Bool-cases, if◌then◌else◌,
}
use afxdp_rs.Rust.{value, value_eq}
use afxdp_rs.Rust.Fits.{add_wraps}
use afxdp_rs.Memory.{Memory, load}
use afxdp_rs.Buf.Mmap.{BufMmap}
use afxdp_rs.Area.{MmapArea, af_xdp_reserved}
use afxdp_rs.Extern.Deque.{ArrayDeque}
use afxdp_rs.Extern.Sys.{Sys}
use afxdp_rs.Umem.{needs_wakeup}
use afxdp_rs.Socket.Rx.{wake}
use afxdp_rs.Frames.{IsBuf}
use afxdp_rs.L2fwd.{BufCustom, buf_custom}
use afxdp_rs.Queues.Invariant.{Laws, IsSmallArea}
use afxdp_rs.Queues.Socket.{recv_kept}
use afxdp_rs.OneLink.{Loop, receive_part}
use afxdp_rs.OneLink.Swap.{Clear, Exchanged, swap_macs-Exchanged}
use afxdp_rs.OneLink.Apart.{IsBuf-AreApart, IsBuf-long}
use afxdp_rs.OneLink.Kept.{IsLoop, Keeps, held, receive_part-Keeps}

append-none : (bs cs : List (BufMmap BufCustom)) → length cs ≡ 0 → bs ++ cs ≡ bs
append-none bs [] h = append-nil bs
append-none bs (c ∷ cs) h = absurd (omega arith)

-- The two addresses of a packet are the same in both memories.
abbrev pub Unwritten : Memory → Memory → BufMmap BufCustom → Type 0
Unwritten m m' b =
    (load m' b.bytes.ptr 6 ≡ load m b.bytes.ptr 6)
    × (load m' (b.bytes.ptr + 6) 6 ≡ load m (b.bytes.ptr + 6) 6)

Exchanged-twice :
    (m m₁ m₂ m₃ : Memory) (bs : List (BufMmap BufCustom))
    → All (Exchanged m m₁) bs
    → All (Unwritten m₁ m₂) bs
    → All (Exchanged m₂ m₃) bs
    → All (Unwritten m m₃) bs
Exchanged-twice m m₁ m₂ m₃ [] h k g = tt
Exchanged-twice m m₁ m₂ m₃ (b ∷ bs) h k g =
    ((g.0.0 ∙ k.0.1 ∙ h.0.1, g.0.1 ∙ k.0.0 ∙ h.0.0), Exchanged-twice m m₁ m₂ m₃ bs h.1 k.1 g.1)

module _ {sys : Sys} {d : ArrayDeque (BufMmap BufCustom)} (l : Laws sys d) where
  -- Every address is held once at most.
  abbrev pub Single : Loop sys d → Type 0
  Single s = (x : ℕ) → held l x s ≤ 1

  -- What "Receive" does to the deque and to the bytes of the packets.
  pub record Visited (s s' : Loop sys d) : Type 0 where
    pub new : List (BufMmap BufCustom)
    pub items : l.deque.items s'.v ≡ l.deque.items s.v ++ new
    pub swapped :
        ((length new ≡ 0) × (s'.memory ≡ s.memory))
        ⊎ ((0 < length new) × All (Exchanged s.memory s'.memory) (l.deque.items s'.v))
    pub others : (x : ℕ) → All (Clear x) (l.deque.items s'.v) → s'.memory x ≡ s.memory x

  module _ {a : MmapArea} (area : IsSmallArea a) (room : af_xdp_reserved + 12 ≤ a.buf_len)
      (batch_size : ℕ) where
    -- In a build without overflow checks, over an area of frames of at most 2^16 bytes with room for the two
    -- addresses of a packet, from a state in order that holds no address twice: "Receive" returns and appends
    -- the new packets to the deque. Where there are none, no byte changes. Where there are some, the two
    -- addresses of every packet in the deque are exchanged, of those that were there before as of the
    -- new ones, and no other byte changes.
    pub receive_part-Visited :
        (s : Loop sys d)
        → IsLoop l a s
        → Single s
        → (s' : Loop sys d) × (receive_part sys false d batch_size s ≡ value s') × Visited s s'
    unfolding receive_part
    receive_part-Visited s v once =
        let (n, rx, pending, r, k) =
          recv_kept l area s.state.rx s.v batch_size buf_custom v.rx v.pending in
        let apart =
          IsBuf-AreApart a room (l.deque.items pending) k.frames
            (λ x. omega (arith, once x, k.held x)) in
        let (memory, e, exchanged, same) =
          swap_macs-Exchanged s.memory (l.deque.items pending)
            (All-imp (IsBuf a) (λ b. 12 ≤ b.bytes.len) (IsBuf-long a room) (l.deque.items pending)
              k.frames)
            apart in
        elim (Bool-cases (ltb 0 n)) [
          | inl some_received ↦ (
            record s {
              state = record (s.state) { rx = rx; fq_deficit = (s.state.fq_deficit + n) % 2 ^ 64 };
              stats = record (s.stats) { rx_packets = (s.stats.rx_packets + n) % 2 ^ 64 };
              v = pending;
              memory = memory;
            },
            rw (
              r,
              some_received,
              add_wraps s.stats.rx_packets n,
              l.deque.iter_lem pending,
              e,
              add_wraps s.state.fq_deficit n,
            ),
            record {
              new = k.new;
              items = k.items;
              swapped = inr (ground (arith, k.size, some_received), exchanged);
              others = same;
            },
          )
          | inr none_received ↦ (
            record s {
              state = record (s.state) { rx = rx };
              v = pending;
              world = if needs_wakeup sys.fill s.state.fq then wake sys s.world rx else s.world;
            },
            rw (r, none_received),
            record {
              new = k.new;
              items = k.items;
              swapped = inl (ground (arith, k.size, none_received), refl);
              others = λ x clear. refl;
            },
          )
        ]

    -- In a build without overflow checks, over an area of frames of at most 2^16 bytes with room for the two
    -- addresses of a packet, from a state in order that holds no address twice, "Receive" is called twice. What
    -- happens between the calls keeps any state in order and every address as often held, writes in the
    -- area only, takes nothing from the deque and adds nothing to it, and does not write to the addresses
    -- of the packets in it. Both calls return, and unless one of them leaves the deque as it was, every
    -- packet that was in the deque after the first call, and so was visited twice, has its two addresses
    -- as they were before the first.
    pub received_twice :
        (between : Loop sys d → Loop sys d)
        → ((v : Loop sys d)
            → IsLoop l a v
            → Keeps l a v (between v)
              × (l.deque.items (between v).v ≡ l.deque.items v.v)
              × All (Unwritten v.memory (between v).memory) (l.deque.items v.v))
        → (s : Loop sys d) → IsLoop l a s
        → Single s
        → (s' : Loop sys d) × (u : Loop sys d) × (receive_part sys false d batch_size s ≡ value s')
          × (receive_part sys false d batch_size (between s') ≡ value u)
          × ((l.deque.items s'.v ≡ l.deque.items s.v)
              ⊎ (l.deque.items u.v ≡ l.deque.items s'.v)
              ⊎ All (Unwritten s.memory u.memory) (l.deque.items s'.v))
    received_twice between stays s v once =
        let (s₁, e₁, kept) = receive_part-Keeps l area batch_size s room v in
        let (s', e, visited) = receive_part-Visited s v once in
        let at : s₁ ≡ s' = value_eq (sym e₁ ∙ e) in
        let after = subst (Keeps l a s) at kept in
        let (again, items, unwritten) = stays s' after.loop in
        let single : Single (between s') = λ x. omega (arith, once x, after.same x, again.same x) in
        let (u, e', visited') = receive_part-Visited (between s') again.loop single in
        (
          s',
          u,
          e,
          e',
          elim (swapped s s' visited) [
            | inl none ↦ inl none
            | inr first ↦ elim (swapped (between s') u visited') [
              | inl none ↦ inr (inl (none ∙ items))
              | inr second ↦
                  let all =
                    subst (All (Exchanged (between s').memory u.memory))
                      (visited'.items ∙ ap (λ bs. bs ++ visited'.new) items) second in
                  let old = (All-split _ (l.deque.items s'.v) visited'.new all).0 in
                  inr (
                    inr (
                      Exchanged-twice s.memory s'.memory (between s').memory u.memory
                        (l.deque.items s'.v) first unwritten old))
            ]
          ],
        )
      where
        swapped :
            (t t' : Loop sys d)
            → Visited t t'
            → (l.deque.items t'.v ≡ l.deque.items t.v)
              ⊎ All (Exchanged t.memory t'.memory) (l.deque.items t'.v)
        swapped t t' visited = elim (visited.swapped) [
          | inl none ↦ inl (visited.items ∙ append-none (l.deque.items t.v) visited.new none.0)
          | inr received ↦ inr (received.1)
        ]
