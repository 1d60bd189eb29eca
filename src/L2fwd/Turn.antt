-- ===== src/L2fwd/Turn.antt =====
-- examples/l2fwd-2link.rs: a whole round of the loop, and any number of rounds with the kernel's moves
-- between them, in a build without overflow checks.
use afxdp_rs.Prelude.{ℕ, ◌+◌, ◌%◌, ◌≡◌, refl, inl, inr, false, arith, ◌==◌, Bool-cases}
use afxdp_rs.Rust.{value}
use afxdp_rs.Rust.Vec.{Vec}
use afxdp_rs.Buf.Mmap.{BufMmap}
use afxdp_rs.Area.{MmapArea}
use afxdp_rs.Extern.Deque.{ArrayDeque}
use afxdp_rs.Extern.Sys.{Sys}
use afxdp_rs.L2fwd.{Link, Forwarder, BufCustom, turn, round}
use afxdp_rs.Queues.Count.{count, addr_of}
use afxdp_rs.L2fwd.Invariant.{IsLink, IsForwarder, held_by, held, IsDeficit}
use afxdp_rs.Queues.Invariant.{Works, Laws, IsSmallArea, IsSpare}
use afxdp_rs.L2fwd.Spare.{service_part-Kept}
use afxdp_rs.L2fwd.Refill.{fill_part-Kept}
use afxdp_rs.L2fwd.Receive.{receive_part-KeptLink}
use afxdp_rs.L2fwd.Forward.{forward_part-KeptPair}

module _ {sys : Sys} {d : ArrayDeque (BufMmap BufCustom)} (l : Laws sys d) where
  -- What a turn of one link keeps.
  pub record Turned (a : MmapArea) (own own' other other' : Link sys d)
      (bufs bufs' : Vec (BufMmap BufCustom)) : Type 0 where
    pub own_link : IsLink l a own'
    pub other_link : IsLink l a other'
    pub spare : IsSpare a bufs'
    pub held :
        (x : ℕ)
        → held_by l x own' + held_by l x other' + count addr_of x bufs'.items
          ≡ held_by l x own + held_by l x other + count addr_of x bufs.items
    pub own_deficit : IsDeficit l own → IsDeficit l own'
    pub other_deficit : IsDeficit l other → IsDeficit l other'

  module _ {a : MmapArea} (area : IsSmallArea a) (works : Works sys) where
    pub turn-Turned :
        (world : sys.World) (own other : Link sys d) (bufs : Vec (BufMmap BufCustom))
        → IsLink l a own
        → IsLink l a other
        → IsSpare a bufs
        → (own' : Link sys d) × (other' : Link sys d) × (bufs' : Vec (BufMmap BufCustom))
          × (world' : sys.World) × (turn sys false d world own other bufs
              ≡ value (own', other', bufs', world'))
          × Turned a own own' other other' bufs bufs'
    unfolding turn
    turn-Turned world own other bufs v w s =
        let (own₁, bufs₁, e₁, k₁) = service_part-Kept l area own bufs v s in
        let (own₂, world₁, e₂, k₂) = receive_part-KeptLink l area world own₁ k₁.link in
        let (own₃, other₁, world₂, e₃, k₃) =
          forward_part-KeptPair l area world₁ own₂ other works k₂.link w in
        let (own₄, bufs₂, e₄, k₄) = fill_part-Kept l area own₃ bufs₁ k₃.own_link k₁.spare in
        (
          own₄,
          other₁,
          bufs₂,
          world₂,
          rw (e₁, e₂, e₃, e₄),
          record {
            own_link = k₄.link;
            other_link = k₃.other_link;
            spare = k₄.spare;
            held = λ x. omega (arith, k₁.held x, k₂.held x, k₃.held x, k₄.held x);
            own_deficit = λ h. k₄.deficit (k₃.own_deficit (k₂.deficit (k₁.deficit h)));
            other_deficit = k₃.other_deficit;
          },
        )

    -- In a build without overflow checks, over an area of frames of at most 2^16 bytes and with a `sendto`
    -- that works or fails as it may, a round of the loop never panics: it returns with every queue, deque and
    -- the spare buffers in order again, the turn passed to the other link, each link's deficit right if it
    -- was, and every address held exactly as often as before, so that no frame is lost and none gets a second
    -- owner.
    pub round-IsForwarder :
        (f : Forwarder sys d)
        → IsForwarder l a f
        → (f' : Forwarder sys d) × (round sys false d f ≡ value f')
          × IsForwarder l a f'
          × (f'.pos ≡ (f.pos + 1) % 2)
          × (IsDeficit l f.first × IsDeficit l f.second
              → IsDeficit l f'.first × IsDeficit l f'.second)
          × ((x : ℕ) → held l x f' ≡ held l x f)
    unfolding round
    round-IsForwarder f v = elim (Bool-cases (f.pos == 0)) [
      | inl at_first ↦
          let (own, other, bufs, world, e, t) =
            turn-Turned f.world f.first f.second f.bufs v.first v.second v.spare in
          (
            record {
              first = own;
              second = other;
              bufs = bufs;
              pos = (f.pos + 1) % 2;
              world = world;
            },
            rw (at_first, e),
            record { first = t.own_link; second = t.other_link; spare = t.spare },
            refl,
            λ h. (t.own_deficit h.0, t.other_deficit h.1),
            t.held,
          )
      | inr at_second ↦
          let (own, other, bufs, world, e, t) =
            turn-Turned f.world f.second f.first f.bufs v.second v.first v.spare in
          (
            record {
              first = other;
              second = own;
              bufs = bufs;
              pos = (f.pos + 1) % 2;
              world = world;
            },
            rw (at_second, e),
            record { first = t.other_link; second = t.own_link; spare = t.spare },
            refl,
            λ h. (t.other_deficit h.0, t.own_deficit h.1),
            λ x. omega (arith, t.held x),
          )
    ]
