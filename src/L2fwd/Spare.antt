-- ===== src/L2fwd/Spare.antt =====
-- examples/l2fwd-2link.rs: what the parts keep that take or give spare buffers, and the part that takes them from the
-- completion queue, in a build without overflow checks.
use afxdp_rs.Prelude.{ℕ, ◌+◌, ◌%◌, ◌^◌, ◌≡◌, false, arith}
use afxdp_rs.Rust.{value}
use afxdp_rs.Rust.Vec.{Vec}
use afxdp_rs.Rust.Fits.{add_wraps}
use afxdp_rs.Buf.Mmap.{BufMmap}
use afxdp_rs.Area.{MmapArea}
use afxdp_rs.Extern.Deque.{ArrayDeque}
use afxdp_rs.Extern.Sys.{Sys}
use afxdp_rs.L2fwd.{Link, BufCustom, buf_custom, service_part, service_batch_size}
use afxdp_rs.Queues.Umem.{service_kept}
use afxdp_rs.Queues.Count.{count, addr_of}
use afxdp_rs.L2fwd.Invariant.{IsLink, held_by, IsDeficit}
use afxdp_rs.Queues.Invariant.{Laws, IsSmallArea, IsSpare}

module _ {sys : Sys} {d : ArrayDeque (BufMmap BufCustom)} (l : Laws sys d) {a : MmapArea}
    (area : IsSmallArea a) where
  -- A part that works on one link and the spare buffers: both stay in order, and no address is lost or
  -- doubled.
  pub record Kept (own own' : Link sys d) (bufs bufs' : Vec (BufMmap BufCustom)) : Type 0 where
    pub link : IsLink l a own'
    pub spare : IsSpare a bufs'
    pub held :
        (x : ℕ)
        → held_by l x own' + count addr_of x bufs'.items
          ≡ held_by l x own + count addr_of x bufs.items
    pub deficit : IsDeficit l own → IsDeficit l own'

  pub service_part-Kept :
      (own : Link sys d) (bufs : Vec (BufMmap BufCustom))
      → IsLink l a own
      → IsSpare a bufs
      → (own' : Link sys d) × (bufs' : Vec (BufMmap BufCustom)) × (service_part sys false d own bufs
          ≡ value (own', bufs'))
        × Kept own own' bufs bufs'
  unfolding service_part
  service_part-Kept own bufs v s =
      let (n, cq, bufs', r, k) =
        service_kept l area buf_custom own.state.cq bufs service_batch_size v.cq s in
      let own' : Link sys d = record own {
        state = record (own.state) { cq = cq };
        stats = record (own.stats) { cq_bufs_received = (own.stats.cq_bufs_received + n) % 2 ^ 64 };
      } in
      (
        own',
        bufs',
        rw (r, add_wraps),
        record {
          link = record { cq = k.cq; fq = v.fq; rx = v.rx; tx = v.tx; pending = v.pending };
          spare = k.spare;
          held = λ x. omega (arith, k.held x);
          deficit = λ h. h;
        },
      )
