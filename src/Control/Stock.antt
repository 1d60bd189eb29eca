-- ===== src/Control/Stock.antt =====
-- examples/l2fwd-2link-multicore.rs and examples/rxdrop.rs: the shared pool, from the area's buffers to the
-- workers.
use afxdp_rs.Prelude.{
  ℕ, ◌+◌, ◌-◌, ◌*◌, ◌≡◌, ◌≢◌, min, ap, sym, ◌∙◌, subst, false, Bool, List, arith, length,
  length-take, length-drop, drop, All-take, All-drop, bit_or, ==_of_eq,
}
use afxdp_rs.Rust.{value, ok}
use afxdp_rs.Rust.Vec.{Vec, IsVec, extend-IsVec}
use afxdp_rs.Rust.Vec
use afxdp_rs.Buf.Mmap.{BufMmap}
use afxdp_rs.Area.{MmapArea, map_flags}
use afxdp_rs.Area
use afxdp_rs.Area.New.{area_mapped}
use afxdp_rs.Extern.Deque.{ArrayDeque}
use afxdp_rs.Extern.Sys.{Sys}
use afxdp_rs.Pool.{get, put, new}
use afxdp_rs.Frames.{IsBuf, Frames-IsBuf}
use afxdp_rs.L2fwd.{BufCustom, buf_custom}
use afxdp_rs.L2fwd.Serves.{Serves}
use afxdp_rs.Queues.Count.{count, count-split, addr_of}
use afxdp_rs.Queues.Invariant.{Laws, IsSmallArea, IsSpare}
use afxdp_rs.Control.Shared.{
  BufferPool, Opt, area_options, start_bufs, stock_pool, take_bufs, make_stock,
}

module _ (a : MmapArea) where
  -- A worker has taken `bufs`, and the pool keeps the others.
  pub record Taken (bp bp' : BufferPool) (bufs : Vec (BufMmap BufCustom)) : Type 0 where
    pub spare : IsSpare a bufs
    pub rest : IsSpare a bp'.bufs
    pub taken : Vec.len bufs ≡ min start_bufs (Vec.len bp.bufs)
    pub left : Vec.len bp'.bufs + Vec.len bufs ≡ Vec.len bp.bufs
    pub held :
        (x : ℕ)
        → count addr_of x bufs.items + count addr_of x bp'.bufs.items
          ≡ count addr_of x bp.bufs.items

  pub take_bufs-Taken :
      (bp : BufferPool) → IsSpare a bp.bufs → Taken bp (take_bufs bp).1 (take_bufs bp).0
  unfolding take_bufs get
  take_bufs-Taken bp s =
      let items = bp.bufs.items in
      let start = Vec.len bp.bufs - min start_bufs (Vec.len bp.bufs) in
      let some_taken = length-drop start items in
      let some_left = length-take start items in
      record {
        spare = record {
          vec = extend-IsVec (Vec.with_capacity start_bufs) (drop start items) (omega arith);
          frames = All-drop (IsBuf a) start items s.frames;
        };
        rest = record {
          vec = omega (arith, some_left, s.vec);
          frames = All-take (IsBuf a) start items s.frames;
        };
        taken = omega (arith, some_taken);
        left = omega (arith, some_taken, some_left);
        held = λ x. omega (arith, count-split addr_of x start items);
      }

  stock_pool-value :
      (bufs : Vec (BufMmap BufCustom))
      → IsSpare a bufs
      → (bp : BufferPool) × (stock_pool bufs ≡ value bp)
        × IsSpare a bp.bufs
        × (bp.bufs.items ≡ bufs.items)
  unfolding stock_pool put new
  stock_pool-value bufs s =
      let n = Vec.len bufs in
      let all : n - min n n ≡ 0 = omega arith in
      let kept : drop (n - min n n) bufs.items ≡ bufs.items =
        ap (λ (k : ℕ). drop k bufs.items) all in
      let whole : min n n ≡ n = omega arith in
      (
        record { bufs = Vec.extend (Vec.with_capacity n) (drop (n - min n n) bufs.items) },
        rw (==_of_eq _ _ whole),
        record {
          vec = extend-IsVec (Vec.with_capacity n) (drop (n - min n n) bufs.items) (omega arith);
          frames = All-drop (IsBuf a) (n - min n n) bufs.items s.frames;
        },
        kept,
      )

module _ {sys : Sys} {d : ArrayDeque (BufMmap BufCustom)} (l : Laws sys d) {a : MmapArea}
    {setrlimit : sys.World → sys.World × Bool} (serves : Serves l a setrlimit) where
  -- The pool has all frames of the area.
  pub make_stock-value :
      (world : sys.World) (opt : Opt)
      → IsSmallArea a
      → opt.bufnum ≡ a.buf_num
      → opt.bufsize ≡ a.buf_len
      → (bp : BufferPool) × (world' : sys.World) × (make_stock sys false setrlimit world opt
          ≡ value (a, bp, world'))
        × IsSpare a bp.bufs
        × (Vec.len bp.bufs ≡ a.buf_num)
  unfolding make_stock
  make_stock-value world opt area num len =
      let w0 = (setrlimit world).0 in
      let map_ret = serves.mapped w0 _ _ _ in
      let (bufs, e, frames, full, room) =
        area_mapped buf_custom false sys w0 (area_options opt) a area.valid map_ret
          (subst (λ p. p ≢ sys.map_failed) (sym map_ret) serves.address) in
      let w1 =
        (sys.mmap w0 (a.buf_num * a.buf_len) (bit_or sys.prot_read sys.prot_write)
          (map_flags sys (area_options opt))).0 in
      let mapped : Area.new false buf_custom sys w0 opt.bufnum opt.bufsize (area_options opt)
          ≡ value (ok (a, bufs), w1) =
        rw (num, len) e in
      let (bp, stocked, spare, same) = stock_pool-value a bufs (record {
        vec = omega (arith, full, room);
        frames = Frames-IsBuf a buf_custom 0 bufs.items frames;
      }) in
      (
        bp,
        w1,
        rw (serves.limited world, mapped, stocked),
        spare,
        ap (λ (bs : List (BufMmap BufCustom)). length bs) same ∙ full,
      )
