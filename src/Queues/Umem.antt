-- ===== src/Queues/Umem.antt =====
-- src/umem.rs: each call of a queue keeps its queue and the caller's buffers in order, and neither loses nor
-- doubles an address, in a build without overflow checks.
use mathlib.Core.List.{reverse}
use afxdp_rs.Prelude.{
  ℕ, ◌+◌, ◌-◌, ◌≤◌, ◌≡◌, min, refl, ap, sym, ◌∙◌, subst, inl, false, map, take, All, arith, length,
  length-append, length-map, length-take, length-reverse,
}
use afxdp_rs.Rust.{value, ok}
use afxdp_rs.Rust.Vec.{Vec, IsVec}
use afxdp_rs.Rust.Vec
use afxdp_rs.Buf.Mmap.{BufMmap}
use afxdp_rs.Area.{MmapArea, get_buf_len, af_xdp_reserved}
use afxdp_rs.Area.Layout.{IsArea}
use afxdp_rs.Extern.Deque.{ArrayDeque}
use afxdp_rs.Extern.Sys.{Sys}
use afxdp_rs.Umem.{UmemCompletionQueue, UmemFillQueue, service, fill}
use afxdp_rs.Umem.Service.{service-Serviced, completed}
use afxdp_rs.Umem.Fill.{fill-Filled}
use afxdp_rs.Frames.{IsFrameAddr, IsBuf, Serviced-IsBuf, Filled-IsBuf}
use afxdp_rs.Queues.Count.{count, addr_of, itself, Serviced-count, Filled-count}
use afxdp_rs.Queues.Invariant.{Laws, IsSmallArea, IsCq, IsFq, IsSpare}

module _ {sys : Sys} {T : Type 0} {d : ArrayDeque (BufMmap T)} (l : Laws sys d) {a : MmapArea}
    (area : IsSmallArea a) where
  pub room_at : (b : MmapArea) → b ≡ a → af_xdp_reserved ≤ b.buf_len
  room_at b e = subst (λ c. af_xdp_reserved ≤ c.buf_len) (sym e) area.valid.room

  pub record ServiceKept (q q' : UmemCompletionQueue sys.comp) (bufs bufs' : Vec (BufMmap T))
      : Type 0 where
    pub cq : IsCq l a q'
    pub spare : IsSpare a bufs'
    pub held :
        (x : ℕ)
        → count addr_of x bufs'.items + count itself x (l.comp.ready q'.cq)
          ≡ count addr_of x bufs.items + count itself x (l.comp.ready q.cq)

  pub service_kept :
      (default : T) (q : UmemCompletionQueue sys.comp) (bufs : Vec (BufMmap T)) (batch_size : ℕ)
      → IsCq l a q
      → IsSpare a bufs
      → (n : ℕ) × (q' : UmemCompletionQueue sys.comp) × (bufs' : Vec (BufMmap T)) × (service
            sys.comp false default q bufs batch_size
          ≡ value (ok n, q', bufs'))
        × ServiceKept q q' bufs bufs'
  unfolding get_buf_len
  service_kept default q bufs batch_size v s =
      let (q', bufs', r, done, le) =
        service-Serviced sys.comp default false l.comp q bufs batch_size s.vec
          (room_at q.umem.area v.area) v.released (inl refl) in
      let (frames, ready) =
        subst
          (λ b.
            IsArea b
            → All (IsFrameAddr b) (l.comp.ready q.cq)
            → All (IsBuf b) bufs.items
            → All (IsBuf b) bufs'.items × All (IsFrameAddr b) (l.comp.ready q'.cq))
          v.area (Serviced-IsBuf sys.comp default l.comp q q' bufs bufs' _ done) area.valid v.ready
          s.frames in
      let n = (sys.comp.peek q.cq (min (bufs.capacity - Vec.len bufs) batch_size) 0).0 in
      let made = completed sys.comp default q in
      (
        n,
        q',
        bufs',
        r,
        record {
          cq = record {
            area = ap (λ u. u.area) done.umem ∙ v.area;
            released = done.released;
            ready = ready;
          };
          spare = record {
            vec = omega (
              arith,
              s.vec,
              le,
              done.capacity,
              ap length done.items,
              length-append bufs.items (map made (take n (l.comp.ready q.cq))),
              length-map (take n (l.comp.ready q.cq)) made,
              length-take n (l.comp.ready q.cq),
            );
            frames = frames;
          };
          held = λ x. Serviced-count x sys.comp default l.comp q q' bufs bufs' _ done;
        },
      )

  pub record FillKept (q q' : UmemFillQueue sys.fill) (bufs bufs' : Vec (BufMmap T)) (n : ℕ)
      : Type 0 where
    pub fq : IsFq l a q'
    pub spare : IsSpare a bufs'
    pub size : Vec.len bufs' + n ≡ Vec.len bufs
    pub held :
        (x : ℕ)
        → count addr_of x bufs'.items + count itself x (l.fill.sent q'.fq)
          ≡ count addr_of x bufs.items + count itself x (l.fill.sent q.fq)

  pub fill_kept :
      (q : UmemFillQueue sys.fill) (bufs : Vec (BufMmap T)) (num : ℕ)
      → IsFq l a q
      → IsSpare a bufs
      → (n : ℕ) × (q' : UmemFillQueue sys.fill) × (bufs' : Vec (BufMmap T)) × (fill sys.fill false q
            bufs num
          ≡ value (ok n, q', bufs'))
        × (n ≡ (sys.fill.reserve q.fq (min (Vec.len bufs) num) 0).0)
        × (n ≤ num)
        × FillKept q q' bufs bufs' n
  fill_kept q bufs num v s =
      let (q', bufs', r, done, le) =
        fill-Filled sys.fill false l.fill q bufs num v.submitted (inl refl) in
      let (frames, sent) =
        subst
          (λ b.
            All (IsBuf b) bufs.items
            → All (IsFrameAddr b) (l.fill.sent q.fq)
            → All (IsBuf b) bufs'.items × All (IsFrameAddr b) (l.fill.sent q'.fq))
          v.area (Filled-IsBuf l.fill q q' bufs bufs' _ done) s.frames v.sent in
      let n = (sys.fill.reserve q.fq (min (Vec.len bufs) num) 0).0 in
      let size : Vec.len bufs' + n ≡ Vec.len bufs = omega (
        arith,
        done.count,
        ap length done.items,
        length-append bufs'.items (reverse done.outs),
        length-reverse done.outs,
      ) in
      (
        n,
        q',
        bufs',
        r,
        refl,
        omega (arith, le),
        record {
          fq = record {
            area = ap (λ u. u.area) done.umem ∙ v.area;
            submitted = done.submitted;
            sent = sent;
          };
          spare = record { vec = omega (arith, s.vec, size, done.capacity); frames = frames };
          size = size;
          held = λ x. Filled-count x l.fill q q' bufs bufs' _ done;
        },
      )
