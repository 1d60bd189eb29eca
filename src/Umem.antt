-- ===== src/Umem.antt =====
-- src/umem.rs: the umem, its completion queue and its fill queue.
pub mod New
pub mod Service
pub mod Fill
use afxdp_rs.Prelude.{
  ℕ, zero, suc, ◌+◌, ◌-◌, ◌*◌, ◌%◌, ◌^◌, min, Bool, true, false, not, ◌||◌, Option, none, some,
  List, if◌then◌else◌, ◌==◌,
}
use afxdp_rs.Prelude.Int.{ℤ, is_zero}
use afxdp_rs.Util.{is_pow_of_two}
use afxdp_rs.Rust.{Outcome, value, todo, ◌>>=◌, unwrap_some, Result, ok, err, add, mul, sub, cast}
use afxdp_rs.Rust.Vec.{Vec, push, pop}
use afxdp_rs.Rust.Vec
use afxdp_rs.Buf.Mmap.{BufMmap}
use afxdp_rs.Area.{MmapArea, get_buf_num, get_buf_len, get_ptr, af_xdp_reserved, buf_at}
use afxdp_rs.Extern.Cons.{ConsRing}
use afxdp_rs.Extern.Prod.{ProdRing}
use afxdp_rs.Extern.Sys.{Sys, UmemConfig, Created}

pub record Umem : Type 0 where
  pub area : MmapArea
  -- the address of the `xsk_umem`
  pub umem : ℕ

pub record UmemCompletionQueue (c : ConsRing ℕ) : Type 0 where
  pub umem : Umem
  pub cq : c.Ring

pub record UmemFillQueue (p : ProdRing ℕ) : Type 0 where
  pub umem : Umem
  pub fq : p.Ring

pub data UmemNewError : Type 0 where
  create : ℕ → UmemNewError
  ring_not_power_of_two : UmemNewError

pub data UmemError : Type 0 where
  failed : UmemError

-- The configuration that `new` passes to libbpf. The frame size is truncated to 32 bits.
pub umem_config : Sys → MmapArea → ℕ → ℕ → UmemConfig
umem_config sys area completion_ring_size fill_ring_size = record {
  fill_size = fill_ring_size;
  comp_size = completion_ring_size;
  frame_size = cast 32 (get_buf_len area);
  frame_headroom = sys.default_frame_headroom;
  flags = 0;
}

module _ (sys : Sys) (checks : Bool) where
  -- `Umem::new`: the umem and its two queues, and the world after the call.
  unfoldable pub new :
      sys.World
      → MmapArea
      → ℕ
      → ℕ
      → Outcome (
          Result (Umem × UmemCompletionQueue sys.comp × UmemFillQueue sys.fill) UmemNewError
          × sys.World)
  unfolding umem_config
  new world area completion_ring_size fill_ring_size =
      if not (is_pow_of_two completion_ring_size) || not (is_pow_of_two fill_ring_size)
      then value (err ring_not_power_of_two, world)
      else do
        size ← mul checks 64 (get_buf_num area) (get_buf_len area)
        let made =
            sys.umem_create world (get_ptr area) size
              (umem_config sys area completion_ring_size fill_ring_size)
        if is_zero made.ret
            then value (finish made)
            else value (err (create (sys.errno made.world)), made.world)
    where
      finish :
          Created sys.World sys.comp.Ring sys.fill.Ring
          → Result (Umem × UmemCompletionQueue sys.comp × UmemFillQueue sys.fill) UmemNewError
            × sys.World
      finish made =
          let umem : Umem = record { area = area; umem = made.handle } in
          (
            ok (
              umem,
              record { umem = umem; cq = made.cons sys.comp.blank },
              record { umem = umem; fq = made.prod sys.fill.blank },
            ),
            made.world,
          )

-- `Drop for Umem`
unfoldable pub drop : (sys : Sys) → sys.World → Umem → sys.World
drop sys world u = sys.umem_delete world u.umem

module _ (c : ConsRing ℕ) (checks : Bool) {T : Type 0} (default : T) where
  -- `for _ in 0..ready`: the rounds left, and `idx`.
  pub service_loop : UmemCompletionQueue c → ℕ → ℕ → ℕ → Vec (BufMmap T) → Outcome (Vec (BufMmap T))
  service_loop q available zero idx bufs = value bufs
  service_loop q available (suc rounds) idx bufs = do
    let addr = c.entry q.cq idx
    idx' ← add checks 32 idx 1
    service_loop q available rounds idx'
        (push bufs (buf_at (get_ptr q.umem.area) addr available 0 default))

  -- `UmemCompletionQueue::service`: its result, the queue, and the caller's vector.
  pub service :
      UmemCompletionQueue c
      → Vec (BufMmap T)
      → ℕ
      → Outcome (Result ℕ UmemError × UmemCompletionQueue c × Vec (BufMmap T))
  service q bufs batch_size = do
    room ← sub checks 64 bufs.capacity (Vec.len bufs)
    let (ready, idx, cq) = c.peek q.cq (min room batch_size) 0
    if ready == 0 then value (ok 0, record q { cq = cq }, bufs) else do
      available ← sub checks 64 (get_buf_len q.umem.area) af_xdp_reserved
      bufs' ← service_loop (record q { cq = cq }) available ready idx bufs
      value (ok ready, record q { cq = c.release cq ready }, bufs')

module _ (p : ProdRing ℕ) (checks : Bool) {T : Type 0} where
  -- `for _ in 0..ready`: the rounds left, and `idx`.
  pub fill_loop : p.Ring → ℕ → ℕ → Vec (BufMmap T) → Outcome (p.Ring × Vec (BufMmap T))
  fill_loop fq zero idx bufs = value (fq, bufs)
  fill_loop fq (suc rounds) idx bufs = do
    b ← unwrap_some (pop bufs).0 todo
    idx' ← add checks 32 idx 1
    fill_loop (p.store fq idx b.addr) rounds idx' (pop bufs).1

  -- `UmemFillQueue::fill`: its result, the queue, and the caller's vector.
  pub fill :
      UmemFillQueue p
      → Vec (BufMmap T)
      → ℕ
      → Outcome (Result ℕ UmemError × UmemFillQueue p × Vec (BufMmap T))
  fill q bufs batch_size =
      let batch = min (Vec.len bufs) batch_size in
      if batch == 0 then value (ok 0, q, bufs) else do
        let (ready, idx, fq) = p.reserve q.fq batch 0
        (fq', bufs') ← fill_loop fq ready idx bufs
        value (ok ready, record q { fq = if ready == 0 then fq' else p.submit fq' ready }, bufs')

-- `UmemFillQueue::needs_wakeup`
unfoldable pub needs_wakeup : (p : ProdRing ℕ) → UmemFillQueue p → Bool
needs_wakeup p q = not (is_zero (p.needs_wakeup q.fq))
