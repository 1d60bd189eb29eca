-- ===== src/RxDrop/Kernel.antt =====
-- examples/rxdrop.rs: any number of rounds of a worker, with moves of the kernel between them, in a build without
-- overflow checks.
use afxdp_rs.Prelude.{
  ℕ, suc, ◌+◌, ◌≤◌, ◌≡◌, refl, ap, sym, ◌∙◌, subst, false, true, List, [], ◌∷◌, ◌++◌, All,
  All-append, replicate, arith,
}
use afxdp_rs.Rust.{value}
use afxdp_rs.Buf.Mmap.{BufMmap}
use afxdp_rs.Area.{MmapArea, af_xdp_reserved}
use afxdp_rs.Extern.Cons.{XdpDesc}
use afxdp_rs.Extern.Deque.{ArrayDeque}
use afxdp_rs.Extern.Sys.{Sys}
use afxdp_rs.Extern.Channel.{Channel, ChannelLaws}
use afxdp_rs.Frames.{IsFrameAddr, IsPacket}
use afxdp_rs.L2fwd.{BufCustom}
use afxdp_rs.Queues.Count.{count, count-append, itself, desc_addr}
use afxdp_rs.Queues.Invariant.{Laws, IsSmallArea}
use afxdp_rs.Control.{Command, exit, get_stats, Mailbox, run_worker}
use afxdp_rs.Control.Worker.{Serves, served, served-Serves, worker_leaves}
use afxdp_rs.RxDrop.{Worker, StatsMessage, serve, report}
use afxdp_rs.RxDrop.Serving.{IsWorker, Keeps, Keeps-trans, held, serve-Keeps}

module _ {sys : Sys} {d : ArrayDeque (BufMmap BufCustom)} (l : Laws sys d) where
  -- What the kernel may do to a worker's link between two rounds: it takes frames of the fill ring, the oldest
  -- first, and puts a packet in each into the receive ring.
  pub data Moved (a : MmapArea) (w : Worker sys d) : Worker sys d → Type 0 where
    still : Moved a w w
    receives :
        (v : Worker sys d) (fq : sys.fill.Ring) (rx : sys.rx.Ring) (e : XdpDesc) (rest : List ℕ)
        → Moved a w v
        → e.len + af_xdp_reserved ≤ a.buf_len
        → l.fill.sent v.state.fq.fq ≡ e.addr ∷ rest
        → l.fill.sent fq ≡ rest
        → l.fill.slots fq ≡ l.fill.slots v.state.fq.fq
        → l.rx.ready rx ≡ l.rx.ready v.state.rx.rx ++ e ∷ []
        → l.rx.held rx ≡ l.rx.held v.state.rx.rx
        → Moved a w (record v {
          state = record (v.state) {
            fq = record (v.state.fq) { fq = fq };
            rx = record (v.state.rx) { rx = rx };
          };
        })

  Moved-Keeps :
      (a : MmapArea) (w w' : Worker sys d) → IsWorker l a w → Moved a w w' → Keeps l a w w'
  Moved-Keeps a w _ v still = record { worker = v; core = refl; same = λ x. refl }
  Moved-Keeps a w _ v (receives u fq rx e rest moved short first left slots ready held) =
      let kept = Moved-Keeps a w u v moved in
      let k = kept.worker in
      let sent = subst (All (IsFrameAddr a)) first k.fq.sent in
      record {
        worker = record {
          fq = record {
            area = k.fq.area;
            submitted = slots ∙ k.fq.submitted;
            sent = subst (All (IsFrameAddr a)) (sym left) sent.1;
          };
          rx = record {
            area = k.rx.area;
            released = held ∙ k.rx.released;
            ready =
                subst (All (IsPacket a)) (sym ready)
                  (All-append (IsPacket a) _ (e ∷ []) k.rx.ready ((sent.0, short), tt));
          };
          pending = k.pending;
          spare = k.spare;
          deficit = k.deficit;
        };
        core = kept.core;
        same = λ x. omega (
          arith,
          kept.same x,
          ap (count itself x) first,
          ap (count itself x) left,
          ap (count desc_addr x) ready,
          count-append desc_addr x (l.rx.ready u.state.rx.rx) (e ∷ []),
        );
      }

  module _ {a : MmapArea} (area : IsSmallArea a) where
    round-Keeps : (w : Worker sys d) → Serves (Keeps l a w) (serve sys false d)
    round-Keeps w v kept =
        let (u, e, round) = serve-Keeps l area v kept.worker in
        (u, e, Keeps-trans l a w v u kept round)

    -- In a build without overflow checks and over an area of frames of at most 2^16 bytes, whatever the kernel
    -- moves between the rounds: a worker in order whose queue has `asked` requests of its counters and
    -- then `Exit` leaves its loop after that many rounds. It is in order then, and has every address
    -- exactly as often as when it began.
    pub drop_worker-Keeps :
        (cmd : Channel Command) (resp : Channel StatsMessage) (cl : ChannelLaws cmd)
        (kernel : Worker sys d → Worker sys d)
        → ((w : Worker sys d) → Moved a w (kernel w))
        → (asked fuel : ℕ) (m : Mailbox cmd resp) (w : Worker sys d) (rest : List Command)
        → cl.items m.commands ≡ replicate asked get_stats ++ exit ∷ rest
        → IsWorker l a w
        → (m' : Mailbox cmd resp) × (w' : Worker sys d) × (run_worker cmd resp
              (served (serve sys false d) kernel)
              (report sys d)
              (asked + suc fuel)
              m
              w
            ≡ value (true, m', w'))
          × Keeps l a w w'
    drop_worker-Keeps cmd resp cl kernel moves asked fuel m w rest e v =
        let (m', w', ran, kept, left) =
          worker_leaves cmd resp cl (Keeps l a w) (served (serve sys false d) kernel) (report sys d)
            (served-Serves (Keeps l a w) (serve sys false d) kernel (round-Keeps w) (λ u kept.
              Keeps-trans l a w u (kernel u) kept
                (Moved-Keeps a u (kernel u) kept.worker (moves u))))
            asked fuel m w rest e (record { worker = v; core = refl; same = λ x. refl }) in
        (m', w', ran, kept)
