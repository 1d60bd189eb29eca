-- ===== src/Multicore/Serving.antt =====
-- examples/l2fwd-2link-multicore.rs: what the loop of a worker keeps, in a build without overflow checks.
use afxdp_rs.Prelude.{
  ℕ, ◌+◌, ◌≡◌, refl, ◌∙◌, false, true, List, [], ◌∷◌, ◌++◌, replicate, arith, suc,
}
use afxdp_rs.Rust.{value}
use afxdp_rs.Buf.Mmap.{BufMmap}
use afxdp_rs.Area.{MmapArea}
use afxdp_rs.Extern.Deque.{ArrayDeque}
use afxdp_rs.Extern.Sys.{Sys}
use afxdp_rs.Extern.Channel.{Channel, ChannelLaws}
use afxdp_rs.L2fwd.{Link, BufCustom}
use afxdp_rs.L2fwd.Invariant.{IsLink, held_by, IsDeficit}
use afxdp_rs.L2fwd.Turn.{turn-Turned}
use afxdp_rs.L2fwd.Kernel.{KernelMove, move-IsLink, move-held_by, move-IsDeficit}
use afxdp_rs.Queues.Count.{count, addr_of}
use afxdp_rs.Queues.Invariant.{Works, Laws, IsSmallArea, IsSpare}
use afxdp_rs.Control.{Command, exit, get_stats, Mailbox, run_worker}
use afxdp_rs.Control.Worker.{Serves, served, served-Serves, worker_leaves}
use afxdp_rs.Multicore.{Worker, StatsMessage, serve, report}

module _ {sys : Sys} {d : ArrayDeque (BufMmap BufCustom)} (l : Laws sys d) where
  pub record IsWorker (a : MmapArea) (w : Worker sys d) : Type 0 where
    pub first : IsLink l a w.first
    pub second : IsLink l a w.second
    pub spare : IsSpare a w.bufs
    pub deficits : IsDeficit l w.first × IsDeficit l w.second

  -- How often a worker has the address `x`.
  abbrev pub held : ℕ → Worker sys d → ℕ
  held x w = held_by l x w.first + held_by l x w.second + count addr_of x w.bufs.items

  -- What several workers have together.
  abbrev pub held_all : ℕ → List (Worker sys d) → ℕ
  held_all x [] = 0
  held_all x (w ∷ ws) = held x w + held_all x ws

  -- What the kernel may do to a worker's links between two rounds.
  pub data Moved (a : MmapArea) (w : Worker sys d) : Worker sys d → Type 0 where
    still : Moved a w w
    moves_first :
        (v : Worker sys d) (k : Link sys d)
        → Moved a w v
        → KernelMove l a v.first k
        → Moved a w (record v { first = k })
    moves_second :
        (v : Worker sys d) (k : Link sys d)
        → Moved a w v
        → KernelMove l a v.second k
        → Moved a w (record v { second = k })

  -- What a worker is and has does not change.
  pub record Keeps (a : MmapArea) (w w' : Worker sys d) : Type 0 where
    pub worker : IsWorker a w'
    pub core : w'.core ≡ w.core
    pub same : (x : ℕ) → held x w' ≡ held x w

  Moved-Keeps : (a : MmapArea) (w w' : Worker sys d) → IsWorker a w → Moved a w w' → Keeps a w w'
  Moved-Keeps a w _ v still = record { worker = v; core = refl; same = λ x. refl }
  Moved-Keeps a w _ v (moves_first u k moved move) =
      let kept = Moved-Keeps a w u v moved in
      record {
        worker = record {
          first = move-IsLink l a u.first k move kept.worker.first;
          second = kept.worker.second;
          spare = kept.worker.spare;
          deficits =
              (move-IsDeficit l a u.first k move kept.worker.deficits.0, kept.worker.deficits.1);
        };
        core = kept.core;
        same = λ x. omega (arith, move-held_by l a u.first k x move, kept.same x);
      }
  Moved-Keeps a w _ v (moves_second u k moved move) =
      let kept = Moved-Keeps a w u v moved in
      record {
        worker = record {
          first = kept.worker.first;
          second = move-IsLink l a u.second k move kept.worker.second;
          spare = kept.worker.spare;
          deficits =
              (kept.worker.deficits.0, move-IsDeficit l a u.second k move kept.worker.deficits.1);
        };
        core = kept.core;
        same = λ x. omega (arith, move-held_by l a u.second k x move, kept.same x);
      }

  Keeps-trans : (a : MmapArea) (u v w : Worker sys d) → Keeps a u v → Keeps a v w → Keeps a u w
  Keeps-trans a u v w h g = record {
    worker = g.worker;
    core = g.core ∙ h.core;
    same = λ x. g.same x ∙ h.same x;
  }

  module _ {a : MmapArea} (area : IsSmallArea a) (works : Works sys) where
    -- In a build without overflow checks, over an area of frames of at most 2^16 bytes and with a `sendto`
    -- that works or fails as it may, a round of a worker over both its links never panics: every queue, deque
    -- and the spare buffers are in order again, the deficits right, and every address is held exactly as
    -- often as before.
    pub serve-Keeps :
        (w : Worker sys d)
        → IsWorker a w
        → (w' : Worker sys d) × (serve sys false d w ≡ value w') × Keeps a w w'
    unfolding serve
    serve-Keeps w v =
        let (first, second, bufs, world, e, t) =
          turn-Turned l area works w.world w.first w.second w.bufs v.first v.second v.spare in
        let (second', first', bufs', world', e', t') =
          turn-Turned l area works world second first bufs t.other_link t.own_link t.spare in
        (
          record w { first = first'; second = second'; bufs = bufs'; world = world' },
          rw (e, e'),
          record {
            worker = record {
              first = t'.other_link;
              second = t'.own_link;
              spare = t'.spare;
              deficits = (
                t'.other_deficit (t.own_deficit v.deficits.0),
                t'.own_deficit (t.other_deficit v.deficits.1),
              );
            };
            core = refl;
            same = λ x. omega (arith, t.held x, t'.held x);
          },
        )

    round-Keeps : (w : Worker sys d) → Serves (Keeps a w) (serve sys false d)
    round-Keeps w v kept =
        let (u, e, round) = serve-Keeps v kept.worker in (u, e, Keeps-trans a w v u kept round)

    -- In a build without overflow checks, over an area of frames of at most 2^16 bytes and with a `sendto`
    -- that works or fails as it may, whatever the kernel moves between the rounds: a worker in order
    -- whose queue has `asked` requests of its counters and then `Exit` leaves its loop after that many rounds.
    -- It is in order then, and has every address exactly as often as when it began.
    pub worker-Keeps :
        (cmd : Channel Command) (resp : Channel StatsMessage) (cl : ChannelLaws cmd)
        (kernel : Worker sys d → Worker sys d)
        → ((w : Worker sys d) → Moved a w (kernel w))
        → (asked fuel : ℕ) (m : Mailbox cmd resp) (w : Worker sys d) (rest : List Command)
        → cl.items m.commands ≡ replicate asked get_stats ++ exit ∷ rest
        → IsWorker a w
        → (m' : Mailbox cmd resp) × (w' : Worker sys d) × (run_worker cmd resp
              (served (serve sys false d) kernel)
              (report sys d)
              (asked + suc fuel)
              m
              w
            ≡ value (true, m', w'))
          × Keeps a w w'
    worker-Keeps cmd resp cl kernel moves asked fuel m w rest e v =
        let (m', w', ran, kept, left) =
          worker_leaves cmd resp cl (Keeps a w) (served (serve sys false d) kernel) (report sys d)
            (served-Serves (Keeps a w) (serve sys false d) kernel (round-Keeps w) (λ v kept.
              Keeps-trans a w v (kernel v) kept (Moved-Keeps a v (kernel v) kept.worker (moves v))))
            asked fuel m w rest e (record { worker = v; core = refl; same = λ x. refl }) in
        (m', w', ran, kept)
