-- ===== src/Lib.antt =====
-- afxdp-rs: sending and receiving raw packets over Linux AF_XDP sockets, in memory that the kernel and
-- the program share.
--
-- How the program works. `MmapArea` maps one area of memory and cuts it into frames of equal length, one
-- `BufMmap` for each. A `Umem` registers the area with the kernel and comes with two rings of addresses: the
-- fill queue, by which the program hands empty frames to the kernel, and the completion queue, by which
-- the kernel hands frames back after sending them. A `Socket` on a umem has two rings of descriptors: what
-- `SocketRx` receives, and what `SocketTx` sends. A buffer is moved into a ring as its address alone, and made
-- again from the address that the kernel returns. `BufPoolVec` holds spare buffers, and `BufVec` stands in
-- for `BufMmap` in tests.
--
-- Which file models which part.
--   Util             src/util.rs
--   Buf, Buf/Mmap    src/buf.rs, src/buf_mmap.rs: the trait as a record of operations with its contract; a
--                    place handed out for writing (`get_data_mut`, `get_user_mut`) is a function that writes
--   Buf/Owned        src/buf_vec.rs
--   Area             src/mmap_area.rs: `MmapArea::new` is `new` and `make_bufs`, its loop; `Drop` is `drop`
--   Pool             src/buf_pool.rs, src/buf_pool_vec.rs, and `getput` of benches/buf_pool.rs
--   Umem             src/umem.rs: `new`, `service` with `service_loop`, `fill` with `fill_loop`
--   Socket           src/socket.rs: `new`, `new_rx`, `new_tx`; Socket/Rx has `try_recv` with `recv_loop` and
--                    `wake`, Socket/Tx has `try_send` with `send_loop` and `wakeup_if_required`
--   L2fwd            examples/l2fwd-2link.rs: `forward`, `main` up to its loop as `start` of
--                    L2fwd/Setup, and the loop as `round`, whose parts are named
--                    for the comments in the source; the entries of its arrays for one link are a `Link`.
--                    L2fwd/Kernel puts moves of the kernel between the rounds
--   OneLink          examples/l2fwd-1link.rs: `swap_macs` over the bytes of the area, `main` up to its loop as
--                    `start` of OneLink/Setup, the body of the loop as `round`, and the clock that ends
--                    it as `tick` and `run` of OneLink/Clocked, with the moves of the kernel between
--                    the rounds that OneLink/Kernel allows
--   Control          what the threads of examples/l2fwd-2link-multicore.rs and examples/rxdrop.rs say to each
--                    other: the commands at the head of a worker's loop as `poll_command`, the loop as
--                    `run_worker`, the body of `do_controller`'s loop as `control_round`; Control/Shared is
--                    what both files' `main` makes for all workers, Control/Unlink what it does at its end
--   Multicore        examples/l2fwd-2link-multicore.rs: `do_worker` up to its loop as `begin`, the rest of the
--                    loop's body as `serve`, `main` up to its threads as `prepare` of Multicore/Setup
--   RxDrop           examples/rxdrop.rs, in the same way
--   Dump             examples/dump.rs: `dump`, `main` up to its loop as `start` of Dump/Setup, and the loop as
--                    `round`, whose result has the buffers that are printed
--   Ownership        src/mmap_area.rs, src/umem.rs, src/socket.rs: the owners of an area, a umem and a socket, each behind
--                    an `Arc`; Ownership/Make has what the constructors do to the counts of owners, and
--                    Ownership/Reach all that a program can do with them
--   UnitTests        the unit tests in src/mmap_area.rs, src/umem.rs, src/socket.rs, src/buf_pool_vec.rs and src/util.rs
--   Queues           what each queue keeps between the calls of any of these programs
--   Frames           what passes between the program and the kernel through the queues together
-- Beside them, Prelude holds lists, numbers and Boolean tests; Rust holds panics as values, machine arithmetic
-- and `Vec`; Memory is the bytes of the mapping; Bag is the collections that forget order; Ring is what the
-- queues do alike with their rings; Tests holds a concrete system and the theorems at concrete inputs.
--
-- State. Each operation takes the state that it may change and returns it: the queue, the caller's vector or
-- deque, the memory, and the world outside the program. A panic is a value of `Outcome`, with its cause.
-- Numbers are unbounded and arithmetic is written with the width of the source's type: an overflow panics in
-- a build with overflow checks and wraps in one without, and `checks` says which build is meant. `usize` is 64
-- bits wide. Loops over lists and counts are structural recursion. Two loops run on fuel, which is
-- their number of rounds: for a worker, one for each command in its queue, up to and with `Exit`, is enough; for
-- the loop of l2fwd-1link, 302 times one more than the nanoseconds of a second, if the clock never stands still.
--
-- What is not the repository's code is a parameter, in Extern: libbpf's rings (`ConsRing`, `ProdRing`), the
-- crate arraydeque (`ArrayDeque`), the queues of the crate rtrb (`Channel`), the clock (`Clock`), and the system
-- calls with libbpf's constructors (`Sys`). Their documented behaviour is the records of laws beside them; Tests
-- has a concrete one of each kind that keeps them.
--
-- Not modelled: messages printed and the `Display` of errors; how the options and the configuration files are parsed;
-- the pinning of threads to cores; the lock of the shared pool, held for one call of `get` that does not panic; of
-- l2fwd-1link the thread that prints; the integration tests, which need network links.
pub mod Prelude
pub mod Util
pub mod Rust
pub mod Extern
pub mod Memory
pub mod Buf
pub mod Area
pub mod Bag
pub mod Pool
pub mod Ring
pub mod Umem
pub mod Socket
pub mod Frames
pub mod Queues
pub mod L2fwd
pub mod OneLink
pub mod Control
pub mod Multicore
pub mod RxDrop
pub mod Dump
pub mod Ownership
pub mod UnitTests
pub mod Tests
