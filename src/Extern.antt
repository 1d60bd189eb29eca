-- ===== src/Extern.antt =====
-- What the repository calls and does not define: the rings of libbpf, the `ArrayDeque` of the crate
-- arraydeque, the queues of the crate rtrb, the clock and the system calls. Each is a record of operations; its documented behaviour is a
-- second record, of laws.
pub mod Cons
pub mod Prod
pub mod Deque
pub mod Sys
pub mod Channel
pub mod Clock
