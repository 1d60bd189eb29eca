-- ===== src/Queues.antt =====
-- src/umem.rs and src/socket.rs: what the four queues of a link keep between the calls of a program that
-- serves them, whichever the program.
pub mod Count
pub mod Invariant
pub mod Umem
pub mod Socket
