-- ===== src/Tests.antt =====
-- Concrete rings, a concrete deque and a concrete system that keep the laws of Extern, and the theorems of
-- the library at concrete inputs.
pub mod Cons
pub mod Prod
pub mod Queue
pub mod Sample
pub mod Areas
pub mod Owners
pub mod Pools
pub mod Units
pub mod Umems
pub mod Sockets
pub mod Forwarding
pub mod Swapping
pub mod Rates
pub mod Channels
pub mod Messages
pub mod Workers
pub mod Drops
