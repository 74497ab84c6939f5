-- ===== src/Tests.antt =====
-- Concrete runs of the definitions, and the theorems at concrete inputs.
mod Checksums
mod Messages
mod Reading
pub mod Addresses
pub mod Office
pub mod Lobby
mod Nodes
mod Deliveries
mod Misses
mod Traffic
mod Sockets
mod Bridges
mod Classes
mod Texts
mod Pipes
mod Arrivals
