-- ===== src/Tests.antt =====
-- The theorems at concrete inputs.
mod Sim
mod Streams
mod Conditions
mod Listeners
mod Datagrams
mod Protocol
mod Sessions
mod Sockets
mod Factory
mod Interfaces
mod Delivery
mod Interleaved
mod Lifetime
mod Pipes
