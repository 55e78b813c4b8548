-- ===== src/Tests.antt =====
-- Runs of the modelled code at concrete inputs, and the theorems at inputs that meet their
-- hypotheses.
mod Breaker
mod Retries
mod Streams
mod DeadLetters
mod Buses
mod Sessions
mod Workflows
mod Actors
mod Pools
mod Caches
mod Security
mod Redis
mod Distributed
mod Plugins
mod Scaling
mod Sockets
pub mod Heaps
mod Queues
