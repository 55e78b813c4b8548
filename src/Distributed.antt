-- ===== src/Distributed.antt =====
-- engine/distributed_queue.py: the queue that several workers share over Redis.
pub mod Redis
pub mod Jobs
pub mod Placement
pub mod Claims
pub mod Burial
pub mod Attempts
pub mod Cuts
