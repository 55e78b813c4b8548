-- ===== src/Scaling.antt =====
-- engine/auto_scaler.py, and what it reads of engine/cluster_manager.py.
pub mod Gpu
pub mod Pools
pub mod Nodes
pub mod AutoScaler
pub mod Decisions
pub mod Idleness
