-- ===== src/Plugins.antt =====
-- engine/plugin_system.py: hooks, their registry and the plugin manager.
pub mod Hooks
pub mod Manager
pub mod Priorities
pub mod Silence
