-- ===== src/Security.antt =====
-- engine/security.py: roles and permissions, users with lockout and API keys, access and refresh
-- tokens, and the rate limiter by a sliding window.
pub mod Roles
pub mod Tokens
pub mod Validity
pub mod Rotation
pub mod RateLimit
pub mod Window
pub mod Users
pub mod Lockout
