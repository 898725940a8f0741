-- ===== src/Auth.antt =====
-- src/auth/: users, their sessions and passwords, and the limit on failed logins.
pub mod Sessions
pub mod Tokens
pub mod Service
pub mod RateLimit
pub mod Attempts
pub mod Revocation
pub mod Rotation
pub mod Passwords
pub mod Login
mod Tests
