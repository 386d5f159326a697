-- ===== src/Auth.antt =====
-- Signing in, back-end/src/auth.
pub mod Identity
pub mod OAuth
pub mod Otp
pub mod Session
pub mod SignIn
