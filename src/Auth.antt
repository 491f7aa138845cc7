-- ===== src/Auth.antt =====
-- app/core/security.py and app/modules/auth/service.py: tokens, and the sessions that refresh tokens keep.
pub mod Tokens
pub mod Sessions
pub mod Login
pub mod Verification
pub mod Users
pub mod Tests
