-- ===== src/Core.antt =====
-- app/core and app/utils: what every module of the program uses.
pub mod Permissions
pub mod RateLimit
pub mod Cache
pub mod Lockout
mod Tests
