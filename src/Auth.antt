-- ===== src/Auth.antt =====
-- src/minemonitor/auth: the login lockout and the cache of verified credentials.
pub mod Lockout
pub mod Cache
