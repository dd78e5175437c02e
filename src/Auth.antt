-- ===== src/Auth.antt =====
-- packages/core/auth-js/src: the lock that keeps the operations on a session apart.
mod Examples
pub mod ProcessLock
pub mod AcquireLock
pub mod Refresh
