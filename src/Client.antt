-- ===== src/Client.antt =====
-- The secure client of packages/core/supabase-js/src.
pub mod Effects
pub mod E2ee
pub mod Invoker
pub mod DbProxy
pub mod AuthProxy
mod Examples
