-- ===== src/Edge/DbProxy.antt =====
-- functions/db-proxy/index.ts
pub mod Guards
pub mod Filters
pub mod Operations
pub mod Handler
pub mod Plans
pub mod Safety
