-- ===== src/Edge.antt =====
-- The edge functions of packages/core/supabase-js/templates/secure-edge/functions.
pub mod Types
pub mod Query
pub mod Effects
pub mod Cors
pub mod Http
pub mod E2ee
pub mod RateLimit
pub mod Security
pub mod Gate
pub mod Quiet
pub mod DbProxy
pub mod AuthProxy
pub mod PublicKey
mod Examples
