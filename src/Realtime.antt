-- ===== src/Realtime.antt =====
-- Parts of packages/core/realtime-js/src/lib.
pub mod Serializer
pub mod Transformers
pub mod Endpoint
mod Examples
