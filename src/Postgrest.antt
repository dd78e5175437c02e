-- ===== src/Postgrest.antt =====
-- The query builders of packages/core/postgrest-js/src.
mod Examples
pub mod Params
pub mod Types
pub mod Filters
pub mod Transforms
pub mod Query
pub mod Client
pub mod Http
pub mod Failure
pub mod Response
pub mod Plans
