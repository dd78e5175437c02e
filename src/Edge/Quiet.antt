-- ===== src/Edge/Quiet.antt =====
-- The steps that call neither the user's database client nor the authentication server: they keep
-- every property of the trace that says nothing of other events.
mod Rules
mod Checks
mod Bodies
pub use Rules.*
pub use Checks.*
pub use Bodies.*
