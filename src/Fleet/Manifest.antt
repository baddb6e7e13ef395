-- ===== src/Fleet/Manifest.antt =====
-- backend/src/modules/fleet/transport_manifest: the manifest and item aggregates, their tables, and
-- the command service.
mod Aggregate
mod Store
mod Commands
pub mod Linked
pub mod Stuck
unfoldable pub use Aggregate.*
unfoldable pub use Store.*
unfoldable pub use Commands.*
