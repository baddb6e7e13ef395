-- ===== src/Fleet/Vehicle.antt =====
-- backend/src/modules/fleet/vehicle: the entities, their tables, the command service, and who holds
-- which vehicle.
mod Store
mod Commands
pub mod Holders
pub mod Releases
unfoldable pub use Store.*
unfoldable pub use Commands.*
