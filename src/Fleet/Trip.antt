-- ===== src/Fleet/Trip.antt =====
-- backend/src/modules/fleet/trip: the trip aggregate, the command service, and when a trip departs.
mod Aggregate
mod Commands
pub mod Departure
unfoldable pub use Aggregate.*
unfoldable pub use Commands.*
