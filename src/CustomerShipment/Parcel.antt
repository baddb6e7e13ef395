-- ===== src/CustomerShipment/Parcel.antt =====
-- backend/src/modules/customer-shipment/parcel: the parcel aggregate, the stored tables, and the
-- commands that move a parcel and derive the status of its shipment.
mod Aggregate
mod Store
mod Commands
pub mod Locking
unfoldable pub use Aggregate.*
unfoldable pub use Store.*
unfoldable pub use Commands.*
