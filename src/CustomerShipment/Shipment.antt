-- ===== src/CustomerShipment/Shipment.antt =====
-- backend/src/modules/customer-shipment/shipment/domain/entities/customer-shipment.entity.ts: the
-- shipment aggregate.
mod Lifecycle
mod Aggregate
pub mod Derived
pub mod Follows
unfoldable pub use Lifecycle.*
unfoldable pub use Aggregate.*
