-- ===== src/CustomerShipment.antt =====
-- Customer shipments: backend/src/modules/customer-shipment. The shipment and parcel aggregates,
-- their stored tables, and the services that move them.
pub mod Shipment
pub mod Parcel
mod Examples
