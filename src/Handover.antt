-- ===== src/Handover.antt =====
-- backend/src/modules/customer-shipment/proof-of-delivery: the delivery of a parcel against payment.
mod Store
mod Commands
mod Books
mod Proofs
pub mod Settled
mod Examples
unfoldable pub use Store.*
unfoldable pub use Commands.*
