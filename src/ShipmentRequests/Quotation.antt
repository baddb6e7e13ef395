-- ===== src/ShipmentRequests/Quotation.antt =====
-- backend/src/modules/shipment-request: quotation and request. The two aggregates, their tables, the
-- generation of quotations, and the commands of both services.
mod Lifecycle
mod Store
mod Generation
mod Commands
mod Agreement
unfoldable pub use Lifecycle.*
unfoldable pub use Store.*
unfoldable pub use Generation.*
unfoldable pub use Commands.*
pub use Agreement.*
