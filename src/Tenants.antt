-- ===== src/Tenants.antt =====
-- backend/src/modules/tenant: tenants and their subscriptions.
mod Store
mod Commands
mod Order
mod Listing
pub mod Pages
pub mod Rows
pub mod Single
pub mod Logged
mod Examples
mod PageExamples
unfoldable pub use Store.*
unfoldable pub use Commands.*
unfoldable pub use Listing.*
