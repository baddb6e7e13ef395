-- ===== src/Organization.antt =====
-- backend/src/modules/organization/organization_unit: the units of a tenant and what they cover.
mod Store
mod Commands
pub mod Limits
mod Examples
unfoldable pub use Store.*
unfoldable pub use Commands.*
