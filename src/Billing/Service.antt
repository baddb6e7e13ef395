-- ===== src/Billing/Service.antt =====
-- backend/src/modules/billing/invoice/application/services/invoice.command.service.ts.
mod Commands
pub mod Soundness
pub mod Collect
pub mod Settle
pub mod Void
pub mod Cancel
pub mod Sweep
pub mod Numbering
pub mod Issue
pub mod History
pub mod Examples
unfoldable pub use Commands.*
