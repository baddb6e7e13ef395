-- ===== src/ShipmentRequests/Quotation/Agreement.antt =====
-- The link between an approved quotation and its request: the invariant of the two tables, the
-- approval of a quotation, and the other commands.
mod Invariant
mod Queries
mod Approval
mod Drafts
mod Creation
mod Commands
pub use Invariant.*
pub use Approval.*
pub use Commands.*
