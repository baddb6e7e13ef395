-- ===== src/Authorization.antt =====
-- backend/src/packages/authorization: expressions over policies and their execution.
mod Executor
pub mod Verdict
mod Examples
unfoldable pub use Executor.*
