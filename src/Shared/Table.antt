-- ===== src/Shared/Table.antt =====
-- A stored table as a list of rows, and the queries that the repositories make.
mod Queries
mod Keys
unfoldable pub use Queries.*
unfoldable pub use Keys.*
