-- ===== src/Billing/Store.antt =====
-- The billing tables and their repositories:
-- backend/src/modules/billing/invoice/infrastructure/repositories/invoice.command.repository.ts and
-- backend/src/modules/billing/payment/infrastructure/repositories/payment.command.repository.ts,
-- over the columns and unique keys of backend/prisma/schema.prisma.
mod Rows
mod Repository
unfoldable pub use Rows.*
unfoldable pub use Repository.*
