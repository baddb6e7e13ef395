-- ===== src/Billing.antt =====
-- Billing: backend/src/modules/billing. Money, the invoice aggregate, the stored tables with their
-- repositories, and the command service.
pub mod Money
pub mod Invoice
pub mod Store
pub mod Service
