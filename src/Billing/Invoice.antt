-- ===== src/Billing/Invoice.antt =====
-- backend/src/modules/billing/invoice/domain/entities/invoice.entity.ts: the invoice aggregate.
-- A method that assigns `this._status` returns the new record; a `throw` is an `err`.
mod Lifecycle
mod Aggregate
pub mod Balance
unfoldable pub use Lifecycle.*
unfoldable pub use Aggregate.*
