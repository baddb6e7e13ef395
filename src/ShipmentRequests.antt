-- ===== src/ShipmentRequests.antt =====
-- Shipment requests: backend/src/modules/shipment-request. The price matrix and the price of a
-- shipment, the quotations made from it, and the requests that customers make and companies accept.
pub mod Pricing
pub mod Quotation
mod Examples
