-- ===== src/ShipmentRequests/Pricing.antt =====
-- backend/src/modules/shipment-request/pricing: what a shipment costs, and the matrix of prices
-- between zones.
pub mod Numbers
pub mod Calculation
pub mod Matrix
pub mod Resolution
