-- ===== src/Fleet.antt =====
-- Fleet: backend/src/modules/fleet. Transport manifests with their items, vehicles with their
-- drivers, and the trips that carry them.
pub mod Manifest
pub mod Vehicle
pub mod Trip
mod Examples
