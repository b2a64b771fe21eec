-- ===== src/Map.antt =====
-- The map server (src/map).
pub mod Client
pub mod Ids
pub mod Inventory
pub mod Items
pub mod Party
pub mod Saving
pub mod Systems
