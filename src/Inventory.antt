-- ===== src/Inventory.antt =====
-- The stock service of the inventory app.
pub mod Adjust
pub mod AdjustLaws
pub mod Valuation
pub mod Shelf
pub mod TenantAdjust
pub mod TenantAdjusted
