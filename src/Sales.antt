-- ===== src/Sales.antt =====
-- The sales app.
pub mod TaxLine
pub mod Totals
pub mod Receipts
pub mod Counted
pub mod Returns
pub mod ReturnActions
pub mod PointOfSale
pub mod Voided
pub mod Returned
