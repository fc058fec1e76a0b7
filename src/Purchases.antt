-- ===== src/Purchases.antt =====
-- Purchase orders and goods receipts (apps/purchases).
pub mod GoodsReceipt
pub mod Received
pub mod MissedLine
