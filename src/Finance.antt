-- ===== src/Finance.antt =====
-- The general ledger of the finance app.
pub mod Accounts
pub mod Choice
pub mod Journal
pub mod Fresh
pub mod Balance
pub mod Money
pub mod Documents
pub mod Reversal
pub mod Payments
pub mod Reversed
pub mod Core
pub mod Voucher
