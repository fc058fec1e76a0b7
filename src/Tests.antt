-- ===== src/Tests.antt =====
-- Runs and instances of the theorems at concrete inputs.
mod TransferData
mod TransferRuns
mod FinanceRuns
mod StockRuns
mod PayrollRuns
mod VoucherRuns
mod PurchaseRuns
mod SalesRuns
mod PayableRuns
mod TenancyRuns
mod AdjustmentRuns
