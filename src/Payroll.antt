-- ===== src/Payroll.antt =====
-- Salaries, advances and loans of the HR app (apps/hrms).
pub mod Records
pub mod Loans
pub mod LoanLaws
pub mod Status
pub mod Settled
pub mod Stale
pub mod Staff
pub mod Generate
pub mod Generated
pub mod Totals
