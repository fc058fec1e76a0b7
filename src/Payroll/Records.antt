-- ===== src/Payroll/Records.antt =====
-- The rows of apps/hrms/models.py that payroll reads and writes. Amounts are numbers of cents and are
-- not negative; dates are numbers of days and periods numbers of months, in their order; texts are
-- numbers, 0 being the empty one.
use ghazatech_inventory_be.Prelude.{ℕ, Bool, true, false, Option, List}

pub data LoanStatus : Type 0 where
  active completed cancelled : LoanStatus

-- An entry of `monthly_deduction_overrides`.
pub record Override : Type 0 where
  pub period : ℕ
  pub amount : ℕ

pub record EmployeeLoan : Type 0 where
  pub pk : ℕ
  pub employee : ℕ
  pub start_period : ℕ
  pub monthly_installment : ℕ
  pub remaining_balance : ℕ
  pub monthly_deduction_overrides : List Override
  pub status : LoanStatus

pub record EmployeeLoanRepayment : Type 0 where
  pub loan : ℕ
  pub payroll_entry : ℕ
  pub employee : ℕ
  pub period : ℕ
  pub amount : ℕ

pub data AdvanceStatus : Type 0 where
  pending paid cancelled deducted : AdvanceStatus

pub record SalaryAdvance : Type 0 where
  pub pk : ℕ
  pub employee : ℕ
  pub period : ℕ
  pub remaining_amount : ℕ
  pub status : AdvanceStatus
  pub deducted_payroll_entry : Option ℕ

pub data EntryStatus : Type 0 where
  pending processing paid failed cancelled : EntryStatus

pub data CalculationMethod : Type 0 where
  full prorated : CalculationMethod

-- `payable_days` and `unpaid_leave_days` are whole numbers of days.
pub record PayrollEntry : Type 0 where
  pub pk : ℕ
  pub payroll_run : Option ℕ
  pub employee : ℕ
  pub period : ℕ
  pub paid_by : ℕ
  pub gross_salary : ℕ
  pub deductions : ℕ
  pub advance_deduction : ℕ
  pub loan_deduction : ℕ
  pub net_salary : ℕ
  pub balance_payable : ℕ
  pub status : EntryStatus
  pub total_period_days : ℕ
  pub payable_days : ℕ
  pub unpaid_leave_days : ℕ
  pub salary_calculation_method : CalculationMethod

pub data RunStatus : Type 0 where
  draft processing completed failed cancelled : RunStatus

pub record PayrollRun : Type 0 where
  pub pk : ℕ
  pub period : ℕ
  pub paid_by : ℕ
  pub status : RunStatus
  pub total_gross : ℕ
  pub total_deductions : ℕ
  pub total_advance_deduction : ℕ
  pub total_net : ℕ

-- The tables, loans in the order of `loan_date` and `id`, advances in that of `advance_date` and
-- `id`. `next_pk` stands for the sequences that number new rows.
pub record Payroll : Type 0 where
  pub loans : List EmployeeLoan
  pub repayments : List EmployeeLoanRepayment
  pub advances : List SalaryAdvance
  pub entries : List PayrollEntry
  pub runs : List PayrollRun
  pub next_pk : ℕ

abbrev pub is_active : LoanStatus → Bool
is_active LoanStatus.active = true
is_active _ = false

abbrev pub is_paid : EntryStatus → Bool
is_paid EntryStatus.paid = true
is_paid _ = false
