-- ===== src/Tests/PayrollRuns.antt =====
-- The theorems on payroll at a month of two employees: one with a loan and an advance, one without.
use ghazatech_inventory_be.Prelude.{
  ℕ, ◌+◌, ◌≡◌, ◌≤◌, refl, true, false, Option, none, some, List, [], ◌∷◌, ◌++◌, ◌==◌, find,
  if◌then◌else◌,
}
use ghazatech_inventory_be.Prelude.Decimal.{round_half_up}
use ghazatech_inventory_be.Payroll.Records.{
  LoanStatus, EmployeeLoan, AdvanceStatus, SalaryAdvance, EntryStatus, CalculationMethod,
  PayrollEntry, RunStatus, PayrollRun, Payroll, is_paid,
}
use ghazatech_inventory_be.Payroll.Loans.{
  loan_deduction, settle_employee_loans, already_settled, settle_loan, settle_loans,
}
use ghazatech_inventory_be.Payroll.LoanLaws.{owed}
use ghazatech_inventory_be.Payroll.Status.{
  has_pk, mark_paid, update_status, ensure_employee_loan_deduction, pay_entry, pay_changed_entry,
}
use ghazatech_inventory_be.Payroll.Settled.{mark_paid-settles}
use ghazatech_inventory_be.Payroll.Stale.{update_status_keeps_balance}
use ghazatech_inventory_be.Payroll.Staff.{
  Employee, Request, Staff, invalid_payable_days, unpaid_leave_days,
}
use ghazatech_inventory_be.Payroll.Generate.{
  Reply, created, bad_request, new_entry, make_entry, generate_one, generate_all, sum_of, conclude,
  generate, apply_advances,
}
use ghazatech_inventory_be.Payroll.Generated.{AllBalanced}
use ghazatech_inventory_be.Payroll.Totals.{generate-totals, refused_generation_keeps_entry}
use ghazatech_inventory_be.Tests.TransferData.{result_or}

abbrev employee : ℕ → ℕ → Employee
employee pk joined = record {
  pk = pk;
  branch = 1;
  is_active = true;
  joining_date = some joined;
  basic_salary = 200_000;
  allowances = 100_000;
}

-- Two days of unpaid leave in a month of thirty days.
abbrev staff : Staff
staff = record {
  employees = employee 1 10 ∷ employee 2 10 ∷ [];
  leaves =
      record {
        employee = 2;
        is_approved = true;
        leave_type_is_paid = false;
        from_date = 99;
        to_date = 101;
      }
      ∷ [];
}

abbrev loan : EmployeeLoan
loan = record {
  pk = 1;
  employee = 1;
  start_period = 2;
  monthly_installment = 20_000;
  remaining_balance = 30_000;
  monthly_deduction_overrides = [];
  status = LoanStatus.active;
}

abbrev advance : SalaryAdvance
advance = record {
  pk = 1;
  employee = 1;
  period = 3;
  remaining_amount = 50_000;
  status = AdvanceStatus.paid;
  deducted_payroll_entry = none;
}

abbrev tables : Payroll
tables = record {
  loans = loan ∷ [];
  repayments = [];
  advances = advance ∷ [];
  entries = [];
  runs = [];
  next_pk = 7;
}

abbrev request : (ℕ → Option ℕ) → Request
request payable_days = record {
  period = record { code = 3; month_start = 100; month_end = 129 };
  branch = 1;
  employee_ids = 1 ∷ 2 ∷ [];
  payable_days = payable_days;
  status = EntryStatus.pending;
  paid_by = 0;
}

abbrev month : Request
month = request (λ _. none)

-- The entries and the totals of the month.
abbrev reply : Reply × Payroll
reply = generate 100 month staff tables

abbrev no_run : PayrollRun
no_run = record {
  pk = 0;
  period = 0;
  paid_by = 0;
  status = RunStatus.failed;
  total_gross = 0;
  total_deductions = 0;
  total_advance_deduction = 0;
  total_net = 0;
}

abbrev run_of : Reply → PayrollRun
run_of (created r) = r
run_of (bad_request _) = no_run

run_totals :
    (sum_of (λ x. x.net_salary) reply.1.entries ≡ 510_000)
    × (sum_of (λ x. x.loan_deduction) reply.1.entries ≡ 20_000)
    × (sum_of (λ x. x.unpaid_leave_days) reply.1.entries ≡ 2)
    × (reply.1.advances
        ≡ record advance {
          remaining_amount = 0;
          status = AdvanceStatus.deducted;
          deducted_payroll_entry = some 8;
        }
          ∷ [])
unfolding generate generate_all generate_one make_entry new_entry loan_deduction apply_advances
    unpaid_leave_days round_half_up
run_totals = (refl, refl, refl, refl)

generate-totals_example :
    let r = run_of reply.0 in
    (new : List PayrollEntry) × (reply.1.entries ≡ [] ++ new)
    × AllBalanced new
    × (r.total_net ≡ sum_of (λ x. x.net_salary) new)
    × (r.total_gross ≡ r.total_net + sum_of (λ x. x.loan_deduction) new + r.total_advance_deduction)
unfolding generate generate_all generate_one make_entry new_entry loan_deduction apply_advances
    unpaid_leave_days round_half_up
generate-totals_example =
    generate-totals 100 month staff tables {r = run_of reply.0} {p' = reply.1} refl

-- Forty days are asked for the second employee.
abbrev long_month : Request
long_month = request (λ pk. if pk == 2 then some 40 else none)

abbrev first_entry : PayrollEntry
first_entry = new_entry long_month 7 (employee 1 10) 0 30 tables

abbrev first_tables : Payroll
first_tables = record tables { entries = first_entry ∷ []; next_pk = 8 }

refused_generation_keeps_entry_example :
    let (r, p) =
      conclude long_month 7
        (generate_all long_month 7 staff (employee 1 10 ∷ employee 2 10 ∷ []) tables [] []) in
    (r ≡ bad_request invalid_payable_days)
    × (p.entries ≡ [] ++ first_entry ∷ [])
    × (p.advances ≡ advance ∷ [])
unfolding generate_one make_entry new_entry loan_deduction apply_advances unpaid_leave_days
    round_half_up
refused_generation_keeps_entry_example =
    refused_generation_keeps_entry long_month 7 staff (employee 1 10) (employee 2 10) [] tables
      {x = first_entry} {p1 = first_tables} refl refl

-- The first employee's entry, for thirty days.
abbrev entry : PayrollEntry
entry = record {
  pk = 7;
  payroll_run = none;
  employee = 1;
  period = 3;
  paid_by = 0;
  gross_salary = 300_000;
  deductions = 0;
  advance_deduction = 50_000;
  loan_deduction = 0;
  net_salary = 250_000;
  balance_payable = 250_000;
  status = EntryStatus.pending;
  total_period_days = 30;
  payable_days = 30;
  unpaid_leave_days = 0;
  salary_calculation_method = CalculationMethod.full;
}

abbrev unpaid : Payroll
unpaid = record tables { entries = entry ∷ [] }

abbrev marked : Payroll
marked = result_or (mark_paid 7 5 unpaid) unpaid

mark_paid-settles_example :
    (e' : PayrollEntry) × (find (has_pk 7) marked.entries ≡ some e')
    × (is_paid e'.status ≡ true)
    × (e'.loan_deduction ≡ 20_000)
    × (20_000 ≤ 250_000)
    × (already_settled e' marked.repayments ≡ 20_000)
    × (owed marked.loans + 20_000 ≡ owed (loan ∷ []))
unfolding mark_paid pay_entry ensure_employee_loan_deduction settle_employee_loans settle_loans
    settle_loan loan_deduction
mark_paid-settles_example =
    mark_paid-settles 7 5 entry unpaid {p' = marked} refl refl (tt, tt) (refl, tt) refl refl

abbrev changed : Payroll
changed = result_or (update_status 7 EntryStatus.paid 5 unpaid) unpaid

-- The balance of the entry is 2500.00 where 2300.00 are paid out.
update_status_keeps_balance_example :
    (e' : PayrollEntry) × (find (has_pk 7) changed.entries ≡ some e')
    × (e'.loan_deduction ≡ 20_000)
    × (e'.balance_payable ≡ 250_000)
unfolding update_status pay_changed_entry ensure_employee_loan_deduction settle_employee_loans
    settle_loans settle_loan loan_deduction
update_status_keeps_balance_example =
    update_status_keeps_balance 7 5 entry unpaid {p' = changed} refl refl refl
