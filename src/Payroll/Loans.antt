-- ===== src/Payroll/Loans.antt =====
-- Loan deductions and their settlement: `_calculate_employee_loan_deduction` and
-- `_settle_employee_loans` of apps/hrms/views.py.
use ghazatech_inventory_be.Prelude.{
  ℕ, ◌+◌, ◌-◌, Bool, not, ◌&&◌, ◌||◌, none, some, List, [], ◌∷◌, ltb, leb, ◌==◌, if◌then◌else◌,
  find, any, smaller,
}
use ghazatech_inventory_be.Payroll.Records.{
  completed, EmployeeLoan, EmployeeLoanRepayment, PayrollEntry, Payroll, is_active,
}

-- The query for the loans of an employee and a period.
abbrev pub is_eligible : ℕ → ℕ → EmployeeLoan → Bool
is_eligible employee period l =
    (l.employee == employee)
    && is_active l.status
    && leb l.start_period period
    && ltb 0 l.remaining_balance

-- `(overrides or {}).get(period, monthly_installment)`
abbrev pub installment_of : ℕ → EmployeeLoan → ℕ
installment_of period l = elim (find (λ o. o.period == period) l.monthly_deduction_overrides) [
  | none ↦ l.monthly_installment
  | some o ↦ o.amount
]

-- What one loan takes of the salary that is left.
abbrev pub installment : ℕ → ℕ → ℕ → EmployeeLoan → ℕ
installment employee period available l =
    if is_eligible employee period l
    then smaller (smaller (installment_of period l) l.remaining_balance) available
    else 0

-- The loop over the loans; a loan takes nothing once no salary is left, where the source stops.
unfoldable pub loan_deduction : ℕ → ℕ → ℕ → List EmployeeLoan → ℕ
loan_deduction employee period available [] = 0
loan_deduction employee period available (l ∷ loans) =
    let i = installment employee period available l in
    i + loan_deduction employee period (available - i) loans

-- `EmployeeLoanRepayment.objects.filter(loan=loan, payroll_entry=entry).exists()`
abbrev pub is_repaid : PayrollEntry → EmployeeLoan → List EmployeeLoanRepayment → Bool
is_repaid e l repayments = any (λ r. (r.loan == l.pk) && (r.payroll_entry == e.pk)) repayments

-- The sum of the repayments of an entry.
abbrev pub already_settled : PayrollEntry → List EmployeeLoanRepayment → ℕ
already_settled e [] = 0
already_settled e (r ∷ repayments) =
    (if r.payroll_entry == e.pk then r.amount else 0) + already_settled e repayments

abbrev pub repaid_loan : ℕ → EmployeeLoan → EmployeeLoan
repaid_loan amount l = record l {
  remaining_balance = l.remaining_balance - amount;
  status = if l.remaining_balance - amount == 0 then completed else l.status;
}

abbrev pub repayment : PayrollEntry → EmployeeLoan → ℕ → EmployeeLoanRepayment
repayment e l amount = record {
  loan = l.pk;
  payroll_entry = e.pk;
  employee = e.employee;
  period = e.period;
  amount = amount;
}

abbrev pub is_skipped : PayrollEntry → ℕ → EmployeeLoan → List EmployeeLoanRepayment → Bool
is_skipped e amount l repayments =
    (amount == 0) || not (is_eligible e.employee e.period l) || is_repaid e l repayments

-- One round of the loop: the loan, the repayments and the amount that is left.
unfoldable pub settle_loan :
    PayrollEntry
    → ℕ
    → EmployeeLoan
    → List EmployeeLoanRepayment
    → EmployeeLoan × List EmployeeLoanRepayment × ℕ
settle_loan e amount l repayments =
    let paid = smaller amount l.remaining_balance in
    if is_skipped e amount l repayments
    then (l, repayments, amount)
    else (repaid_loan paid l, repayment e l paid ∷ repayments, amount - paid)

unfoldable pub settle_loans :
    PayrollEntry
    → ℕ
    → List EmployeeLoan
    → List EmployeeLoanRepayment
    → List EmployeeLoan × List EmployeeLoanRepayment
settle_loans e amount [] repayments = ([], repayments)
settle_loans e amount (l ∷ loans) repayments =
    let (l', repayments', left) = settle_loan e amount l repayments in
    let (loans', repayments'') = settle_loans e left loans repayments' in
    (l' ∷ loans', repayments'')

unfoldable pub settle_employee_loans : PayrollEntry → Payroll → Payroll
unfolding settle_loans
settle_employee_loans e p =
    let amount = e.loan_deduction - already_settled e p.repayments in
    let (loans, repayments) = settle_loans e amount p.loans p.repayments in
    if amount == 0 then p else record p { loans = loans; repayments = repayments }
