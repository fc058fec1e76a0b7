-- ===== src/Payroll/LoanLaws.antt =====
-- Loan deductions and repayments (apps/hrms/views.py).
use ghazatech_inventory_be.Prelude.{
  ℕ, ◌+◌, ◌-◌, ◌≤◌, ◌≡◌, refl, false, List, [], ◌∷◌, ◌==◌, if◌then◌else◌, arith, Bool-cases, inl,
  inr, smaller,
}
use ghazatech_inventory_be.Payroll.Records.{EmployeeLoan, EmployeeLoanRepayment, PayrollEntry}
use ghazatech_inventory_be.Payroll.Loans.{
  is_eligible, installment, loan_deduction, is_repaid, already_settled, settle_loan, settle_loans,
  repayment, is_skipped,
}

-- What all loans together still owe.
unfoldable pub owed : List EmployeeLoan → ℕ
owed [] = 0
owed (l ∷ loans) = l.remaining_balance + owed loans

-- What the eligible loans of an employee owe.
unfoldable pub outstanding : ℕ → ℕ → List EmployeeLoan → ℕ
outstanding employee period [] = 0
outstanding employee period (l ∷ loans) =
    (if is_eligible employee period l then l.remaining_balance else 0)
    + outstanding employee period loans

pub loan_deduction_bounds :
    (employee period available : ℕ) (loans : List EmployeeLoan)
    → (loan_deduction employee period available loans ≤ available)
      × (loan_deduction employee period available loans ≤ outstanding employee period loans)
unfolding loan_deduction outstanding
loan_deduction_bounds employee period available [] = omega arith
loan_deduction_bounds employee period available (l ∷ loans) = ground (
  arith,
  loan_deduction_bounds employee period (available - installment employee period available l) loans,
)

settle_loan-owed :
    (e : PayrollEntry) (amount : ℕ) (l : EmployeeLoan) (repayments : List EmployeeLoanRepayment)
    → let (l', repayments', left) = settle_loan e amount l repayments in
      (l'.remaining_balance + already_settled e repayments'
        ≡ l.remaining_balance + already_settled e repayments)
      × (already_settled e repayments' + left ≡ already_settled e repayments + amount)
unfolding settle_loan
settle_loan-owed e amount l repayments = ground arith

-- The loop moves from what the loans owe to what the entry has repaid.
pub settle_loans-owed :
    (e : PayrollEntry) (amount : ℕ) (loans : List EmployeeLoan)
    (repayments : List EmployeeLoanRepayment)
    → let (loans', repayments') = settle_loans e amount loans repayments in
      owed loans' + already_settled e repayments' ≡ owed loans + already_settled e repayments
unfolding settle_loans owed
settle_loans-owed e amount [] repayments = refl
settle_loans-owed e amount (l ∷ loans) repayments =
    let (l', repayments', left) = settle_loan e amount l repayments in
    omega (
      arith,
      (settle_loan-owed e amount l repayments).0,
      settle_loans-owed e left loans repayments',
    )

-- No other loan has the number.
abbrev pub IsAbsent : ℕ → List EmployeeLoan → Type 0
IsAbsent pk [] = Unit
IsAbsent pk (l ∷ loans) = ((pk == l.pk) ≡ false) × IsAbsent pk loans

abbrev pub AllDistinct : List EmployeeLoan → Type 0
AllDistinct [] = Unit
AllDistinct (l ∷ loans) = IsAbsent l.pk loans × AllDistinct loans

-- The entry has repaid none of the loans.
abbrev pub AllUnpaid : PayrollEntry → List EmployeeLoanRepayment → List EmployeeLoan → Type 0
AllUnpaid e repayments [] = Unit
AllUnpaid e repayments (l ∷ loans) =
    (is_repaid e l repayments ≡ false) × AllUnpaid e repayments loans

repayment-AllUnpaid :
    (e : PayrollEntry) (l : EmployeeLoan) (amount : ℕ) (repayments : List EmployeeLoanRepayment)
    (loans : List EmployeeLoan)
    → IsAbsent l.pk loans
    → AllUnpaid e repayments loans
    → AllUnpaid e (repayment e l amount ∷ repayments) loans
repayment-AllUnpaid e l amount repayments [] absent unpaid = tt
repayment-AllUnpaid e l amount repayments (m ∷ loans) (differ, absent) (free, unpaid) =
    (rw (differ, free), repayment-AllUnpaid e l amount repayments loans absent unpaid)

settle_loan-AllUnpaid :
    (e : PayrollEntry) (amount : ℕ) (l : EmployeeLoan) (repayments : List EmployeeLoanRepayment)
    (loans : List EmployeeLoan)
    → IsAbsent l.pk loans
    → AllUnpaid e repayments loans
    → AllUnpaid e (settle_loan e amount l repayments).1 loans
unfolding settle_loan
settle_loan-AllUnpaid e amount l repayments loans absent unpaid =
    elim (Bool-cases (is_skipped e amount l repayments)) [
      | inl skip ↦ rw skip unpaid
      | inr pay ↦ rw pay (
          repayment-AllUnpaid e l (smaller amount l.remaining_balance) repayments loans absent
            unpaid)
    ]

settle_loan-left :
    (e : PayrollEntry) (amount : ℕ) (l : EmployeeLoan) (repayments : List EmployeeLoanRepayment)
    → is_repaid e l repayments ≡ false
    → (settle_loan e amount l repayments).2
      ≡ amount - (if is_eligible e.employee e.period l then l.remaining_balance else 0)
unfolding settle_loan
settle_loan-left e amount l repayments free = ground arith

-- Where the entry has repaid none of the loans, the loop repays the amount or all that is owed.
pub settle_loans-exact :
    (e : PayrollEntry) (amount : ℕ) (loans : List EmployeeLoan)
    (repayments : List EmployeeLoanRepayment)
    → AllDistinct loans
    → AllUnpaid e repayments loans
    → already_settled e (settle_loans e amount loans repayments).1
      ≡ already_settled e repayments + smaller amount (outstanding e.employee e.period loans)
unfolding settle_loans outstanding
settle_loans-exact e amount [] repayments distinct unpaid = ground arith
settle_loans-exact e amount (l ∷ loans) repayments (absent, distinct) (free, unpaid) =
    let (l', repayments', left) = settle_loan e amount l repayments in
    ground (
      arith,
      (settle_loan-owed e amount l repayments).1,
      settle_loan-left e amount l repayments free,
      settle_loans-exact e left loans repayments' distinct
          (settle_loan-AllUnpaid e amount l repayments loans absent unpaid),
    )
