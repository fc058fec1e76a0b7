-- ===== src/Payroll/Settled.antt =====
-- What a payment of salary settles (apps/hrms/views.py).
use ghazatech_inventory_be.Prelude.{
  ℕ, ◌+◌, ◌-◌, ◌≤◌, ◌≡◌, ◌∙◌, refl, sym, ap, true, false, Option, none, some, List, [], ◌∷◌,
  ==_refl, find, find-put_self, find-passes, ==_iff, arith,
}
use ghazatech_inventory_be.Prelude.Result.{ok}
use ghazatech_inventory_be.Payroll.Records.{
  EntryStatus, EmployeeLoan, EmployeeLoanRepayment, PayrollEntry, PayrollRun, Payroll, is_paid,
}
use ghazatech_inventory_be.Payroll.Loans.{loan_deduction, already_settled, settle_employee_loans}
use ghazatech_inventory_be.Payroll.LoanLaws.{
  owed, outstanding, loan_deduction_bounds, settle_loans-owed, settle_loans-exact, AllDistinct,
  AllUnpaid,
}
use ghazatech_inventory_be.Payroll.Status.{
  available_salary, ensure_employee_loan_deduction, has_pk, save_entry, update_run, pay_entry,
  pay_unless_closed, mark_paid, payer, paid_entry, completed_run,
}

AllUnpaid-same :
    (e f : PayrollEntry) (repayments : List EmployeeLoanRepayment) (loans : List EmployeeLoan)
    → f.pk ≡ e.pk
    → AllUnpaid e repayments loans
    → AllUnpaid f repayments loans
AllUnpaid-same e f repayments [] same u = tt
AllUnpaid-same e f repayments (l ∷ loans) same (u, us) =
    (rw same u, AllUnpaid-same e f repayments loans same us)

already_settled-same :
    (e f : PayrollEntry) (repayments : List EmployeeLoanRepayment)
    → f.pk ≡ e.pk
    → already_settled f repayments ≡ already_settled e repayments
already_settled-same e f [] same = refl
already_settled-same e f (r ∷ repayments) same = rw (same, already_settled-same e f repayments same)

pub ensured :
    (p : Payroll) (e : PayrollEntry)
    → let e' = ensure_employee_loan_deduction p e in
      (e'.pk ≡ e.pk)
      × (e'.employee ≡ e.employee)
      × (e'.period ≡ e.period)
      × (e'.loan_deduction ≡ loan_deduction e.employee e.period (available_salary e) p.loans)
unfolding ensure_employee_loan_deduction
ensured p e = ground arith

-- Saving a run touches nothing else.
pub update_run-same :
    (f : PayrollRun → PayrollRun) (run : Option ℕ) (p : Payroll)
    → let p' = update_run f run p in
      (p'.loans ≡ p.loans) × (p'.repayments ≡ p.repayments) × (p'.entries ≡ p.entries)
update_run-same f none p = (refl, refl, refl)
update_run-same f (some pk) p = ground arith

pub settle-entries :
    (e : PayrollEntry) (p : Payroll) → (settle_employee_loans e p).entries ≡ p.entries
unfolding settle_employee_loans
settle-entries e p = ground arith

-- Where an entry has repaid nothing, and its deduction is no more than is owed, its settlement repays
-- the deduction.
settle-exact :
    (e : PayrollEntry) (p : Payroll)
    → AllDistinct p.loans
    → AllUnpaid e p.repayments p.loans
    → already_settled e p.repayments ≡ 0
    → e.loan_deduction ≤ outstanding e.employee e.period p.loans
    → let p' = settle_employee_loans e p in
      (already_settled e p'.repayments ≡ e.loan_deduction)
      × (owed p'.loans + e.loan_deduction ≡ owed p.loans)
unfolding settle_employee_loans
settle-exact e p distinct unpaid none_yet bound =
    let amount = e.loan_deduction - already_settled e p.repayments in
    ground (
      arith,
      settle_loans-exact e amount p.loans p.repayments distinct unpaid,
      settle_loans-owed e amount p.loans p.repayments,
    )

pay_unless_closed-eq-ok :
    (s : EntryStatus) (paid_by : ℕ) (e : PayrollEntry) (p : Payroll) {p' : Payroll}
    → is_paid s ≡ false
    → pay_unless_closed s paid_by e p ≡ ok p'
    → p' ≡ pay_entry (payer paid_by e) e p
pay_unless_closed-eq-ok EntryStatus.paid paid_by e p open_status h = cc
pay_unless_closed-eq-ok EntryStatus.cancelled paid_by e p open_status h = cc
pay_unless_closed-eq-ok _ paid_by e p open_status h = ground arith

-- Where loans have numbers of their own, the successful payment of an open entry that has repaid
-- nothing leaves it paid, with the deduction that its loans allow, no more than the salary left;
-- the repayments that it records make up that deduction, and what the loans owe falls by it.
pub mark_paid-settles :
    (pk paid_by : ℕ) (e : PayrollEntry) (p : Payroll) {p' : Payroll}
    → find (has_pk pk) p.entries ≡ some e
    → is_paid e.status ≡ false
    → AllDistinct p.loans
    → AllUnpaid e p.repayments p.loans
    → already_settled e p.repayments ≡ 0
    → mark_paid pk paid_by p ≡ ok p'
    → let d = loan_deduction e.employee e.period (available_salary e) p.loans in
      (e' : PayrollEntry) × (find (has_pk pk) p'.entries ≡ some e')
      × (is_paid e'.status ≡ true)
      × (e'.loan_deduction ≡ d)
      × (d ≤ available_salary e)
      × (already_settled e' p'.repayments ≡ d)
      × (owed p'.loans + d ≡ owed p.loans)
unfolding mark_paid pay_entry
mark_paid-settles pk paid_by e p {p'} found open_status distinct unpaid none_yet h =
    let d = loan_deduction e.employee e.period (available_salary e) p.loans in
    let who = payer paid_by e in
    let made : p' ≡ pay_entry who e p =
      pay_unless_closed-eq-ok e.status paid_by e p open_status (rw found at h) in
    let (same_pk, same_employee, same_period, deduction) = ensured p e in
    let e' : PayrollEntry = paid_entry who (ensure_employee_loan_deduction p e) in
    let (below, owing) = loan_deduction_bounds e.employee e.period (available_salary e) p.loans in
    let (settled, fallen) =
      settle-exact e' (save_entry e' p) distinct
        (AllUnpaid-same e e' p.repayments p.loans same_pk unpaid)
        (already_settled-same e e' p.repayments same_pk ∙ none_yet)
        (rw (deduction, same_employee, same_period) owing) in
    let p1 = settle_employee_loans e' (save_entry e' p) in
    let (loans, repayments, entries) = update_run-same (completed_run who p1) e.payroll_run p1 in
    let e_pk : e.pk ≡ pk = (==_iff e.pk pk).0 (find-passes (has_pk pk) p.entries found) in
    let key : e'.pk ≡ pk = same_pk ∙ e_pk in
    let saved = find-put_self (has_pk e'.pk) e' p.entries (==_refl e'.pk) in
    (
      e',
      ap (λ (q : Payroll). find (has_pk pk) q.entries) made
          ∙ ap (find (has_pk pk)) (entries ∙ settle-entries e' (save_entry e' p))
          ∙ ap (λ (k : ℕ). find (has_pk k) (save_entry e' p).entries) (sym key)
          ∙ saved,
      refl,
      deduction,
      below,
      ap (λ (q : Payroll). already_settled e' q.repayments) made
          ∙ ap (already_settled e') repayments
          ∙ settled
          ∙ deduction,
      ap (λ (q : Payroll). owed q.loans + d) made
          ∙ ap (λ (loans : List EmployeeLoan). owed loans + d) loans
          ∙ ap (λ (n : ℕ). owed p1.loans + n) (sym deduction)
          ∙ fallen,
    )
