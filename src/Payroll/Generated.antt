-- ===== src/Payroll/Generated.antt =====
-- The entries that a payroll run makes (apps/hrms/views.py).
use ghazatech_inventory_be.Prelude.{
  ℕ, ◌+◌, ◌-◌, ◌≡◌, ◌⊎◌, refl, Option, none, some, List, [], ◌∷◌, ◌++◌, if◌then◌else◌, arith,
  Bool-cases, inl, inr, later, or_default,
}
use ghazatech_inventory_be.Payroll.Records.{SalaryAdvance, PayrollEntry, Payroll, is_paid}
use ghazatech_inventory_be.Payroll.Loans.{settle_employee_loans}
use ghazatech_inventory_be.Payroll.LoanLaws.{loan_deduction_bounds}
use ghazatech_inventory_be.Payroll.Settled.{settle-entries}
use ghazatech_inventory_be.Payroll.Staff.{Request, Staff, Employee, Refusal, unpaid_leave_days}
use ghazatech_inventory_be.Payroll.Generate.{
  Made, refused, skipped, made, Outcome, stopped, new_entry, make_entry, generate_joined,
  generate_dated, generate_one, generate_all,
}

-- An entry pays out its gross salary in cash, as a loan repayment or as an advance recovered.
abbrev pub IsBalanced : PayrollEntry → Type 0
IsBalanced x = x.net_salary + x.loan_deduction + x.advance_deduction ≡ x.gross_salary

abbrev pub AllBalanced : List PayrollEntry → Type 0
AllBalanced [] = Unit
AllBalanced (x ∷ entries) = IsBalanced x × AllBalanced entries

new_entry-IsBalanced :
    (q : Request) (run : ℕ) (e : Employee) (leave payable : ℕ) (p : Payroll)
    → IsBalanced (new_entry q run e leave payable p)
unfolding new_entry
new_entry-IsBalanced q run e leave payable p =
    let x = new_entry q run e leave payable p in
    let bound =
      (loan_deduction_bounds e.pk q.period.code (x.gross_salary - x.advance_deduction) p.loans).0 in
    ground arith

settle-advances :
    (x : PayrollEntry) (p : Payroll) → (settle_employee_loans x p).advances ≡ p.advances
unfolding settle_employee_loans
settle-advances x p = ground arith

-- What the loop writes for one employee: an entry that balances, and no advance.
pub record IsMade (p : Payroll) (x : PayrollEntry) (p' : Payroll) : Type 0 where
  pub balanced : IsBalanced x
  pub entries : p'.entries ≡ p.entries ++ x ∷ []
  pub advances : p'.advances ≡ p.advances

make_entry-IsMade :
    (q : Request) (run : ℕ) (e : Employee) (leave payable : ℕ) (p : Payroll) {x : PayrollEntry}
    {p' : Payroll} {rows : List SalaryAdvance}
    → make_entry q run e leave payable p ≡ made x p' rows
    → IsMade p x p'
unfolding make_entry
make_entry-IsMade q run e leave payable p {x} {p'} {rows} h =
    let y = new_entry q run e leave payable p in
    let written : Payroll = record p { entries = p.entries ++ y ∷ []; next_pk = p.next_pk + 1 } in
    let same : y ≡ x = cc in
    let after : p' ≡ (if is_paid q.status then settle_employee_loans y written else written) = cc in
    let s = settle-entries y written in
    let t = settle-advances y written in
    elim (Bool-cases (is_paid q.status)) [
      | inl paid ↦ record {
        balanced = rw (← same) (new_entry-IsBalanced q run e leave payable p);
        entries = rw (after, paid, s, same);
        advances = rw (after, paid, t);
      }
      | inr unpaid ↦ record {
        balanced = rw (← same) (new_entry-IsBalanced q run e leave payable p);
        entries = rw (after, unpaid, same);
        advances = rw (after, unpaid);
      }
    ]

generate_joined-IsMade :
    (q : Request) (run : ℕ) (staff : Staff) (e : Employee) (joined : ℕ) (p : Payroll)
    {x : PayrollEntry} {p' : Payroll} {rows : List SalaryAdvance}
    → generate_joined q run staff e joined p ≡ made x p' rows
    → IsMade p x p'
generate_joined-IsMade q run staff e joined p {x} {p'} {rows} h =
    let start = later q.period.month_start joined in
    let leave = unpaid_leave_days e.pk q.period.month_end start staff.leaves in
    let payable = or_default (q.payable_days e.pk) (q.period.month_end - start + 1 - leave) in
    let e1 : make_entry q run e leave payable p ≡ made x p' rows = ground arith in
    make_entry-IsMade q run e leave payable p e1

generate_dated-IsMade :
    (date : Option ℕ) (q : Request) (run : ℕ) (staff : Staff) (e : Employee) (p : Payroll)
    {x : PayrollEntry} {p' : Payroll} {rows : List SalaryAdvance}
    → generate_dated date q run staff e p ≡ made x p' rows
    → IsMade p x p'
generate_dated-IsMade none q run staff e p h = cc
generate_dated-IsMade (some joined) q run staff e p h =
    generate_joined-IsMade q run staff e joined p h

pub generate_one-IsMade :
    (q : Request) (run : ℕ) (staff : Staff) (e : Employee) (p : Payroll) {x : PayrollEntry}
    {p' : Payroll} {rows : List SalaryAdvance}
    → generate_one q run staff e p ≡ made x p' rows
    → IsMade p x p'
unfolding generate_one
generate_one-IsMade q run staff e p h = generate_dated-IsMade e.joining_date q run staff e p h

module _ (q : Request) (run : ℕ) (staff : Staff) where
  -- How the loop goes on after one employee.
  abbrev pub go_on :
      Made → List Employee → Payroll → List SalaryAdvance → List PayrollEntry → Outcome
  go_on (refused r) employees p changed entries = stopped r p
  go_on skipped employees p changed entries = generate_all q run staff employees p changed entries
  go_on (made x p' rows) employees p changed entries =
      generate_all q run staff employees p' (changed ++ rows) (entries ++ x ∷ [])

  pub generate_all-cons :
      (m : Made) (e : Employee) (employees : List Employee) (p : Payroll)
      (changed : List SalaryAdvance) (entries : List PayrollEntry)
      → generate_one q run staff e p ≡ m
      → generate_all q run staff (e ∷ employees) p changed entries
        ≡ go_on m employees p changed entries
  unfolding generate_all
  generate_all-cons (refused r) e employees p changed entries h = ground arith
  generate_all-cons skipped e employees p changed entries h = ground arith
  generate_all-cons (made x p' rows) e employees p changed entries h = ground arith

  pub Made-cases :
      (m : Made)
      → ((r : Refusal) × (m ≡ refused r))
        ⊎ ((m ≡ skipped)
            ⊎ ((x : PayrollEntry) × (p' : Payroll) × (rows : List SalaryAdvance) × (m
                  ≡ made x p' rows)))
  Made-cases (refused r) = inl (r, refl)
  Made-cases skipped = inr (inl refl)
  Made-cases (made x p' rows) = inr (inr (x, p', rows, refl))
