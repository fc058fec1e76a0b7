-- ===== src/Payroll/Generate.antt =====
-- `generate` of apps/hrms/views.py: the entries of a payroll run. A reply that refuses is returned, not
-- raised, so the transaction around it keeps what was written before.
use ghazatech_inventory_be.Prelude.{
  ℕ, ◌+◌, ◌-◌, ◌*◌, Bool, true, false, not, ◌&&◌, ◌||◌, Option, none, some, List, [], ◌∷◌, ◌++◌,
  ltb, leb, ◌==◌, if◌then◌else◌, any, select, put, smaller, later, or_default, is_empty,
}
use ghazatech_inventory_be.Prelude.Decimal.{round_half_up}
use ghazatech_inventory_be.Payroll.Records.{
  AdvanceStatus, SalaryAdvance, EntryStatus, full, prorated, PayrollEntry, RunStatus, PayrollRun,
  Payroll, is_paid,
}
use ghazatech_inventory_be.Payroll.Staff.{
  Employee, Request, Staff, Refusal, unpaid_leave_days, paid_by_required, no_employees,
  period_too_late, not_eligible, no_joining_date, joined_later, invalid_payable_days,
  already_generated,
}
use ghazatech_inventory_be.Payroll.Loans.{loan_deduction, settle_employee_loans}

abbrev is_open_advance : ℕ → ℕ → SalaryAdvance → Bool
is_open_advance employee period a =
    (a.employee == employee)
    && (a.period == period)
    && elim a.status [ AdvanceStatus.paid ↦ true | _ ↦ false ]
    && ltb 0 a.remaining_amount

abbrev pub advance_rows : ℕ → ℕ → List SalaryAdvance → List SalaryAdvance
advance_rows employee period advances = select (is_open_advance employee period) advances

abbrev pub available_advance : List SalaryAdvance → ℕ
available_advance [] = 0
available_advance (a ∷ rows) = a.remaining_amount + available_advance rows

abbrev pub reduced_advance : ℕ → ℕ → SalaryAdvance → SalaryAdvance
reduced_advance entry applied a =
    if a.remaining_amount - applied == 0
    then (record a {
      remaining_amount = 0;
      status = AdvanceStatus.deducted;
      deducted_payroll_entry = some entry;
    })
    else (record a { remaining_amount = a.remaining_amount - applied })

-- The advances that change; none do once nothing is left to apply.
unfoldable pub apply_advances : ℕ → ℕ → List SalaryAdvance → List SalaryAdvance
apply_advances entry remaining [] = []
apply_advances entry remaining (a ∷ rows) =
    let applied = smaller a.remaining_amount remaining in
    let rest = apply_advances entry (remaining - applied) rows in
    if remaining == 0 then [] else reduced_advance entry applied a ∷ rest

-- What the loop has made of one employee: nothing for a period that has an entry.
pub data Made : Type 0 where
  refused : Refusal → Made
  skipped : Made
  made : PayrollEntry → Payroll → List SalaryAdvance → Made

abbrev has_period : ℕ → ℕ → PayrollEntry → Bool
has_period employee period x = (x.employee == employee) && (x.period == period)

-- The entry of an employee for the payable days.
unfoldable pub new_entry : Request → ℕ → Employee → ℕ → ℕ → Payroll → PayrollEntry
new_entry q run e leave payable p =
    let total = q.period.month_end - q.period.month_start + 1 in
    let gross = round_half_up ((e.basic_salary + e.allowances) * payable) total in
    let advance = smaller (available_advance (advance_rows e.pk q.period.code p.advances)) gross in
    let loan = loan_deduction e.pk q.period.code (gross - advance) p.loans in
    record {
      pk = p.next_pk;
      payroll_run = some run;
      employee = e.pk;
      period = q.period.code;
      paid_by = if is_paid q.status then q.paid_by else 0;
      gross_salary = gross;
      deductions = 0;
      advance_deduction = advance;
      loan_deduction = loan;
      net_salary = gross - advance - loan;
      balance_payable = gross - advance - loan;
      status = q.status;
      total_period_days = total;
      payable_days = payable;
      unpaid_leave_days = leave;
      salary_calculation_method = if ltb payable total then prorated else full;
    }

-- The entry is written, and a paid one settles its loans; the advances that change are handed on.
unfoldable pub make_entry : Request → ℕ → Employee → ℕ → ℕ → Payroll → Made
make_entry q run e leave payable p =
    let x = new_entry q run e leave payable p in
    let written = record p { entries = p.entries ++ x ∷ []; next_pk = p.next_pk + 1 } in
    made x (if is_paid q.status then settle_employee_loans x written else written)
      (apply_advances x.pk x.advance_deduction (advance_rows e.pk q.period.code p.advances))

abbrev pub generate_joined : Request → ℕ → Staff → Employee → ℕ → Payroll → Made
generate_joined q run staff e joined p =
    let start = later q.period.month_start joined in
    let days = q.period.month_end - start + 1 in
    let leave = unpaid_leave_days e.pk q.period.month_end start staff.leaves in
    let payable = or_default (q.payable_days e.pk) (days - leave) in
    if ltb q.period.month_end joined
    then refused joined_later
    else if any (has_period e.pk q.period.code) p.entries
    then skipped
    else if ltb days payable
    then refused invalid_payable_days
    else make_entry q run e leave payable p

abbrev pub generate_dated : Option ℕ → Request → ℕ → Staff → Employee → Payroll → Made
generate_dated none q run staff e p = refused no_joining_date
generate_dated (some joined) q run staff e p = generate_joined q run staff e joined p

unfoldable pub generate_one : Request → ℕ → Staff → Employee → Payroll → Made
generate_one q run staff e p = generate_dated e.joining_date q run staff e p

-- The loop over the employees, with the changed advances and the entries made so far.
pub data Outcome : Type 0 where
  stopped : Refusal → Payroll → Outcome
  finished : Payroll → List SalaryAdvance → List PayrollEntry → Outcome

unfoldable pub generate_all :
    Request → ℕ → Staff → List Employee → Payroll → List SalaryAdvance → List PayrollEntry → Outcome
generate_all q run staff [] p changed created = finished p changed created
generate_all q run staff (e ∷ employees) p changed created = elim (generate_one q run staff e p) [
  | refused r ↦ stopped r p
  | skipped ↦ generate_all q run staff employees p changed created
  | made x p' rows ↦ generate_all q run staff employees p' (changed ++ rows) (created ++ x ∷ [])
]

abbrev pub sum_of : (PayrollEntry → ℕ) → List PayrollEntry → ℕ
sum_of f [] = 0
sum_of f (x ∷ entries) = f x + sum_of f entries

-- `run_status_map`
abbrev pub status_of_run : EntryStatus → RunStatus
status_of_run EntryStatus.pending = RunStatus.draft
status_of_run EntryStatus.processing = RunStatus.processing
status_of_run EntryStatus.paid = RunStatus.completed
status_of_run EntryStatus.failed = RunStatus.failed
status_of_run EntryStatus.cancelled = RunStatus.cancelled

abbrev pub new_run : Request → ℕ → List PayrollEntry → PayrollRun
new_run q pk created = record {
  pk = pk;
  period = q.period.code;
  paid_by = if is_paid q.status then q.paid_by else 0;
  status = status_of_run q.status;
  total_gross = sum_of (λ x. x.gross_salary) created;
  total_deductions = sum_of (λ x. x.deductions) created;
  total_advance_deduction = sum_of (λ x. x.advance_deduction) created;
  total_net = sum_of (λ x. x.net_salary) created;
}

abbrev pub save_advances : List SalaryAdvance → List SalaryAdvance → List SalaryAdvance
save_advances [] advances = advances
save_advances (a ∷ changed) advances = save_advances changed (put (λ b. b.pk == a.pk) a advances)

abbrev save_run : PayrollRun → Payroll → Payroll
save_run r p = record p { runs = put (λ s. s.pk == r.pk) r p.runs }

-- The reply, and the tables that the transaction commits.
pub data Reply : Type 0 where
  created : PayrollRun → Reply
  bad_request : Refusal → Reply

abbrev without_run : ℕ → Payroll → Payroll
without_run pk p = record p { runs = select (λ r. not (r.pk == pk)) p.runs }

abbrev pub conclude : Request → ℕ → Outcome → Reply × Payroll
conclude q run (stopped r p) = (bad_request r, p)
conclude q run (finished p changed []) = (bad_request already_generated, without_run run p)
conclude q run (finished p changed (x ∷ entries)) =
    let r = new_run q run (x ∷ entries) in
    (created r, save_run r (record p { advances = save_advances changed p.advances }))

abbrev is_selected : Request → Employee → Bool
is_selected q e =
    any (λ pk. pk == e.pk) q.employee_ids
    && e.is_active
    && elim e.joining_date [ none ↦ false | some d ↦ leb d q.period.month_end ]
    && (e.branch == q.branch)

abbrev pub selected : Request → Staff → List Employee
selected q staff = select (is_selected q) staff.employees

abbrev is_missing : Request → Staff → Bool
is_missing q staff = any (λ pk. not (any (λ e. e.pk == pk) (selected q staff))) q.employee_ids

-- `latest` is the first day of the latest period that is allowed.
unfoldable pub generate : ℕ → Request → Staff → Payroll → Reply × Payroll
unfolding generate_all
generate latest q staff p =
    let run = p.next_pk in
    let opened = record p { runs = p.runs ++ new_run q run [] ∷ []; next_pk = run + 1 } in
    if is_paid q.status && (q.paid_by == 0)
    then (bad_request paid_by_required, p)
    else if is_empty q.employee_ids
    then (bad_request no_employees, p)
    else if ltb latest q.period.month_start
    then (bad_request period_too_late, p)
    else if is_missing q staff || is_empty (selected q staff)
    then (bad_request not_eligible, p)
    else conclude q run (generate_all q run staff (selected q staff) opened [] [])
