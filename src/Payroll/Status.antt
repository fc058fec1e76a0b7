-- ===== src/Payroll/Status.antt =====
-- The status of a payroll entry: `_ensure_employee_loan_deduction`, `update_status` and `mark_paid` of
-- apps/hrms/views.py.
use ghazatech_inventory_be.Prelude.{
  ℕ, ◌-◌, Bool, true, false, not, ◌&&◌, Option, none, some, List, ◌==◌, if◌then◌else◌, find, any,
  all, select, put, option_eq, is_empty,
}
use ghazatech_inventory_be.Prelude.Result.{Result, ok, err, raise_if, ◌>>◌, ◌>>=◌, or_raise}
use ghazatech_inventory_be.Payroll.Records.{
  EntryStatus, PayrollEntry, RunStatus, PayrollRun, Payroll, is_paid,
}
use ghazatech_inventory_be.Payroll.Loans.{loan_deduction, settle_employee_loans}

pub data PayrollError : Type 0 where
  not_found bad_transition cancelled_payroll paid_by_required : PayrollError

-- `max(0, gross - deductions - advance)`
abbrev pub available_salary : PayrollEntry → ℕ
available_salary e = e.gross_salary - e.deductions - e.advance_deduction

abbrev pub with_loan_deduction : ℕ → PayrollEntry → PayrollEntry
with_loan_deduction d e =
    let net = available_salary e - d in
    record e {
      loan_deduction = d;
      net_salary = net;
      balance_payable = if is_paid e.status then e.balance_payable else net;
    }

unfoldable pub ensure_employee_loan_deduction : Payroll → PayrollEntry → PayrollEntry
ensure_employee_loan_deduction p e =
    let d = loan_deduction e.employee e.period (available_salary e) p.loans in
    if e.loan_deduction == d then e else with_loan_deduction d e

abbrev pub has_pk : ℕ → PayrollEntry → Bool
has_pk pk e = e.pk == pk

abbrev pub save_entry : PayrollEntry → Payroll → Payroll
save_entry e p = record p { entries = put (has_pk e.pk) e p.entries }

abbrev pub run_entries : PayrollRun → Payroll → List PayrollEntry
run_entries r p = select (λ e. option_eq e.payroll_run (some r.pk)) p.entries

abbrev pub has_status : (EntryStatus → Bool) → PayrollEntry → Bool
has_status test e = test e.status

-- The run of an entry is saved as the function makes it.
abbrev pub update_run : (PayrollRun → PayrollRun) → Option ℕ → Payroll → Payroll
update_run f none p = p
update_run f (some pk) p = elim (find (λ r. r.pk == pk) p.runs) [
  | none ↦ p
  | some r ↦ record p { runs = put (λ q. q.pk == pk) (f r) p.runs }
]

abbrev pub paid_entry : ℕ → PayrollEntry → PayrollEntry
paid_entry paid_by e = record e { paid_by = paid_by; status = EntryStatus.paid }

abbrev pub completed_run : ℕ → Payroll → PayrollRun → PayrollRun
completed_run paid_by p r =
    if all (has_status is_paid) (run_entries r p)
    then (record r { status = RunStatus.completed; paid_by = paid_by })
    else r

-- `request.data.get("paid_by") or entry.paid_by`
abbrev pub payer : ℕ → PayrollEntry → ℕ
payer requested e = if requested == 0 then e.paid_by else requested

-- The part of `mark_paid` below its guards.
unfoldable pub pay_entry : ℕ → PayrollEntry → Payroll → Payroll
pay_entry paid_by e p =
    let e' = paid_entry paid_by (ensure_employee_loan_deduction p e) in
    let p' = settle_employee_loans e' (save_entry e' p) in
    update_run (completed_run paid_by p') e.payroll_run p'

abbrev pub pay_unless_closed :
    EntryStatus → ℕ → PayrollEntry → Payroll → Result PayrollError Payroll
pay_unless_closed EntryStatus.paid paid_by e p = ok p
pay_unless_closed EntryStatus.cancelled paid_by e p = err cancelled_payroll
pay_unless_closed _ paid_by e p = do
  raise_if (payer paid_by e == 0) paid_by_required
  ok (pay_entry (payer paid_by e) e p)

unfoldable pub mark_paid : ℕ → ℕ → Payroll → Result PayrollError Payroll
unfolding pay_entry
mark_paid pk paid_by p = do
  e ← or_raise (find (has_pk pk) p.entries) not_found
  pay_unless_closed e.status paid_by e p

-- `transitions`
abbrev pub can_become : EntryStatus → EntryStatus → Bool
can_become EntryStatus.pending EntryStatus.pending = false
can_become EntryStatus.pending _ = true
can_become EntryStatus.processing EntryStatus.pending = false
can_become EntryStatus.processing EntryStatus.processing = false
can_become EntryStatus.processing _ = true
can_become EntryStatus.failed EntryStatus.failed = false
can_become EntryStatus.failed _ = true
can_become EntryStatus.paid _ = false
can_become EntryStatus.cancelled _ = false

abbrev pub same_status : EntryStatus → EntryStatus → Bool
same_status EntryStatus.pending EntryStatus.pending = true
same_status EntryStatus.processing EntryStatus.processing = true
same_status EntryStatus.paid EntryStatus.paid = true
same_status EntryStatus.failed EntryStatus.failed = true
same_status EntryStatus.cancelled EntryStatus.cancelled = true
same_status _ _ = false

-- The status that the run takes from its entries.
abbrev pub run_status : List PayrollEntry → RunStatus
run_status entries =
    if not (is_empty entries) && all (has_status is_paid) entries
    then RunStatus.completed
    else if any (has_status (same_status EntryStatus.processing)) entries
    then RunStatus.processing
    else if any (has_status (same_status EntryStatus.failed)) entries
    then RunStatus.failed
    else if not (is_empty entries) && all (has_status (same_status EntryStatus.cancelled)) entries
    then RunStatus.cancelled
    else RunStatus.draft

abbrev is_named_payment : PayrollEntry → Bool
is_named_payment e = is_paid e.status && not (e.paid_by == 0)

abbrev run_payer : RunStatus → List PayrollEntry → ℕ
run_payer RunStatus.completed entries = elim (find is_named_payment entries) [
  | none ↦ 0
  | some e ↦ e.paid_by
]
run_payer _ entries = 0

abbrev pub refreshed_run : Payroll → PayrollRun → PayrollRun
refreshed_run p r =
    let entries = run_entries r p in
    record r { status = run_status entries; paid_by = run_payer (run_status entries) entries }

-- The entry has its new status when the loan deduction is made sure of.
unfoldable pub pay_changed_entry : ℕ → PayrollEntry → Payroll → Payroll
pay_changed_entry paid_by e p =
    let e' : PayrollEntry =
      record (ensure_employee_loan_deduction p (record e { status = EntryStatus.paid })) {
        paid_by = paid_by;
      } in
    settle_employee_loans e' (save_entry e' p)

abbrev pub change_entry : EntryStatus → ℕ → PayrollEntry → Payroll → Result PayrollError Payroll
change_entry EntryStatus.paid paid_by e p = do
  raise_if (paid_by == 0) paid_by_required
  ok (pay_changed_entry paid_by e p)
change_entry requested paid_by e p =
    ok (save_entry (record e { status = requested; paid_by = 0 }) p)

unfoldable pub update_status : ℕ → EntryStatus → ℕ → Payroll → Result PayrollError Payroll
unfolding pay_changed_entry
update_status pk requested paid_by p = do
  e ← or_raise (find (has_pk pk) p.entries) not_found
  if same_status requested e.status then ok p else (do
    raise_if (not (can_become e.status requested)) bad_transition
    p' ← change_entry requested paid_by e p
    ok (update_run (refreshed_run p') e.payroll_run p'))
