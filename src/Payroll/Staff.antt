-- ===== src/Payroll/Staff.antt =====
-- The employees, the request and the unpaid leave of a payroll run: what `generate` of
-- apps/hrms/views.py reads, and `_approved_unpaid_leave_days`.
use ghazatech_inventory_be.Prelude.{
  ℕ, ◌+◌, ◌-◌, Bool, not, ◌&&◌, Option, List, [], ◌∷◌, leb, ◌==◌, if◌then◌else◌, later, smaller,
}
use ghazatech_inventory_be.Payroll.Records.{EntryStatus}

pub record Employee : Type 0 where
  pub pk : ℕ
  pub branch : ℕ
  pub is_active : Bool
  pub joining_date : Option ℕ
  pub basic_salary : ℕ
  pub allowances : ℕ

pub record LeaveRequest : Type 0 where
  pub employee : ℕ
  pub is_approved : Bool
  pub leave_type_is_paid : Bool
  pub from_date : ℕ
  pub to_date : ℕ

-- A pay period with its first and its last day.
pub record Period : Type 0 where
  pub code : ℕ
  pub month_start : ℕ
  pub month_end : ℕ

-- What the request holds; `payable_days` has the days given for an employee.
pub record Request : Type 0 where
  pub period : Period
  pub branch : ℕ
  pub employee_ids : List ℕ
  pub payable_days : ℕ → Option ℕ
  pub status : EntryStatus
  pub paid_by : ℕ

pub record Staff : Type 0 where
  pub employees : List Employee
  pub leaves : List LeaveRequest

pub data Refusal : Type 0 where
  paid_by_required no_employees period_too_late not_eligible no_joining_date : Refusal
  joined_later invalid_payable_days already_generated : Refusal

abbrev leave_days : ℕ → ℕ → ℕ → LeaveRequest → ℕ
leave_days employee month_end employment_start l =
    let first = later l.from_date employment_start in
    let last = smaller l.to_date month_end in
    if (l.employee == employee)
      && l.is_approved
      && not l.leave_type_is_paid
      && leb l.from_date month_end
      && leb employment_start l.to_date
      && leb first last
    then last - first + 1
    else 0

-- `_approved_unpaid_leave_days`
unfoldable pub unpaid_leave_days : ℕ → ℕ → ℕ → List LeaveRequest → ℕ
unpaid_leave_days employee month_end employment_start [] = 0
unpaid_leave_days employee month_end employment_start (l ∷ leaves) =
    leave_days employee month_end employment_start l
    + unpaid_leave_days employee month_end employment_start leaves
