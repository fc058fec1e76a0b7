-- ===== src/Payroll/Stale.antt =====
-- What `update_status` leaves of the balance when it pays a salary (apps/hrms/views.py).
use ghazatech_inventory_be.Prelude.{
  ℕ, ◌≡◌, ◌∙◌, refl, sym, ap, true, false, not, some, ◌==◌, ==_refl, ==_iff, find, find-put_self,
  find-passes, arith,
}
use ghazatech_inventory_be.Prelude.Result.{ok, raise_if, >>=-eq-ok, ok_injective}
use ghazatech_inventory_be.Payroll.Records.{EntryStatus, PayrollEntry, Payroll, is_paid}
use ghazatech_inventory_be.Payroll.Loans.{loan_deduction, settle_employee_loans}
use ghazatech_inventory_be.Payroll.Settled.{ensured, update_run-same, settle-entries}
use ghazatech_inventory_be.Payroll.Status.{
  paid_by_required, bad_transition, available_salary, ensure_employee_loan_deduction, has_pk,
  save_entry, update_run, same_status, can_become, change_entry, pay_changed_entry, refreshed_run,
  update_status,
}

not_same : (s : EntryStatus) → is_paid s ≡ false → same_status EntryStatus.paid s ≡ false
not_same EntryStatus.paid h = cc
not_same _ h = ground arith

ensured-balance :
    (p : Payroll) (e : PayrollEntry)
    → is_paid e.status ≡ true
    → (ensure_employee_loan_deduction p e).balance_payable ≡ e.balance_payable
unfolding ensure_employee_loan_deduction
ensured-balance p e h = ground arith

update_status-eq-ok :
    (pk paid_by : ℕ) (e : PayrollEntry) (p : Payroll) {p' : Payroll}
    → find (has_pk pk) p.entries ≡ some e
    → is_paid e.status ≡ false
    → update_status pk EntryStatus.paid paid_by p ≡ ok p'
    → p'
      ≡ update_run
          (refreshed_run (pay_changed_entry paid_by e p))
          e.payroll_run
          (pay_changed_entry paid_by e p)
unfolding update_status
update_status-eq-ok pk paid_by e p found open_status h =
    let h1 = rw (found, not_same e.status open_status) at h in
    let (_, _, h2) =
      >>=-eq-ok (raise_if (not (can_become e.status EntryStatus.paid)) bad_transition) _ h1 in
    let (q, changed, made) = >>=-eq-ok (change_entry EntryStatus.paid paid_by e p) _ h2 in
    let (_, _, paid) = >>=-eq-ok (raise_if (paid_by == 0) paid_by_required) _ changed in
    let same = ok_injective paid in
    sym (ok_injective made)
    ∙ ap (λ (r : Payroll). update_run (refreshed_run r) e.payroll_run r) (sym same)

-- A salary that `update_status` pays gets the deduction that its loans allow, and its balance stays
-- what it was before that deduction was made sure of.
pub update_status_keeps_balance :
    (pk paid_by : ℕ) (e : PayrollEntry) (p : Payroll) {p' : Payroll}
    → find (has_pk pk) p.entries ≡ some e
    → is_paid e.status ≡ false
    → update_status pk EntryStatus.paid paid_by p ≡ ok p'
    → (e' : PayrollEntry) × (find (has_pk pk) p'.entries ≡ some e')
      × (e'.loan_deduction ≡ loan_deduction e.employee e.period (available_salary e) p.loans)
      × (e'.balance_payable ≡ e.balance_payable)
unfolding pay_changed_entry
update_status_keeps_balance pk paid_by e p {p'} found open_status h =
    let made = update_status-eq-ok pk paid_by e p found open_status h in
    let now : PayrollEntry = record e { status = EntryStatus.paid } in
    let (same_pk, _, _, deduction) = ensured p now in
    let e' : PayrollEntry = record (ensure_employee_loan_deduction p now) { paid_by = paid_by } in
    let p1 = settle_employee_loans e' (save_entry e' p) in
    let (_, _, entries) = update_run-same (refreshed_run p1) e.payroll_run p1 in
    let key : e'.pk ≡ pk = same_pk ∙ (==_iff e.pk pk).0 (find-passes (has_pk pk) p.entries found) in
    (
      e',
      ap (λ (q : Payroll). find (has_pk pk) q.entries) made
          ∙ ap (find (has_pk pk)) (entries ∙ settle-entries e' (save_entry e' p))
          ∙ ap (λ (k : ℕ). find (has_pk k) (save_entry e' p).entries) (sym key)
          ∙ find-put_self (has_pk e'.pk) e' p.entries (==_refl e'.pk),
      deduction,
      ensured-balance p now refl,
    )
