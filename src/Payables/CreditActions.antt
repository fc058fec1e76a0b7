-- ===== src/Payables/CreditActions.antt =====
-- The actions on a vendor credit in apps/purchases/views.py: approval, posting against bills, the
-- status request and voiding. The mark that they leave on the supplier return is left out.
use ghazatech_inventory_be.Prelude.{
  ℕ, ◌+◌, ◌-◌, ◌*◌, Bool, true, false, not, ◌&&◌, Option, none, some, List, [], ◌∷◌, find, put, ltb,
  ◌==◌, if◌then◌else◌, is_empty, smaller,
}
use ghazatech_inventory_be.Prelude.Decimal.{round_half_up}
use ghazatech_inventory_be.Prelude.Result.{Result, ok, raise_if, or_raise, ◌>>=◌, ◌>>◌}
use ghazatech_inventory_be.Payables.{BillStatus, SupplierBill, Share, is_bill}
use ghazatech_inventory_be.Payables.Credit.{CreditStatus, VendorCredit, CreditError, synced}

abbrev pub is_approvable : CreditStatus → Bool
is_approvable CreditStatus.approved = true
is_approvable CreditStatus.opened = true
is_approvable _ = false

abbrev pub approve_unposted : VendorCredit → ℕ → Result CreditError VendorCredit
approve_unposted credit total =
    raise_if (not (is_approvable credit.status)) CreditError.not_approvable
    >> raise_if credit.posted CreditError.already_posted
    >> raise_if (is_empty credit.items) CreditError.no_items
    >> raise_if (total == 0) CreditError.no_total
    >> ok (record credit {
      status = CreditStatus.approved;
      applied_amount = 0;
      remaining_amount = round_half_up total 100;
    })

abbrev is_approved : CreditStatus → Bool
is_approved CreditStatus.approved = true
is_approved _ = false

-- An approved credit is returned as it is.
abbrev approve_synced : VendorCredit × ℕ → Result CreditError VendorCredit
approve_synced (credit, total) =
    if is_approved credit.status then ok credit else approve_unposted credit total

-- `approve`
unfoldable pub approve :
    (List SupplierBill → List SupplierBill)
    → List SupplierBill
    → VendorCredit
    → Result CreditError VendorCredit
approve by_due_date bills credit =
    synced by_due_date bills credit credit.return_lines >>= approve_synced

-- A bill after it received an amount of credit.
abbrev pub credit_bill : ℕ → SupplierBill → SupplierBill
credit_bill amount bill =
    let balance_due = bill.balance_due - amount in
    let paid_amount = bill.total_amount - balance_due in
    record bill {
      balance_due = balance_due;
      paid_amount = paid_amount;
      status =
          if balance_due == 0
          then BillStatus.paid
          else if ltb 0 paid_amount
          then BillStatus.partially_paid
          else BillStatus.unpaid;
    }

-- What one application takes from the bill.
abbrev pub taken : Share → SupplierBill → ℕ
taken s bill = smaller s.amount bill.balance_due

abbrev pub apply_share : Share → SupplierBill → List SupplierBill → List SupplierBill
apply_share s bill bills =
    if taken s bill == 0
    then bills
    else put (is_bill s.bill) (credit_bill (taken s bill) bill) bills

-- The loop over the applications: what was applied, and the bills.
unfoldable pub apply_shares :
    List Share → List SupplierBill → Result CreditError (ℕ × List SupplierBill)
apply_shares [] bills = ok (0, bills)
apply_shares (s ∷ shares) bills =
    or_raise (find (is_bill s.bill) bills) CreditError.bill_missing >>= λ bill.
    apply_shares shares (apply_share s bill bills) >>= λ out. ok (taken s bill + out.0, out.1)

-- The status and the amounts after an application, with the credit's exact total.
abbrev pub settled_credit : ℕ → ℕ → VendorCredit → VendorCredit
settled_credit total applied credit =
    let remaining = total - 100 * applied in
    record credit {
      applied_amount = applied;
      remaining_amount = round_half_up remaining 100;
      status =
          if remaining == 0
          then CreditStatus.fully_applied
          else if ltb 0 applied
          then CreditStatus.partially_applied
          else CreditStatus.opened;
      posted = true;
    }

-- `post`
unfoldable pub post :
    VendorCredit → List SupplierBill → Result CreditError (VendorCredit × List SupplierBill)
post credit bills =
    raise_if (not (is_approvable credit.status)) CreditError.not_approved
    >> apply_shares credit.applications bills
    >>= λ out. ok (settled_credit (100 * credit.total_amount) out.0 credit, out.1)

-- `void`
unfoldable pub void_credit : VendorCredit → Result CreditError VendorCredit
void_credit credit =
    raise_if (ltb 0 credit.applied_amount) CreditError.already_applied
    >> ok (record credit { status = CreditStatus.void })

-- What `update_status` answers; a refusal keeps what was written before it.
pub data Reply : Type 0 where
  accepted : Reply
  refused : CreditError → Reply

abbrev pub status_eq : CreditStatus → CreditStatus → Bool
status_eq CreditStatus.draft CreditStatus.draft = true
status_eq CreditStatus.pending CreditStatus.pending = true
status_eq CreditStatus.approved CreditStatus.approved = true
status_eq CreditStatus.opened CreditStatus.opened = true
status_eq CreditStatus.partially_applied CreditStatus.partially_applied = true
status_eq CreditStatus.fully_applied CreditStatus.fully_applied = true
status_eq CreditStatus.void CreditStatus.void = true
status_eq _ _ = false

abbrev pub is_opened : CreditStatus → Bool
is_opened status = status_eq status CreditStatus.opened

-- The statuses from which a request may open the credit.
abbrev pub is_openable : CreditStatus → Bool
is_openable CreditStatus.draft = true
is_openable CreditStatus.pending = true
is_openable CreditStatus.opened = true
is_openable _ = false

abbrev pub Answer : Type 0
Answer = Reply × VendorCredit × List SupplierBill

abbrev pub void_request : VendorCredit → List SupplierBill → Answer
void_request credit bills =
    if ltb 0 credit.applied_amount
    then (Reply.refused CreditError.already_applied, credit, bills)
    else (Reply.accepted, (record credit { status = CreditStatus.void }), bills)

abbrev pub open_request : VendorCredit → ℕ → List SupplierBill → Result CreditError Answer
open_request credit total bills =
    let applied = apply_shares credit.applications bills >>= λ out.
    ok (Reply.accepted, settled_credit total out.0 credit, out.1) in
    if is_openable credit.status
    then applied
    else ok (Reply.refused CreditError.not_open, credit, bills)

abbrev pub answer_request :
    Option CreditStatus → VendorCredit × ℕ → List SupplierBill → Result CreditError Answer
answer_request none (credit, total) bills =
    ok (Reply.refused CreditError.invalid_status, credit, bills)
answer_request (some requested) (credit, total) bills =
    if status_eq requested credit.status && not (is_opened requested && not credit.posted)
    then ok (Reply.accepted, credit, bills)
    else if status_eq requested CreditStatus.void
    then ok (void_request credit bills)
    else if is_opened requested
    then open_request credit total bills
    else ok (Reply.refused CreditError.calculated_status, credit, bills)

-- `update_status`; a text that is no status is `none`.
unfoldable pub update_status :
    (List SupplierBill → List SupplierBill)
    → Option CreditStatus
    → VendorCredit
    → List SupplierBill
    → Result CreditError Answer
update_status by_due_date requested credit bills =
    synced by_due_date bills credit credit.return_lines >>= λ content.
    answer_request requested content bills
